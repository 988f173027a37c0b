-- ===== src/Pager/Reading.antt =====
-- What a reader of PagerState's screen can rely on: nothing scrolls by unseen.
use tfr.Base.{
  ℕ, zero, suc, ◌+◌, ◌-◌, ◌≤◌, ◌<◌, ◌≡◌, refl, ◌∙◌, min, pos, negsuc, true, arith, ◌⊎◌, inl, inr,
  if◌then◌else◌, ltb,
}
use tfr.Pager.{
  follow, paused, scrolled, PagerState, grow, scroll_rows, advance, drop_rows, visible_range,
  more_rows,
}
use tfr.Pager.Invariant.{IsValid, advance-IsValid}

-- Rows that arrive in two batches have the effect of one batch, in every state of the pager.
pub append_batches : (p : PagerState) (a b : ℕ) → grow (grow p a) b ≡ grow p (a + b)
unfolding grow
append_batches p a b = ground arith

-- However many rows arrive while a pager that is on follows, no more of them are shown than its page
-- budget, none of the shown ones has scrolled off the top, and output pauses exactly when some are
-- held back.
pub append_shows_budget :
    (p : PagerState) (count : ℕ)
    → IsValid p
    → p.mode ≡ follow
    → p.enabled ≡ true
    → ((grow p count).visible_end ≡ p.visible_end + min count p.page_budget)
      × ((grow p count).top_row ≤ p.visible_end)
      × ((grow p count).mode ≡ (if ltb p.page_budget count then paused else follow))
unfolding grow
append_shows_budget p count v m e = (ground arith, ground arith, ground arith)

-- On a paused screen the next page shows more rows, none is left out, and it starts with at least
-- `overlap` rows that were shown before, or all but one line of the screen if the overlap is larger.
advance_overlaps :
    (p : PagerState)
    → IsValid p
    → p.mode ≡ paused
    → ((advance p).top_row ≤ p.visible_end - min p.overlap (p.height - 1))
      × (p.visible_end < (advance p).visible_end)
      × ((advance p).visible_end ≤ p.visible_end + p.height)
      × ((advance p).visible_end ≤ p.total_rows)
unfolding advance
advance_overlaps p v m = (ground arith, ground arith, ground arith, ground arith)

pub advances_by : ℕ → PagerState → PagerState
advances_by zero p = p
advances_by (suc n) p = advances_by n (advance p)

advance_follows : (p : PagerState) → p.mode ≡ follow → advance p ≡ p
unfolding advance
advance_follows p m = ground arith

advances_follows : (n : ℕ) (p : PagerState) → p.mode ≡ follow → advances_by n p ≡ p
unfolding advances_by
advances_follows zero p m = refl
advances_follows (suc n) p m = rw (advance_follows p m) (advances_follows n p m)

advance_progress :
    (p : PagerState)
    → IsValid p
    → ((advance p).mode ≡ follow) ⊎ (more_rows (advance p) < more_rows p)
unfolding advance more_rows
advance_progress p v = ground arith

total_rows-advance : (p : PagerState) → (advance p).total_rows ≡ p.total_rows
unfolding advance
total_rows-advance p = ground arith

following_at_end : (p : PagerState) → IsValid p → p.mode ≡ follow → p.visible_end ≡ p.total_rows
following_at_end p v m = (rw m at v.placed).0

-- Paging forward ends: from any valid state, more advances than there are rows below the screen reach
-- the last row, and the pager follows again.
pub advances_reach_end :
    (n : ℕ) (p : PagerState)
    → IsValid p
    → more_rows p < n
    → ((advances_by n p).mode ≡ follow)
      × ((advances_by n p).visible_end ≡ (advances_by n p).total_rows)
      × ((advances_by n p).total_rows ≡ p.total_rows)
unfolding advances_by
advances_reach_end zero p v h = absurd (omega arith)
advances_reach_end (suc n) p v h = elim (advance_progress p v) [
  | inl m ↦
      rw (advances_follows n (advance p) m)
        (m, following_at_end (advance p) (advance-IsValid p v) m, total_rows-advance p)
  | inr lt ↦
      (let (m, e, t) = advances_reach_end n (advance p) (advance-IsValid p v) (omega arith) in
        (m, e, t ∙ total_rows-advance p))
]

-- The rows on screen are rows of the buffer, and at most a screenful.
pub visible_range_bounds :
    (p : PagerState)
    → IsValid p
    → ((visible_range p).0 ≤ (visible_range p).1)
      × ((visible_range p).1 ≤ p.total_rows)
      × ((visible_range p).1 ≤ (visible_range p).0 + p.height)
unfolding visible_range
visible_range_bounds p v = (ground arith, ground arith, ground arith)

-- Trimming rows above the screen moves the screen with its rows: row r is now row r - count, the same
-- rows are shown, in the same mode, and as many wait.
drop_rows_keeps_screen :
    (p : PagerState) (count : ℕ)
    → IsValid p
    → count ≤ p.top_row
    → count < p.total_rows
    → (visible_range (drop_rows p count)
        ≡ ((visible_range p).0 - count, (visible_range p).1 - count))
      × ((drop_rows p count).mode ≡ p.mode)
      × (more_rows (drop_rows p count) ≡ more_rows p)
unfolding visible_range drop_rows more_rows
drop_rows_keeps_screen p count v h k = (ground arith, ground arith, ground arith)

-- Scrolling back by at most the rows above the screen leaves the last page, and scrolling forward by
-- as many rows returns to the same top row.
scroll_back :
    (p : PagerState) (n : ℕ)
    → IsValid p
    → suc n ≤ p.top_row
    → ((scroll_rows p (negsuc n)).mode ≡ scrolled)
      × ((scroll_rows (scroll_rows p (negsuc n)) (pos (suc n))).top_row ≡ p.top_row)
unfolding scroll_rows
scroll_back p n v h = (ground arith, ground arith)
