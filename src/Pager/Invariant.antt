-- ===== src/Pager/Invariant.antt =====
-- What every operation of PagerState keeps.
use tfr.Base.{List, [], ◌∷◌, zero, ℕ, suc, ◌-◌, ◌≤◌, ◌<◌, ◌≡◌, ℤ, pos, negsuc, Bool, arith, ok}
use tfr.Pager.{
  Call, appends, scrolls, trims, resizes, reflows, advances, jumps, perform, after, run, PagerMode,
  follow, paused, scrolled, PagerState, create, jump_to_end, grow, append_rows, scroll_rows,
  advance, drop_rows, trim_rows, set_height, resize, set_total, reflow,
}

-- Following, the last row is shown on the last line, and the budget is at most a screen. Paused, the
-- last shown row is on the last line, rows wait behind it and the budget is spent. Scrolled back, the
-- screen does not reach past the last row.
abbrev pub IsPlaced : PagerMode → PagerState → Type 0
IsPlaced follow p =
    (p.visible_end ≡ p.total_rows)
    × (p.top_row ≡ p.total_rows - p.height)
    × (p.page_budget ≤ p.height)
IsPlaced paused p =
    (p.visible_end < p.total_rows) × (p.top_row ≡ p.visible_end - p.height) × (p.page_budget ≡ 0)
IsPlaced scrolled p = (p.visible_end ≤ p.total_rows) × (p.top_row ≤ p.total_rows - p.height)

pub record IsValid (p : PagerState) : Type 0 where
  pub height_positive : 0 < p.height
  pub placed : IsPlaced p.mode p

pub grow-IsValid : (p : PagerState) (count : ℕ) → IsValid p → IsValid (grow p count)
unfolding grow
grow-IsValid p count v = ground arith

pub scroll-IsValid : (p : PagerState) (amount : ℤ) → IsValid p → IsValid (scroll_rows p amount)
unfolding scroll_rows
scroll-IsValid p amount v = ground arith

pub advance-IsValid : (p : PagerState) → IsValid p → IsValid (advance p)
unfolding advance
advance-IsValid p v = ground arith

pub jump_to_end-IsValid : (p : PagerState) → IsValid p → IsValid (jump_to_end p)
unfolding jump_to_end
jump_to_end-IsValid p v = ground arith

pub drop-IsValid : (p : PagerState) (count : ℕ) → IsValid p → IsValid (drop_rows p count)
unfolding drop_rows
drop-IsValid p count v = ground arith

pub set_height-IsValid :
    (p : PagerState) (height : ℕ) → 0 < height → IsValid p → IsValid (set_height p height)
unfolding set_height
set_height-IsValid p height h v = ground arith

pub set_total-IsValid :
    (scaled : ℕ → ℕ → ℕ → ℕ) (p : PagerState) (total : ℕ)
    → IsValid p
    → IsValid (set_total scaled p total)
unfolding set_total
set_total-IsValid scaled p total v = ground arith

perform-IsValid :
    (scaled : ℕ → ℕ → ℕ → ℕ) (p : PagerState) (call : Call)
    → IsValid p
    → IsValid (after p (perform scaled p call))
unfolding perform append_rows trim_rows resize reflow
perform-IsValid scaled p (appends (pos n)) v = grow-IsValid p n v
perform-IsValid scaled p (appends (negsuc n)) v = v
perform-IsValid scaled p (scrolls n) v = scroll-IsValid p n v
perform-IsValid scaled p (trims (pos n)) v = drop-IsValid p n v
perform-IsValid scaled p (trims (negsuc n)) v = v
perform-IsValid scaled p (resizes (pos zero)) v = v
perform-IsValid scaled p (resizes (pos (suc n))) v = set_height-IsValid p (suc n) (omega arith) v
perform-IsValid scaled p (resizes (negsuc n)) v = v
perform-IsValid scaled p (reflows (pos n)) v = set_total-IsValid scaled p n v
perform-IsValid scaled p (reflows (negsuc n)) v = v
perform-IsValid scaled p advances v = advance-IsValid p v
perform-IsValid scaled p jumps v = jump_to_end-IsValid p v

run_keeps-IsValid :
    (scaled : ℕ → ℕ → ℕ → ℕ) (p : PagerState) (calls : List Call)
    → IsValid p
    → IsValid (run scaled p calls)
unfolding run
run_keeps-IsValid scaled p [] v = v
run_keeps-IsValid scaled p (call ∷ calls) v =
    run_keeps-IsValid scaled (after p (perform scaled p call)) calls
      (perform-IsValid scaled p call v)

pub create-IsValid :
    (height overlap : ℤ) (enabled : Bool) (p : PagerState)
    → create height overlap enabled ≡ ok p
    → IsValid p
unfolding create
create-IsValid (pos (suc h)) (pos o) enabled p e = ground arith
create-IsValid (pos zero) overlap enabled p e = ground arith
create-IsValid (pos (suc h)) (negsuc o) enabled p e = ground arith
create-IsValid (negsuc n) overlap enabled p e = ground arith

-- From a constructor that succeeds, and whatever calls follow, refused ones included and however
-- floating point rounds a reflow, the pager is well placed: following it ends at the last row with a
-- budget of at most a screen, paused it has rows waiting and no budget, scrolled back it stays inside
-- the buffer.
pub run-IsValid :
    (scaled : ℕ → ℕ → ℕ → ℕ) (height overlap : ℤ) (enabled : Bool) (p : PagerState)
    (calls : List Call)
    → create height overlap enabled ≡ ok p
    → IsValid (run scaled p calls)
run-IsValid scaled height overlap enabled p calls e =
    run_keeps-IsValid scaled p calls (create-IsValid height overlap enabled p e)
