-- ===== src/Display/Screen.antt =====
-- What DisplayBuffer of src/tfr/pager.py puts on screen.
use Prim.Native.Nat.{◌/◌}
use tfr.Base.{
  ℕ, zero, suc, ◌+◌, ◌-◌, ◌≤◌, ◌≡◌, refl, sym, ap, ◌∙◌, List, [], ◌∷◌, ◌++◌, arith, leb, ◌==◌,
  length, length-append, length-drop, length-take, length-replicate, drop, take, take-all, ==_iff,
  drop_eq, Bool-cases, inl, inr, min, max, replicate,
}
use tfr.Pager
use tfr.Pager.Reading.{visible_range_bounds}
use tfr.Display.{
  DisplayBuffer, all_rows, slice, screen_start, visible_bounds, visible_rows, padded_visible_rows,
  clear_screen, restore_scrollback, last_rows,
}
use tfr.Display.Invariant.{IsValid, all_rows-append, clear_screen-IsValid}

take-append-drop {ℓ} : {A : Type ℓ} (n : ℕ) (xs : List A) → take n xs ++ drop n xs ≡ xs
take-append-drop zero xs = refl
take-append-drop (suc n) [] = refl
take-append-drop (suc n) (x ∷ xs) = rw (take-append-drop n xs)

module _ {T S R : Type 0} (b : DisplayBuffer T S R) (v : IsValid b) where
  -- Whichever of the two sums the code takes, it is the number of rows before the screen's first
  -- entry.
  screen_start_lem : screen_start b ≡ length (all_rows (take b.screen_start_entry b.entries))
  unfolding screen_start
  screen_start_lem = elim (Bool-cases (leb b.screen_start_entry (length b.entries / 2))) [
    | inl e ↦ rw e
    | inr e ↦ rw e (
        omega (
          arith,
          ap length v.loose.rows_match,
          ap (λ l. length (all_rows l)) (take-append-drop b.screen_start_entry b.entries),
          ap length (
              all_rows-append (take b.screen_start_entry b.entries)
                (drop b.screen_start_entry b.entries)),
          length-append (all_rows (take b.screen_start_entry b.entries))
              (all_rows (drop b.screen_start_entry b.entries)),
        ))
  ]

  length-visible_rows : length (visible_rows b) ≤ b.pager.height
  unfolding visible_rows slice visible_bounds
  length-visible_rows = ground (
    arith,
    visible_range_bounds b.pager v.loose.placed,
    length-take ((visible_bounds b).1 - (visible_bounds b).0) (drop (visible_bounds b).0 b.rows),
  )

  -- The padded screen has exactly as many rows as the pager is high: blank rows, and then the visible
  -- rows.
  padded_visible_rows_lem :
      (blank : R)
      → (length (padded_visible_rows blank b) ≡ b.pager.height)
        × (padded_visible_rows blank b
            ≡ replicate (b.pager.height - length (visible_rows b)) blank ++ visible_rows b)
  unfolding padded_visible_rows
  padded_visible_rows_lem blank =
      let short = length-visible_rows in
      elim (Bool-cases (b.pager.height - length (visible_rows b) == 0)) [
        | inl e ↦ rw e (
          ground arith,
          ap (λ n. replicate n blank ++ visible_rows b)
              (sym ((==_iff (b.pager.height - length (visible_rows b)) 0).0 e)),
        )
        | inr e ↦ rw e (
          omega (
            arith,
            length-append (replicate (b.pager.height - length (visible_rows b)) blank)
                (visible_rows b),
            length-replicate (b.pager.height - length (visible_rows b)) blank,
          ),
          refl,
        )
      ]

module _ {T S R : Type 0} (b : DisplayBuffer T S R) (v : IsValid b) where
  cleared_start : screen_start (clear_screen b) ≡ length b.rows
  unfolding clear_screen
  cleared_start =
      screen_start_lem (clear_screen b) (clear_screen-IsValid b v)
      ∙ ap (λ l. length (all_rows l)) (take-all (length b.entries) b.entries (omega arith))
      ∙ ap length (sym v.loose.rows_match)

  restored_start : screen_start (restore_scrollback (clear_screen b)) ≡ 0
  unfolding screen_start restore_scrollback
  restored_start = ground arith

  cleared_bounds : visible_bounds (clear_screen b) ≡ (
    max (b.pager.total_rows - b.pager.height) (screen_start (clear_screen b)),
    min b.pager.total_rows (b.pager.total_rows - b.pager.height + b.pager.height),
  )
  unfolding visible_bounds clear_screen Pager.visible_range Pager.jump_to_end Pager.is_scrolled
  cleared_bounds = refl

  restored_bounds : visible_bounds (restore_scrollback (clear_screen b)) ≡ (
    max (b.pager.total_rows - b.pager.height) (screen_start (restore_scrollback (clear_screen b))),
    min b.pager.total_rows (b.pager.total_rows - b.pager.height + b.pager.height),
  )
  unfolding visible_bounds clear_screen restore_scrollback Pager.visible_range Pager.jump_to_end
      Pager.is_scrolled
  restored_bounds = refl

  slice-none : (start end : ℕ) (rows : List R) → end ≤ start → slice start end rows ≡ []
  unfolding slice
  slice-none start end rows h =
      ap (λ n. take n (drop start rows)) (let e : end - start ≡ 0 = omega arith in e)

  slice-last :
      (start end : ℕ) (rows : List R)
      → start ≡ length rows - b.pager.height
      → end ≡ length rows
      → slice start end rows ≡ last_rows b.pager.height rows
  unfolding slice last_rows
  slice-last start end rows p q =
      take-all (end - start) (drop start rows) (omega (arith, length-drop start rows))
      ∙ drop_eq start (length rows - b.pager.height) rows p

  -- After a clear nothing is visible, and restoring the scrollback brings back the last screenful of
  -- the buffer.
  clear_screen-visible_rows :
      (visible_rows (clear_screen b) ≡ [])
      × (visible_rows (restore_scrollback (clear_screen b)) ≡ last_rows b.pager.height b.rows)
  unfolding visible_rows clear_screen restore_scrollback
  clear_screen-visible_rows = (
    rw (cleared_bounds, cleared_start)
        (slice-none (max (b.pager.total_rows - b.pager.height) (length b.rows))
          (min b.pager.total_rows (b.pager.total_rows - b.pager.height + b.pager.height)) b.rows
          (omega (arith, v.loose.counted))),
    rw (restored_bounds, restored_start)
        (slice-last (max (b.pager.total_rows - b.pager.height) 0)
          (min b.pager.total_rows (b.pager.total_rows - b.pager.height + b.pager.height)) b.rows
          (omega (arith, v.loose.counted)) (omega (arith, v.loose.counted))),
  )
