-- ===== src/Display/Trimming.antt =====
-- DisplayBuffer._trim_rows of src/tfr/pager.py: what is dropped and what stays.
use tfr.Base.{
  ℕ, zero, suc, ◌+◌, ◌-◌, ◌≤◌, ◌<◌, ◌≡◌, refl, sym, ap, ◌∙◌, List, [], ◌∷◌, arith, leb, ok, length,
  length-append, length-drop, drop, drop-append, drop-append_left, All, Bool-cases, inl, inr,
}
use tfr.Display.{Entry, all_rows, drop_entries, cut_first}

module _ {T S R : Type 0} where
  -- As many offsets as rows.
  abbrev pub IsAligned : Entry T S R → Type 0
  IsAligned e = length e.row_starts ≡ length e.rows

  abbrev pub FitsFirst : ℕ → List (Entry T S R) → Type 0
  FitsFirst n [] = n ≡ 0
  FitsFirst n (e ∷ entries) = n < length e.rows

  -- What the loop leaves: the rows of the entries that it drops are gone, and fewer rows than the
  -- next entry has are still to go.
  pub drop_entries-rows :
      (n : ℕ) (entries : List (Entry T S R))
      → n ≤ length (all_rows entries)
      → (drop n (all_rows entries)
          ≡ drop (drop_entries n entries).1 (all_rows (drop_entries n entries).2))
        × FitsFirst (drop_entries n entries).1 (drop_entries n entries).2
  unfolding drop_entries
  drop_entries-rows n [] h = (refl, omega arith)
  drop_entries-rows n (e ∷ entries) h = elim (Bool-cases (leb (length e.rows) n)) [
    | inl y ↦
        (let (rows, fits) =
            drop_entries-rows (n - length e.rows) entries
              (omega (arith, length-append e.rows (all_rows entries))) in
          rw y (drop-append e.rows (all_rows entries) n (ground arith) ∙ rows, fits))
    | inr y ↦ rw y (refl, ground arith)
  ]

  pub drop_entries-IsAligned :
      (n : ℕ) (entries : List (Entry T S R))
      → All IsAligned entries
      → All IsAligned (drop_entries n entries).2
  unfolding drop_entries
  drop_entries-IsAligned n [] h = tt
  drop_entries-IsAligned n (e ∷ entries) h = elim (Bool-cases (leb (length e.rows) n)) [
    | inl y ↦ rw y (drop_entries-IsAligned (n - length e.rows) entries h.1)
    | inr y ↦ rw y h
  ]

  pub drop_entries-length :
      (n : ℕ) (entries : List (Entry T S R))
      → (drop_entries n entries).0 + length (drop_entries n entries).2 ≡ length entries
  unfolding drop_entries
  drop_entries-length n [] = omega arith
  drop_entries-length n (e ∷ entries) = elim (Bool-cases (leb (length e.rows) n)) [
    | inl y ↦ rw y (omega (arith, drop_entries-length (n - length e.rows) entries))
    | inr y ↦ rw y (omega arith)
  ]

  -- Cutting the first entry succeeds, and drops the rows.
  pub cut_first-rows :
      (n : ℕ) (entries : List (Entry T S R))
      → FitsFirst n entries
      → All IsAligned entries
      → (kept : List (Entry T S R)) × (cut_first n entries ≡ ok kept)
        × (all_rows kept ≡ drop n (all_rows entries))
        × All IsAligned kept
        × (length kept ≡ length entries)
  unfolding cut_first
  cut_first-rows zero entries h a = (entries, refl, refl, a, refl)
  cut_first-rows (suc n) [] h a = absurd (omega arith)
  cut_first-rows (suc n) (e ∷ entries) h a = (
    _,
    refl,
    sym (drop-append_left e.rows (all_rows entries) (suc n) (omega arith)),
    (
      length-drop (suc n) e.row_starts ∙ ap (λ k. k - suc n) a.0 ∙ sym (length-drop (suc n) e.rows),
      a.1,
    ),
    refl,
  )
