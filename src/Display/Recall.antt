-- ===== src/Display/Recall.antt =====
-- DisplayBuffer.recent_rows of src/tfr/pager.py against what it promises.
use mathlib.Core.Path.{ap₂}
use mathlib.Core.List.{reverse, reverse-cons}
use tfr.Base.{
  ℕ, suc, ◌-◌, ◌≤◌, ◌≡◌, refl, sym, ap, ◌∙◌, pos, List, [], ◌∷◌, ◌++◌, append_assoc, append-nil,
  arith, leb, ◌==◌, if◌then◌else◌, ok, length, length-append, length-drop, drop-all, drop_eq,
  drop-append, drop-append_left, Bool-cases, inl, inr, min,
}
use tfr.Display.{DisplayBuffer, Entry, last_rows, recall, recent_rows}

module _ {R : Type 0} where
  last_rows-all : (xs : List R) (n : ℕ) → length xs ≤ n → last_rows n xs ≡ xs
  unfolding last_rows
  last_rows-all xs n h = drop_eq (length xs - n) 0 xs (omega arith)

  last_rows-none : (xs : List R) (n : ℕ) → n ≡ 0 → last_rows n xs ≡ []
  unfolding last_rows
  last_rows-none xs n h = drop-all xs (length xs - n) (omega arith)

  length-last_rows : (xs : List R) (n : ℕ) → length (last_rows n xs) ≡ min n (length xs)
  unfolding last_rows
  length-last_rows xs n = omega (arith, length-drop (length xs - n) xs)

  rest_eq : (n : ℕ) (rows : List R) → n - length (last_rows n rows) ≡ n - length rows
  rest_eq n rows = ground (arith, length-last_rows rows n)

  last_rows-append :
      (xs ys : List R) (n : ℕ)
      → last_rows n (xs ++ ys) ≡ last_rows (n - length ys) xs ++ last_rows n ys
  unfolding last_rows
  last_rows-append xs ys n = elim (Bool-cases (leb (length ys) n)) [
    | inl e ↦
        drop-append_left xs ys (length (xs ++ ys) - n) (ground (arith, length-append xs ys))
        ∙ ap₂ ◌++◌
            (drop_eq (length (xs ++ ys) - n) (length xs - (n - length ys)) xs
              (ground (arith, length-append xs ys)))
            (drop_eq 0 (length ys - n) ys (ground arith))
    | inr e ↦
        drop-append xs ys (length (xs ++ ys) - n) (ground (arith, length-append xs ys))
        ∙ ap₂ ◌++◌ (sym (drop-all xs (length xs - (n - length ys)) (ground arith))) (
            drop_eq (length (xs ++ ys) - n - length xs) (length ys - n) ys
              (ground (arith, length-append xs ys)))
  ]

module _ {T S R : Type 0} where
  -- The rows that may be recalled, in order.
  abbrev pub recallable_rows : List (Entry T S R) → List R
  recallable_rows [] = []
  recallable_rows (e ∷ entries) = (if e.recallable then e.rows else []) ++ recallable_rows entries

  -- The same over the entries from the last one back.
  abbrev back_rows : List (Entry T S R) → List R
  back_rows [] = []
  back_rows (e ∷ entries) = back_rows entries ++ (if e.recallable then e.rows else [])

  recall-back_rows :
      (n : ℕ) (selected : List R) (entries : List (Entry T S R))
      → recall n selected entries ≡ last_rows n (back_rows entries) ++ selected
  unfolding recall
  recall-back_rows n selected [] = ap (λ l. l ++ selected) (sym (last_rows-all [] n (omega arith)))
  recall-back_rows n selected (e ∷ entries) = elim (Bool-cases e.recallable) [
    | inl r ↦ elim (Bool-cases (n - length (last_rows n e.rows) == 0)) [
      | inl z ↦
          rw (r, z)
            (ap (λ l. l ++ selected)
              (ap (λ l. l ++ last_rows n e.rows)
                  (sym (
                    last_rows-none (back_rows entries) (n - length e.rows)
                      (ground (arith, length-last_rows e.rows n))))
                ∙ sym (last_rows-append (back_rows entries) e.rows n)))
      | inr z ↦
          rw (r, z)
            (recall-back_rows (n - length (last_rows n e.rows)) (last_rows n e.rows ++ selected)
                entries
              ∙ ap (λ k. last_rows k (back_rows entries) ++ (last_rows n e.rows ++ selected))
                  (rest_eq n e.rows)
              ∙ sym (
                  append_assoc (last_rows (n - length e.rows) (back_rows entries))
                    (last_rows n e.rows) selected)
              ∙ ap (λ l. l ++ selected) (sym (last_rows-append (back_rows entries) e.rows n)))
    ]
    | inr r ↦ rw (r, append-nil) (recall-back_rows n selected entries)
  ]

  back_rows-append :
      (xs : List (Entry T S R)) (e : Entry T S R)
      → back_rows (xs ++ e ∷ []) ≡ (if e.recallable then e.rows else []) ++ back_rows xs
  back_rows-append [] e = sym (append-nil _)
  back_rows-append (x ∷ xs) e = rw (back_rows-append xs e, append_assoc)

  back_rows-reverse :
      (entries : List (Entry T S R)) → back_rows (reverse entries) ≡ recallable_rows entries
  back_rows-reverse [] = refl
  back_rows-reverse (e ∷ entries) =
      ap back_rows (reverse-cons e entries)
      ∙ back_rows-append (reverse entries) e
      ∙ ap (◌++◌ (if e.recallable then e.rows else [])) (back_rows-reverse entries)

  -- Recalling a positive number of rows returns the last ones, in order, of all the rows that may be
  -- recalled; all of them if there are fewer.
  pub recent_rows_lem :
      (b : DisplayBuffer T S R) (n : ℕ)
      → recent_rows b (pos (suc n)) ≡ ok (last_rows (suc n) (recallable_rows b.entries))
  unfolding recent_rows
  recent_rows_lem b n = ap ok (
      recall-back_rows (suc n) [] (reverse b.entries)
      ∙ append-nil _
      ∙ ap (last_rows (suc n)) (back_rows-reverse b.entries))
