-- ===== src/Display/Invariant.antt =====
-- What every operation of DisplayBuffer, src/tfr/pager.py, keeps.
use tfr.Base.{
  ℕ, suc, ◌-◌, ◌≤◌, ◌<◌, ◌≡◌, refl, sym, ap, ◌∙◌, Bool, false, List, [], ◌∷◌, ◌++◌, map,
  append_assoc, append-nil, arith, ◌==◌, if◌then◌else◌, ok, length, length-append, length-drop,
  drop, All, All-append, Bool-cases, inl, inr,
}
use tfr.Pager
use tfr.Pager.Invariant
use tfr.Pager.Totals.{
  total_rows-jump_to_end, fresh-IsValid, total_rows-grow, total_rows-drop_rows,
  total_rows-set_total,
}
use tfr.Display.{
  DisplayBuffer, Entry, Wrapping, all_rows, drop_entries, trim_rows, append, change_width,
  rewrapped, wrapped, clear_screen, restore_scrollback,
}
use tfr.Display.Trimming.{
  IsAligned, drop_entries-rows, drop_entries-IsAligned, drop_entries-length, cut_first-rows,
}

module _ {T S R : Type 0} where
  -- The rows are those of the entries, in order, the pager counts them, the entries know where each
  -- of their rows starts, and the cleared part is a part of the entries.
  pub record IsLoose (b : DisplayBuffer T S R) : Type 0 where
    pub rows_match : b.rows ≡ all_rows b.entries
    pub counted : b.pager.total_rows ≡ length b.rows
    pub placed : Invariant.IsValid b.pager
    pub aligned : All IsAligned b.entries
    pub screen : b.screen_start_entry ≤ length b.entries

  -- And there are at most max_rows of them.
  pub record IsValid (b : DisplayBuffer T S R) : Type 0 where
    pub loose : IsLoose b
    pub bounded : length b.rows ≤ b.max_rows

  abbrev pager_after : DisplayBuffer T S R → ℕ → Pager.PagerState
  pager_after b n = if n == 0 then b.pager else Pager.drop_rows b.pager n

  pager_after-total_rows :
      (b : DisplayBuffer T S R) (n : ℕ) → (pager_after b n).total_rows ≡ b.pager.total_rows - n
  pager_after-total_rows b n = elim (Bool-cases (n == 0)) [
    | inl e ↦ rw e (ground arith)
    | inr e ↦ rw e (total_rows-drop_rows b.pager n)
  ]

  pager_after-IsValid :
      (b : DisplayBuffer T S R) (n : ℕ)
      → Invariant.IsValid b.pager
      → Invariant.IsValid (pager_after b n)
  pager_after-IsValid b n v = elim (Bool-cases (n == 0)) [
    | inl e ↦ rw e v
    | inr e ↦ rw e (Invariant.drop-IsValid b.pager n v)
  ]

  -- Trimming succeeds and leaves the last max_rows rows.
  pub trim_rows_lem :
      (b : DisplayBuffer T S R)
      → IsLoose b
      → (c : DisplayBuffer T S R) × (trim_rows b ≡ ok c)
        × IsValid c
        × (c.rows ≡ drop (length b.rows - b.max_rows) b.rows)
        × (c.max_rows ≡ b.max_rows)
  unfolding trim_rows
  trim_rows_lem b v =
      let n = length b.rows - b.max_rows in
      let (left, fits) = drop_entries-rows n b.entries (omega (arith, ap length v.rows_match)) in
      let (kept, done, rows, aligned, same) =
        cut_first-rows (drop_entries n b.entries).1 (drop_entries n b.entries).2 fits
          (drop_entries-IsAligned n b.entries v.aligned) in
      (
        record b {
          entries = kept;
          screen_start_entry = b.screen_start_entry - (drop_entries n b.entries).0;
          rows = drop n b.rows;
          pager = pager_after b n;
        },
        rw done,
        record {
          loose = record {
            rows_match = ap (drop n) v.rows_match ∙ left ∙ sym rows;
            counted =
                pager_after-total_rows b n ∙ ap (λ k. k - n) v.counted ∙ sym (length-drop n b.rows);
            placed = pager_after-IsValid b n v.placed;
            aligned = aligned;
            screen = omega (arith, drop_entries-length n b.entries, v.screen);
          };
          bounded = omega (arith, length-drop n b.rows);
        },
        refl,
        refl,
      )

  pub all_rows-append :
      (xs ys : List (Entry T S R)) → all_rows (xs ++ ys) ≡ all_rows xs ++ all_rows ys
  all_rows-append [] ys = refl
  all_rows-append (e ∷ xs) ys = rw (all_rows-append xs ys, append_assoc)

  pub clear_screen-IsValid : (b : DisplayBuffer T S R) → IsValid b → IsValid (clear_screen b)
  unfolding clear_screen
  clear_screen-IsValid b v = record {
    loose = record {
      rows_match = v.loose.rows_match;
      counted = total_rows-jump_to_end b.pager ∙ v.loose.counted;
      placed = fresh-IsValid b.pager v.loose.placed;
      aligned = v.loose.aligned;
      screen = omega arith;
    };
    bounded = v.bounded;
  }

  pub restore_scrollback-IsValid :
      (b : DisplayBuffer T S R) → IsValid b → IsValid (restore_scrollback b)
  unfolding restore_scrollback
  restore_scrollback-IsValid b v = record {
    loose = record {
      rows_match = v.loose.rows_match;
      counted = v.loose.counted;
      placed = v.loose.placed;
      aligned = v.loose.aligned;
      screen = omega arith;
    };
    bounded = v.bounded;
  }

  -- The screen's own calls of the pager change nothing else.
  pub pager-IsValid :
      (b : DisplayBuffer T S R) (p : Pager.PagerState)
      → Invariant.IsValid p
      → p.total_rows ≡ b.pager.total_rows
      → IsValid b
      → IsValid (record b { pager = p })
  pager-IsValid b p h e v = record {
    loose = record {
      rows_match = v.loose.rows_match;
      counted = e ∙ v.loose.counted;
      placed = h;
      aligned = v.loose.aligned;
      screen = v.loose.screen;
    };
    bounded = v.bounded;
  }

  pub grown-IsLoose :
      (b : DisplayBuffer T S R) (e : Entry T S R)
      → IsAligned e
      → IsLoose b
      → IsLoose (record b {
        entries = b.entries ++ e ∷ [];
        rows = b.rows ++ e.rows;
        pager = Pager.grow b.pager (length e.rows);
      })
  grown-IsLoose b e a v = record {
    rows_match =
        ap (λ rows. rows ++ e.rows) v.rows_match
        ∙ ap (◌++◌ (all_rows b.entries)) (sym (append-nil e.rows))
        ∙ sym (all_rows-append b.entries (e ∷ []));
    counted =
        total_rows-grow b.pager (length e.rows)
        ∙ omega (arith, v.counted, length-append b.rows e.rows);
    placed = Invariant.grow-IsValid b.pager (length e.rows) v.placed;
    aligned = All-append IsAligned b.entries (e ∷ []) v.aligned (a, tt);
    screen = omega (arith, v.screen, length-append b.entries (e ∷ []));
  }

module _ {T S R : Type 0} (w : Wrapping T S R) where
  rewrapped-IsAligned :
      (width : ℕ) (entries : List (Entry T S R)) → All IsAligned (map (rewrapped w width) entries)
  rewrapped-IsAligned width [] = tt
  rewrapped-IsAligned width (e ∷ entries) =
      (w.as_many_starts e.text e.styling e.urls width, rewrapped-IsAligned width entries)

  length-rewrapped :
      (width : ℕ) (entries : List (Entry T S R))
      → length (map (rewrapped w width) entries) ≡ length entries
  length-rewrapped width [] = refl
  length-rewrapped width (e ∷ entries) = ap suc (length-rewrapped width entries)

  -- An append at a positive width succeeds, keeps the buffer valid, and its rows are the last
  -- max_rows of the old rows and the new entry's.
  pub append_lem :
      (b : DisplayBuffer T S R) (text : T) (styling : S) (recallable : Bool)
      → IsValid b
      → 0 < b.width
      → (c : DisplayBuffer T S R) × (append w b text styling recallable ≡ ok c)
        × IsValid c
        × (let rows = b.rows ++ (w.wrap text styling (w.find_urls text) b.width).0 in
            c.rows ≡ drop (length rows - b.max_rows) rows)
        × (c.max_rows ≡ b.max_rows)
  unfolding append
  append_lem b text styling recallable v h =
      let e = wrapped w text styling recallable b.width in
      let (c, done, valid, rows, same) =
        trim_rows_lem _
          (grown-IsLoose b e (w.as_many_starts text styling (w.find_urls text) b.width) v.loose) in
      (c, rw (positive b.width h) done, valid, rows, same)
    where
      positive : (n : ℕ) → 0 < n → n == 0 ≡ false
      positive n p = ground arith

  pub change_width_lem :
      (scaled : ℕ → ℕ → ℕ → ℕ) (b : DisplayBuffer T S R) (width : ℕ)
      → IsValid b
      → (c : DisplayBuffer T S R) × (change_width w scaled b width ≡ ok c) × IsValid c
  unfolding change_width
  change_width_lem scaled b width v =
      let entries = map (rewrapped w width) b.entries in
      let (c, done, valid, rows, same) =
        trim_rows_lem
          (record b {
            width = width;
            entries = entries;
            rows = all_rows entries;
            pager = Pager.set_total scaled b.pager (length (all_rows entries));
          })
          (record {
            rows_match = refl;
            counted = total_rows-set_total scaled b.pager (length (all_rows entries));
            placed =
                Invariant.set_total-IsValid scaled b.pager (length (all_rows entries))
                  v.loose.placed;
            aligned = rewrapped-IsAligned width b.entries;
            screen = omega (arith, v.loose.screen, length-rewrapped width b.entries);
          }) in
      (c, done, valid)
