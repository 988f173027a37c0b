-- ===== src/Display/Runs.antt =====
-- Histories of DisplayBuffer, src/tfr/pager.py.
use tfr.Base.{
  ℕ, zero, suc, ◌<◌, ◌≡◌, refl, ℤ, pos, negsuc, Bool, false, Option, some, List, [], ◌∷◌, arith,
  ◌==◌, Result, ok, err, Bool-cases, inl, inr,
}
use mathlib.Core.Path.{subst}
use tfr.Pager
use tfr.Pager.Invariant
use tfr.Pager.Totals.{
  total_rows-set_height, total_rows-create, total_rows-advance, total_rows-scroll_rows,
}
use tfr.Display.{
  DisplayBuffer, Wrapping, fresh, opened, append, create, resize, Call, appends, resizes, scrolls,
  clears, restores, advances, perform, after, run,
}
use tfr.Display.Invariant.{
  IsValid, append_lem, change_width_lem, clear_screen-IsValid, restore_scrollback-IsValid,
  pager-IsValid,
}

module _ {T S R : Type 0} (w : Wrapping T S R) (scaled : ℕ → ℕ → ℕ → ℕ) where
  sized-IsValid :
      (b : DisplayBuffer T S R) (height : ℕ)
      → 0 < height
      → IsValid b
      → IsValid (record b { pager = Pager.set_height b.pager height })
  sized-IsValid b height h v =
      pager-IsValid b (Pager.set_height b.pager height)
        (Invariant.set_height-IsValid b.pager height h v.loose.placed)
        (total_rows-set_height b.pager height) v

  resize-IsValid :
      (b : DisplayBuffer T S R) (width height : ℕ)
      → IsValid b
      → (c : DisplayBuffer T S R) × (resize w scaled b (pos (suc width)) (pos (suc height)) ≡ ok c)
        × IsValid c
  unfolding resize
  resize-IsValid b width height v = elim (Bool-cases (suc width == b.width)) [
    | inl e ↦ (_, rw e, sized-IsValid b (suc height) (omega arith) v)
    | inr e ↦
        (let (c, done, valid) = change_width_lem w scaled b (suc width) v in
          (_, rw (e, done), sized-IsValid c (suc height) (omega arith) valid))
  ]

  -- A call after which there is a buffer to go on with, and a valid one.
  abbrev GoesOn : Option (DisplayBuffer T S R) → Type 0
  GoesOn o = (c : DisplayBuffer T S R) × (o ≡ some c) × IsValid c

  append-IsValid :
      (b : DisplayBuffer T S R) (text : T) (styling : S) (recallable : Bool)
      → IsValid b
      → GoesOn (after w scaled b (append w b text styling recallable))
  append-IsValid b text styling recallable v = elim (Bool-cases (b.width == 0)) [
    | inl e ↦ (b, unfold append in rw e refl, v)
    | inr e ↦
        (let (c, done, valid, rows, same) =
            append_lem w b text styling recallable v (not_zero b.width e) in
          (c, rw done refl, valid))
  ]
    where
      not_zero : (n : ℕ) → n == 0 ≡ false → 0 < n
      not_zero n h = ground arith

  perform-IsValid :
      (b : DisplayBuffer T S R) (call : Call T S)
      → IsValid b
      → GoesOn (after w scaled b (perform w scaled b call))
  unfolding perform
  perform-IsValid b (appends text styling recallable) v = append-IsValid b text styling recallable v
  perform-IsValid b (resizes (pos (suc width)) (pos (suc height))) v =
      (let (c, done, valid) = resize-IsValid b width height v in (c, rw done refl, valid))
  perform-IsValid b (resizes (pos (suc width)) (pos zero)) v = (b, unfold resize in refl, v)
  perform-IsValid b (resizes (pos (suc width)) (negsuc n)) v = (b, unfold resize in refl, v)
  perform-IsValid b (resizes (pos zero) height) v = (b, unfold resize in refl, v)
  perform-IsValid b (resizes (negsuc n) height) v = (b, unfold resize in refl, v)
  perform-IsValid b (scrolls amount) v = (
    _,
    refl,
    pager-IsValid b (Pager.scroll_rows b.pager amount)
        (Invariant.scroll-IsValid b.pager amount v.loose.placed)
        (total_rows-scroll_rows b.pager amount) v,
  )
  perform-IsValid b clears v = (_, refl, clear_screen-IsValid b v)
  perform-IsValid b restores v = (_, refl, restore_scrollback-IsValid b v)
  perform-IsValid b advances v = (
    _,
    refl,
    pager-IsValid b (Pager.advance b.pager) (Invariant.advance-IsValid b.pager v.loose.placed)
        (total_rows-advance b.pager) v,
  )

  keeps-IsValid :
      (b : DisplayBuffer T S R) (calls : List (Call T S))
      → IsValid b
      → GoesOn (run w scaled b calls)
  unfolding run
  keeps-IsValid b [] v = (b, refl, v)
  keeps-IsValid b (call ∷ calls) v =
      let (c, done, valid) = perform-IsValid b call v in
      let (d, ran, kept) = keeps-IsValid c calls valid in (d, rw (run, done) ran, kept)

  create-IsValid :
      (max_rows : ℤ) (width : ℕ) (height overlap : ℤ) (enabled : Bool) (b : DisplayBuffer T S R)
      → create max_rows width height overlap enabled ≡ ok b
      → IsValid b
  unfolding create
  create-IsValid (pos (suc m)) width height overlap enabled b e =
      go (Pager.create height overlap enabled) refl e
    where
      go :
          (r : Result Pager.Error Pager.PagerState)
          → Pager.create height overlap enabled ≡ r
          → opened m width r ≡ ok b
          → IsValid b
      go (ok p) q f = subst IsValid {x = fresh m width p} {y = b} (cc) (record {
        loose = record {
          rows_match = refl;
          counted = total_rows-create height overlap enabled p q;
          placed = Invariant.create-IsValid height overlap enabled p q;
          aligned = tt;
          screen = omega arith;
        };
        bounded = omega arith;
      })
      go (err x) q f = cc
  create-IsValid (pos zero) width height overlap enabled b e = cc
  create-IsValid (negsuc n) width height overlap enabled b e = cc

  -- From a constructor that succeeds, and whatever calls follow, refused ones included, no call raises
  -- an IndexError, and then the rows of the buffer are those of its entries in order, at most max_rows
  -- of them, the pager counts them and is well placed, each entry knows where as many rows start as it
  -- has, and the cleared entries are entries of the buffer.
  pub history-IsValid :
      (max_rows : ℤ) (width : ℕ) (height overlap : ℤ) (enabled : Bool) (b : DisplayBuffer T S R)
      (calls : List (Call T S))
      → create max_rows width height overlap enabled ≡ ok b
      → (c : DisplayBuffer T S R) × (run w scaled b calls ≡ some c) × IsValid c
  history-IsValid max_rows width height overlap enabled b calls e =
      keeps-IsValid b calls (create-IsValid max_rows width height overlap enabled b e)
