-- ===== src/Framer/Chunks.antt =====
-- TextFramer.feed of src/tfr/sessions.py does not depend on how the text is split into calls.
use tfr.Base.{
  ℕ, ◌+◌, ◌≤◌, ◌<◌, ◌≡◌, refl, sym, ap, ◌∙◌, Bool, true, false, List, [], ◌∷◌, ◌++◌, append_assoc,
  append-nil, arith, length, length-append, ◌==◌, Bool-cases, inl, inr, ==_iff,
}
use tfr.Framer.{
  TextFramer, Cut, emit, line_feed, carriage_return, is_full, last_round, round, flushed, kept,
  scan, feed,
}
use tfr.Framer.Frames.{IsPlain, IsStart, kept-IsStart, longer-IsPlain}

pub not_full : (maximum : ℕ) (line : List ℕ) → length line < maximum → is_full maximum line ≡ false
unfolding is_full
not_full maximum line h = ground arith

scan-line_feed :
    (maximum : ℕ) (line xs : List ℕ)
    → length line < maximum
    → scan maximum line (line_feed ∷ xs) ≡ emit (line ++ line_feed ∷ []) (scan maximum [] xs)
unfolding scan last_round round
scan-line_feed maximum line [] h = rw (not_full maximum line h)
scan-line_feed maximum line (x ∷ xs) h = rw (not_full maximum line h)

-- A character that ends no line joins the piece.
pub scan-plain :
    (maximum c : ℕ) (line xs : List ℕ)
    → length line < maximum
    → c == line_feed ≡ false
    → c == carriage_return ≡ false
    → scan maximum line (c ∷ xs) ≡ scan maximum (line ++ c ∷ []) xs
unfolding scan last_round round
scan-plain maximum c line [] h e r = rw (not_full maximum line h, e)
scan-plain maximum c line (x ∷ xs) h e r = rw (not_full maximum line h, e, r)

-- Scanning a plain piece again leads to where it was left.
pub scan-replay :
    (maximum : ℕ) (pre line xs : List ℕ)
    → IsPlain line
    → length pre + length line ≤ maximum
    → scan maximum pre (line ++ xs) ≡ scan maximum (pre ++ line) xs
scan-replay maximum pre [] xs p h = rw append-nil
scan-replay maximum pre (c ∷ line) xs p h =
    scan-plain maximum c pre (line ++ xs) (omega arith) p.0.0 p.0.1
    ∙ scan-replay maximum (pre ++ c ∷ []) line xs p.1 (rw length-append (omega arith))
    ∙ rw append_assoc

abbrev pub prepend : List (List ℕ) → Cut → Cut
prepend frames (more, rest) = (frames ++ more, rest)

-- The next call starts from what the last one kept back.
abbrev continue : ℕ → List ℕ → Cut → Cut
continue maximum ys (frames, rest) = prepend frames (scan maximum [] (rest ++ ys))

continue-flushed :
    (maximum : ℕ) (ys : List ℕ) (full : Bool) (current : List ℕ) (cut : Cut)
    → continue maximum ys (flushed full current cut)
      ≡ flushed full current (continue maximum ys cut)
continue-flushed maximum ys true current cut = refl
continue-flushed maximum ys false current cut = refl

continue-round :
    (maximum : ℕ) (ys : List ℕ) (c d : ℕ) (n a g n' a' g' : Cut)
    → continue maximum ys n ≡ n'
    → continue maximum ys a ≡ a'
    → (c == line_feed ≡ false → c == carriage_return ≡ false → continue maximum ys g ≡ g')
    → continue maximum ys (round c d n a g) ≡ round c d n' a' g'
unfolding round
continue-round maximum ys c d n a g n' a' g' en ea eg = elim (Bool-cases (c == line_feed)) [
  | inl e ↦ rw e en
  | inr e ↦ elim (Bool-cases (c == carriage_return)) [
    | inl r ↦ elim (Bool-cases (d == line_feed)) [
      | inl f ↦ rw (e, r, f) ea
      | inr f ↦ rw (e, r, f) en
    ]
    | inr r ↦ rw (e, r) (eg e r)
  ]
]

scan-kept :
    (maximum c : ℕ) (current xs : List ℕ)
    → 0 < maximum
    → scan maximum current (c ∷ xs)
      ≡ flushed
          (is_full maximum current)
          current
          (scan maximum (kept (is_full maximum current) current) (c ∷ xs))
unfolding scan
scan-kept maximum c current [] h = elim (Bool-cases (is_full maximum current)) [
  | inl e ↦ rw (e, not_full maximum [] h)
  | inr e ↦ rw e (rw e)
]
scan-kept maximum c current (x ∷ xs) h = elim (Bool-cases (is_full maximum current)) [
  | inl e ↦ rw (e, not_full maximum [] h)
  | inr e ↦ rw e (rw e)
]

continue-last_round :
    (maximum c : ℕ) (line ys : List ℕ)
    → IsStart maximum line
    → continue maximum ys (last_round c (line ++ c ∷ [])) ≡ scan maximum line (c ∷ ys)
unfolding last_round
continue-last_round maximum c line ys (p, h) = elim (Bool-cases (c == line_feed)) [
  | inl e ↦ rw e (rw ((==_iff c line_feed).0 e) (sym (scan-line_feed maximum line ys h)))
  | inr e ↦ rw (e, append_assoc) (scan-replay maximum [] line (c ∷ ys) p (omega arith))
]

scan-continue :
    (maximum : ℕ) (current xs ys : List ℕ)
    → 0 < maximum
    → IsPlain current
    → length current ≤ maximum
    → continue maximum ys (scan maximum current xs) ≡ scan maximum current (xs ++ ys)
unfolding scan
scan-continue maximum current [] ys h p l = scan-replay maximum [] current ys p (omega arith)
scan-continue maximum current (c ∷ []) ys h p l =
    (continue-flushed maximum ys (is_full maximum current) current _
      ∙ ap (flushed (is_full maximum current) current) (
          continue-last_round maximum c (kept (is_full maximum current) current) ys
            (kept-IsStart maximum current h p)))
    ∙ sym (scan-kept maximum c current ys h)
scan-continue maximum current (c ∷ d ∷ rest) ys h p l =
    let (q, m) = kept-IsStart maximum current h p in
    let line = kept (is_full maximum current) current in
    continue-flushed maximum ys (is_full maximum current) current _
    ∙ ap (flushed (is_full maximum current) current) (
        continue-round maximum ys c d _ _ _ _ _ _
          (ap (emit (line ++ c ∷ [])) (scan-continue maximum [] (d ∷ rest) ys h tt (omega arith)))
          (ap (emit (line ++ c ∷ d ∷ [])) (scan-continue maximum [] rest ys h tt (omega arith)))
          (λ e r.
            scan-continue maximum (line ++ c ∷ []) (d ∷ rest) ys h (longer-IsPlain line c q e r)
              (rw length-append (omega arith))))

-- Feeding two texts in turn gives the frames of the joined text, in order, and leaves the same
-- pending text, wherever the cut is: inside a line, or between the two characters of a CR LF.
pub feed_split :
    (f : TextFramer) (xs ys : List ℕ)
    → 0 < f.maximum_frame_characters
    → feed f (xs ++ ys)
      ≡ (let (f', frames) = feed f xs in let (f'', more) = feed f' ys in (f'', frames ++ more))
unfolding feed
feed_split f xs ys h = rw (← append_assoc) (
    ap {B = TextFramer × List (List ℕ)} (λ (cut : Cut). (record f { pending = cut.1 }, cut.0))
      (sym (scan-continue f.maximum_frame_characters [] (f.pending ++ xs) ys h tt (omega arith))))
