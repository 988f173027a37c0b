-- ===== src/Framer/Lossless.antt =====
-- TextFramer.feed of src/tfr/sessions.py loses, adds and reorders nothing, and what its frames are.
use tfr.Base.{
  ℕ, ◌≡◌, sym, ap, ◌∙◌, Bool, true, false, List, [], ◌∷◌, ◌++◌, append_assoc, append-nil, concat,
  ◌==◌, Bool-cases, inl, inr, ◌⊎◌, ==_iff,
}
use tfr.Framer.{
  TextFramer, Cut, emit, line_feed, carriage_return, is_full, last_round, round, flushed, kept,
  scan, feed,
}

-- All the text of a cut, in order.
abbrev pub joined : Cut → List ℕ
joined (frames, rest) = concat frames ++ rest

joined-emit : (frame : List ℕ) (cut : Cut) → joined (emit frame cut) ≡ frame ++ joined cut
joined-emit frame (frames, rest) = append_assoc frame (concat frames) rest

joined-flushed :
    (full : Bool) (current rest : List ℕ) (cut : Cut)
    → joined cut ≡ kept full current ++ rest
    → joined (flushed full current cut) ≡ current ++ rest
joined-flushed true current rest cut h = joined-emit current cut ∙ ap (◌++◌ current) h
joined-flushed false current rest cut h = h

-- The cases of a round, with what the tests say of the characters.
pub round_cases {ℓ} :
    (P : Cut → Type ℓ) (c d : ℕ) (next_line after_both go_on : Cut)
    → ((c ≡ line_feed) ⊎ (c ≡ carriage_return) → P next_line)
    → (c ≡ carriage_return → d ≡ line_feed → P after_both)
    → (c == line_feed ≡ false → c == carriage_return ≡ false → P go_on)
    → P (round c d next_line after_both go_on)
unfolding round
round_cases P c d n a g pn pa pg = elim (Bool-cases (c == line_feed)) [
  | inl e ↦ rw e (pn (inl ((==_iff c line_feed).0 e)))
  | inr e ↦ elim (Bool-cases (c == carriage_return)) [
    | inl r ↦ elim (Bool-cases (d == line_feed)) [
      | inl f ↦ rw (e, r, f) (pa ((==_iff c carriage_return).0 r) ((==_iff d line_feed).0 f))
      | inr f ↦ rw (e, r, f) (pn (inr ((==_iff c carriage_return).0 r)))
    ]
    | inr r ↦ rw (e, r) (pg e r)
  ]
]

joined-last_round : (c : ℕ) (line : List ℕ) → joined (last_round c line) ≡ line
unfolding last_round
joined-last_round c line = elim (Bool-cases (c == line_feed)) [
  | inl e ↦ rw e (simp append-nil)
  | inr e ↦ rw e
]

joined-scan :
    (maximum : ℕ) (current text : List ℕ) → joined (scan maximum current text) ≡ current ++ text
unfolding scan
joined-scan maximum current [] = sym (append-nil current)
joined-scan maximum current (c ∷ []) =
    joined-flushed (is_full maximum current) current (c ∷ []) _ (joined-last_round c _)
joined-scan maximum current (c ∷ d ∷ rest) =
    let line = kept (is_full maximum current) current in
    joined-flushed (is_full maximum current) current (c ∷ d ∷ rest) _ (
      round_cases (λ cut. joined cut ≡ line ++ c ∷ d ∷ rest) c d _ _ _
        (λ _.
          joined-emit (line ++ c ∷ []) (scan maximum [] (d ∷ rest))
          ∙ rw (joined-scan maximum [] (d ∷ rest), append_assoc))
        (λ _ _.
          joined-emit (line ++ c ∷ d ∷ []) (scan maximum [] rest)
          ∙ rw (joined-scan maximum [] rest, append_assoc))
        (λ _ _. rw (joined-scan maximum (line ++ c ∷ []) (d ∷ rest), append_assoc)))

-- The frames of a feed, in order, and what is pending after it are together what was pending before
-- and the new text.
pub feed_lossless :
    (f : TextFramer) (text : List ℕ)
    → concat (feed f text).1 ++ (feed f text).0.pending ≡ f.pending ++ text
unfolding feed
feed_lossless f text = joined-scan f.maximum_frame_characters [] (f.pending ++ text)
