-- ===== src/Framer/Frames.antt =====
-- What a frame of TextFramer.feed, src/tfr/sessions.py, can look like.
use tfr.Base.{
  ℕ, ◌+◌, ◌≤◌, ◌<◌, ◌≡◌, refl, sym, ap, false, List, [], ◌∷◌, ◌++◌, append-nil, arith, length,
  length-append, All, All-append, ◌==◌, Bool-cases, inl, inr, ◌⊎◌, leb, ==_iff,
}
use tfr.Framer.{
  TextFramer, Cut, line_feed, carriage_return, is_full, last_round, flushed, kept, scan, feed,
}
use tfr.Framer.Lossless.{round_cases}

-- No line ending in it.
abbrev pub IsPlain : List ℕ → Type 0
IsPlain = All (λ c. (c == line_feed ≡ false) × (c == carriage_return ≡ false))

-- A line of less than the maximum with its ending, or a piece of exactly the maximum with none.
abbrev pub IsFrame : ℕ → List ℕ → Type 0
IsFrame maximum frame =
    (body : List ℕ) × (ending : List ℕ) × (frame ≡ body ++ ending)
    × IsPlain body
    × ((ending ≡ []) × (length body ≡ maximum)
        ⊎ ((ending ≡ line_feed ∷ [])
            ⊎ (ending ≡ carriage_return ∷ [])
            ⊎ (ending ≡ carriage_return ∷ line_feed ∷ []))
          × (length body < maximum))

-- What may be kept back: an unfinished line, perhaps with a carriage return at its end.
abbrev pub IsHeld : ℕ → List ℕ → Type 0
IsHeld maximum rest =
    (body : List ℕ) × (ending : List ℕ) × (rest ≡ body ++ ending)
    × IsPlain body
    × ((ending ≡ []) × (length body ≤ maximum)
        ⊎ (ending ≡ carriage_return ∷ []) × (length body < maximum))

abbrev IsCut : ℕ → Cut → Type 0
IsCut maximum (frames, rest) = All (IsFrame maximum) frames × IsHeld maximum rest

-- The piece that a round starts from, after the length test.
abbrev pub IsStart : ℕ → List ℕ → Type 0
IsStart maximum line = IsPlain line × (length line < maximum)

pub kept-IsStart :
    (maximum : ℕ) (current : List ℕ)
    → 0 < maximum
    → IsPlain current
    → IsStart maximum (kept (is_full maximum current) current)
unfolding is_full
kept-IsStart maximum current h p = elim (Bool-cases (leb maximum (length current))) [
  | inl e ↦ rw e (tt, h)
  | inr e ↦ rw e (p, ground arith)
]

flushed-IsCut :
    (maximum : ℕ) (current : List ℕ) (cut : Cut)
    → IsPlain current
    → length current ≤ maximum
    → IsCut maximum cut
    → IsCut maximum (flushed (is_full maximum current) current cut)
unfolding is_full
flushed-IsCut maximum current cut p h c = elim (Bool-cases (leb maximum (length current))) [
  | inl e ↦ rw e (((current, [], sym (append-nil current), p, inl (refl, ground arith)), c.0), c.1)
  | inr e ↦ rw e c
]

pub longer-IsPlain :
    (line : List ℕ) (c : ℕ)
    → IsPlain line
    → c == line_feed ≡ false
    → c == carriage_return ≡ false
    → IsPlain (line ++ c ∷ [])
longer-IsPlain line c p e r = All-append _ line (c ∷ []) p ((e, r), tt)

ending_char :
    (c : ℕ)
    → (c ≡ line_feed) ⊎ (c ≡ carriage_return)
    → (c ∷ [] ≡ line_feed ∷ [])
      ⊎ (c ∷ [] ≡ carriage_return ∷ [])
      ⊎ (c ∷ [] ≡ carriage_return ∷ line_feed ∷ [])
ending_char c (inl e) = inl (ap (λ x. x ∷ []) e)
ending_char c (inr e) = inr (inl (ap (λ x. x ∷ []) e))

last_round-IsCut :
    (maximum c : ℕ) (line : List ℕ)
    → IsStart maximum line
    → IsCut maximum (last_round c (line ++ c ∷ []))
unfolding last_round
last_round-IsCut maximum c line (q, m) = elim (Bool-cases (c == line_feed)) [
  | inl e ↦ rw e (
    ((line, c ∷ [], refl, q, inr (ending_char c (inl ((==_iff c line_feed).0 e)), m)), tt),
    ([], [], refl, tt, inl (refl, omega arith)),
  )
  | inr e ↦ rw e (elim (Bool-cases (c == carriage_return)) [
    | inl r ↦
        (tt, (line, c ∷ [], refl, q, inr (ap (λ x. x ∷ []) ((==_iff c carriage_return).0 r), m)))
    | inr r ↦ (
      tt,
      (
        line ++ c ∷ [],
        [],
        sym (append-nil _),
        longer-IsPlain line c q e r,
        inl (refl, rw length-append (omega arith)),
      ),
    )
  ])
]

scan-IsCut :
    (maximum : ℕ) (current text : List ℕ)
    → 0 < maximum
    → IsPlain current
    → length current ≤ maximum
    → IsCut maximum (scan maximum current text)
unfolding scan
scan-IsCut maximum current [] h p l =
    (tt, (current, [], sym (append-nil current), p, inl (refl, l)))
scan-IsCut maximum current (c ∷ []) h p l =
    flushed-IsCut maximum current _ p l
      (last_round-IsCut maximum c _ (kept-IsStart maximum current h p))
scan-IsCut maximum current (c ∷ d ∷ rest) h p l =
    let (q, m) = kept-IsStart maximum current h p in
    let line = kept (is_full maximum current) current in
    flushed-IsCut maximum current _ p l (
      round_cases (IsCut maximum) c d _ _ _
        (λ e.
          let r = scan-IsCut maximum [] (d ∷ rest) h tt (omega arith) in
          (((line, c ∷ [], refl, q, inr (ending_char c e, m)), r.0), r.1))
        (λ e f.
          let r = scan-IsCut maximum [] rest h tt (omega arith) in
          (((line, c ∷ d ∷ [], refl, q, inr (inr (inr (rw (e, f))), m)), r.0), r.1))
        (λ e f.
          scan-IsCut maximum (line ++ c ∷ []) (d ∷ rest) h (longer-IsPlain line c q e f)
            (rw length-append (omega arith))))

-- Whatever arrives, from whatever is held back, each frame is a line of less than the maximum with
-- its ending, or a piece of exactly the maximum with no line ending in it; what is kept back is an
-- unfinished line, with at most the carriage return of a CR LF behind it.
pub feed-IsFrame :
    (f : TextFramer) (text : List ℕ)
    → 0 < f.maximum_frame_characters
    → All (IsFrame f.maximum_frame_characters) (feed f text).1
      × IsHeld f.maximum_frame_characters (feed f text).0.pending
unfolding feed
feed-IsFrame f text h =
    scan-IsCut f.maximum_frame_characters [] (f.pending ++ text) h tt (omega arith)

-- So no frame is longer than the maximum and one character more, the line feed behind a carriage
-- return.
pub frame-length :
    (maximum : ℕ) (frame : List ℕ) → IsFrame maximum frame → length frame ≤ maximum + 1
frame-length maximum frame (body, ending, e, p, inl (n, m)) = rw (e, n, append-nil) (omega arith)
frame-length maximum frame (body, ending, e, p, inr (n, m)) = rw (e, length-append) (ground arith)
