-- ===== src/Ansi/Endings.antt =====
-- _control_end of src/tfr/ansi.py: a control sequence that ends before its text does is read the same
-- whatever follows it.
use tfr.Base.{
  ℕ, zero, suc, ◌<◌, ◌≡◌, refl, sym, ap, ◌∙◌, ◌&&◌, ◌||◌, none, some, List, [], ◌∷◌, ◌++◌, arith,
  leb, ◌==◌, length, take, Bool-cases, inl, inr,
}
use tfr.Ansi.{
  terminated_control_length, csi_length, escape_rest, control_rest, backslash_next,
  introduces_string, is_string_control,
}

-- A sequence that ends before the text does is read the same whatever follows it.
csi_length-take :
    (text xs : List ℕ)
    → csi_length text < length text
    → csi_length (take (csi_length text) text ++ xs) ≡ csi_length text
unfolding csi_length
csi_length-take [] xs h = absurd (omega arith)
csi_length-take (c ∷ rest) xs h = elim (Bool-cases (leb 0x40 c && leb c 0x7e)) [
  | inl e ↦ rw (e, e) refl
  | inr e ↦ rw (e, e) (ap suc (csi_length-take rest xs (ground arith)))
]

terminated_control_length-positive :
    (text : List ℕ) → 0 < length text → 0 < terminated_control_length text
unfolding terminated_control_length
terminated_control_length-positive [] h = absurd (omega arith)
terminated_control_length-positive (c ∷ rest) h = ground arith

backslash_next-take :
    (n : ℕ) (rest xs : List ℕ)
    → 0 < n
    → 0 < length rest
    → backslash_next (take n rest ++ xs) ≡ backslash_next rest
unfolding backslash_next
backslash_next-take zero rest xs h k = absurd (omega arith)
backslash_next-take (suc n) [] xs h k = absurd (omega arith)
backslash_next-take (suc n) (d ∷ rest) xs h k = refl

terminated_control_length-take :
    (text xs : List ℕ)
    → terminated_control_length text < length text
    → terminated_control_length (take (terminated_control_length text) text ++ xs)
      ≡ terminated_control_length text
unfolding terminated_control_length
terminated_control_length-take [] xs h = absurd (omega arith)
terminated_control_length-take (c ∷ rest) xs h = elim (Bool-cases (c == 0x07 || c == 0x9c)) [
  | inl e ↦ rw (e, e) refl
  | inr e ↦ elim (Bool-cases (c == 0x1b && backslash_next rest)) [
    | inl f ↦ rw (e, f, e, backslash_next-take 1 rest xs (omega arith) (ground arith), f) refl
    | inr f ↦
        rw
          (
            e,
            f,
            e,
            backslash_next-take (terminated_control_length rest) rest xs
                (terminated_control_length-positive rest (ground arith)) (ground arith),
            f,
          )
          (ap suc (terminated_control_length-take rest xs (ground arith)))
  ]
]

escape_rest-take :
    (text xs : List ℕ)
    → escape_rest text < length text
    → escape_rest (take (escape_rest text) text ++ xs) ≡ escape_rest text
unfolding escape_rest
escape_rest-take [] xs h = absurd (omega arith)
escape_rest-take (c ∷ rest) xs h = elim (Bool-cases (c == 0x5b)) [
  | inl e ↦ rw (e, e) (ap suc (csi_length-take rest xs (ground arith)))
  | inr e ↦ elim (Bool-cases (introduces_string c)) [
    | inl f ↦ rw (e, f, e, f) (ap suc (terminated_control_length-take rest xs (ground arith)))
    | inr f ↦ rw (e, f, e, f) refl
  ]
]

-- What is read of a part of a text does not depend on what follows, if it does not reach the end.
read-take :
    (read : List ℕ → ℕ)
    → ((text xs : List ℕ)
        → read text < length text
        → read (take (read text) text ++ xs) ≡ read text)
    → (rest xs : List ℕ) (n : ℕ) → some (read rest) ≡ some n
    → n < length rest
    → some (read (take n rest ++ xs)) ≡ some n
read-take read stable rest xs n e h =
    let same : read rest ≡ n = grind arith in
    let shorter : read rest < length rest = omega arith in
    ap some (ap (λ k. read (take k rest ++ xs)) (sym same) ∙ stable rest xs shorter ∙ same)

-- A control sequence that ends before the text does is read the same whatever follows it.
pub control_rest-take :
    (c : ℕ) (rest xs : List ℕ) (n : ℕ)
    → control_rest c rest ≡ some n
    → n < length rest
    → control_rest c (take n rest ++ xs) ≡ some n
unfolding control_rest
control_rest-take c rest xs n = elim (Bool-cases (c == 0x1b)) [
  | inl e ↦ rw e (read-take escape_rest escape_rest-take rest xs n)
  | inr e ↦ elim (Bool-cases (c == 0x9b)) [
    | inl f ↦ rw (e, f) (read-take csi_length csi_length-take rest xs n)
    | inr f ↦ elim (Bool-cases (is_string_control c)) [
      | inl g ↦
          rw (e, f, g)
            (read-take terminated_control_length terminated_control_length-take rest xs n)
      | inr g ↦ elim (Bool-cases (c == 0x9c)) [
        | inl h ↦ rw (e, f, g, h) (read-take (λ text. 0) (λ text ys k. refl) rest xs n)
        | inr h ↦ rw (e, f, g, h) (λ k m. k)
      ]
    ]
  ]
]

-- What begins no control sequence is read alone, whatever follows it.
pub control_rest-none :
    (c : ℕ) (rest xs : List ℕ) → control_rest c rest ≡ none → control_rest c xs ≡ none
unfolding control_rest
control_rest-none c rest xs h = ground arith
