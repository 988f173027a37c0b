-- ===== src/Multiline/Utf8.antt =====
-- The size that prepare_emit_lines of src/tfr/multiline.py takes of its text, len(text.encode()),
-- beside the bytes themselves.
use tfr.Base.{
  ℕ, ◌+◌, ◌≡◌, refl, List, [], ◌∷◌, ◌++◌, arith, ltb, leb, ◌&&◌, if◌then◌else◌, Bool-cases, inl,
  inr, length, length-append, Result, ok, err, ◌>>=◌, ◌/◌, ◌%◌,
}
use tfr.Multiline.{Error, utf8_size, not_utf8}

-- The bytes of a character, by RFC 3629.
unfoldable pub utf8_bytes : ℕ → List ℕ
utf8_bytes c =
    if ltb c 0x80
    then c ∷ []
    else if ltb c 0x800
    then (0xc0 + c / 64) ∷ (0x80 + c % 64) ∷ []
    else if ltb c 0x10000
    then (0xe0 + c / 4096) ∷ (0x80 + c / 64 % 64) ∷ (0x80 + c % 64) ∷ []
    else (0xf0 + c / 262144) ∷ (0x80 + c / 4096 % 64) ∷ (0x80 + c / 64 % 64) ∷ (0x80 + c % 64) ∷ []

unfoldable pub encoded : List ℕ → List ℕ
encoded [] = []
encoded (c ∷ text) = utf8_bytes c ++ encoded text

length-utf8_bytes :
    (c : ℕ)
    → length (utf8_bytes c)
      ≡ (if ltb c 0x80 then 1 else if ltb c 0x800 then 2 else if ltb c 0x10000 then 3 else 4)
unfolding utf8_bytes
length-utf8_bytes c = elim (Bool-cases (ltb c 0x80)) [
  | inl e ↦ rw e refl
  | inr e ↦ elim (Bool-cases (ltb c 0x800)) [
    | inl f ↦ rw (e, f) refl
    | inr f ↦ elim (Bool-cases (ltb c 0x10000)) [
      | inl g ↦ rw (e, f, g) refl
      | inr g ↦ rw (e, f, g) refl
    ]
  ]
]

added :
    (c : ℕ) (text : List ℕ) (size : Result Error ℕ) (n : ℕ)
    → ((m : ℕ) → size ≡ ok m → m ≡ length (encoded text))
    → (size >>= (λ more.
        if leb 0xd800 c && leb c 0xdfff
        then err not_utf8
        else ok (
            (if ltb c 0x80 then 1 else if ltb c 0x800 then 2 else if ltb c 0x10000 then 3 else 4)
            + more)))
      ≡ ok n
    → n ≡ length (encoded (c ∷ text))
unfolding encoded
added c text (err e) n h = λ k. absurd (ground arith)
added c text (ok m) n h = elim (Bool-cases (leb 0xd800 c && leb c 0xdfff)) [
  | inl e ↦ rw e (λ k. absurd (ground arith))
  | inr e ↦ rw e (λ k.
      let size = length-utf8_bytes c in
      let both = length-append (utf8_bytes c) (encoded text) in let rest = h m refl in ground arith)
]

-- The size is the number of the bytes.
pub utf8_size-encoded : (text : List ℕ) (n : ℕ) → utf8_size text ≡ ok n → n ≡ length (encoded text)
unfolding utf8_size encoded
utf8_size-encoded [] n h = ground arith
utf8_size-encoded (c ∷ text) n h = added c text (utf8_size text) n (utf8_size-encoded text) h
