-- ===== src/Ansi/Slices.antt =====
-- AnsiProjection.visible_slice of src/tfr/ansi.py.
use tfr.Base.{
  ℕ, suc, ◌-◌, ◌≤◌, ◌<◌, max, ◌≡◌, refl, sym, ap, ◌∙◌, Bool, true, false, ◌&&◌, List, [], ◌∷◌, ◌++◌,
  arith, ltb, leb, if◌then◌else◌, inl, inr, length, take, drop, drop-all, take-all, Bool-cases, All,
  ok,
}
use tfr.Ansi.{AnsiToken, tokens, texts, plain_of, plain, slice_from, visible_slice}
use tfr.Ansi.Tokens.{select}
use tfr.Ansi.Visible.{Single, tokens_from-Single, plain-select}

-- The mask of slice_from.
slice_mask : ℕ → ℕ → ℕ → List AnsiToken → List Bool
slice_mask offset start end [] = []
slice_mask offset start end (t ∷ ts) =
    if t.control
    then ltb offset end ∷ slice_mask offset start end ts
    else (leb start offset && ltb offset end) ∷ slice_mask (suc offset) start end ts

slice_from-select :
    (offset start end : ℕ) (ts : List AnsiToken)
    → select (slice_mask offset start end ts) ts ≡ slice_from offset start end ts
unfolding slice_mask slice_from
slice_from-select offset start end [] = refl
slice_from-select offset start end (t ∷ ts) =
    elim t.control
      as (λ b.
        select
          (if b
            then ltb offset end ∷ slice_mask offset start end ts
            else (leb start offset && ltb offset end) ∷ slice_mask (suc offset) start end ts)
          (t ∷ ts)
        ≡ (if b
            then (if ltb offset end
                then t ∷ slice_from offset start end ts
                else slice_from offset start end ts)
            else (if leb start offset && ltb offset end
                then t ∷ slice_from (suc offset) start end ts
                else slice_from (suc offset) start end ts))) [
                  | true ↦
                      ap (λ us. if ltb offset end then t ∷ us else us)
                        (slice_from-select offset start end ts)
                  | false ↦
                      ap (λ us. if leb start offset && ltb offset end then t ∷ us else us)
                        (slice_from-select (suc offset) start end ts)
                ]

-- What a slice of characters from an offset on is.
part : ℕ → ℕ → ℕ → List ℕ → List ℕ
part offset start end xs = take (end - max start offset) (drop (start - offset) xs)

part-before :
    (offset start end x : ℕ) (ys : List ℕ)
    → offset < start
    → part offset start end (x ∷ ys) ≡ part (suc offset) start end ys
unfolding part
part-before offset start end x ys h =
    let skipped : start - offset ≡ suc (start - suc offset) = omega arith in
    let size : end - max start offset ≡ end - max start (suc offset) = omega arith in
    rw (skipped, size) refl

part-within :
    (offset start end x : ℕ) (ys : List ℕ)
    → start ≤ offset
    → offset < end
    → part offset start end (x ∷ ys) ≡ x ∷ part (suc offset) start end ys
unfolding part
part-within offset start end x ys h k =
    let none_skipped : start - offset ≡ 0 = omega arith in
    let none_skipped_next : start - suc offset ≡ 0 = omega arith in
    let size : end - max start offset ≡ suc (end - max start (suc offset)) = omega arith in
    rw (none_skipped, none_skipped_next, size) refl

part-behind : (offset start end : ℕ) (xs : List ℕ) → end ≤ offset → part offset start end xs ≡ []
unfolding part
part-behind offset start end xs h =
    let size : end - max start offset ≡ 0 = omega arith in rw size refl

part-single :
    (offset start end : ℕ) (one ys : List ℕ)
    → length one ≡ 1
    → start ≤ end
    → part offset start end (one ++ ys) ≡ (
        if leb start offset && ltb offset end
        then one ++ part (suc offset) start end ys
        else part (suc offset) start end ys)
part-single offset start end [] ys h k = absurd (omega arith)
part-single offset start end (x ∷ y ∷ one) ys h k = absurd (omega arith)
part-single offset start end (x ∷ []) ys h k = elim (Bool-cases (ltb offset start)) [
  | inl e ↦
      let outside : (leb start offset && ltb offset end) ≡ false = ground arith in
      rw outside (part-before offset start end x ys (ground arith))
  | inr e ↦ elim (Bool-cases (ltb offset end)) [
    | inl f ↦
        let inside : (leb start offset && ltb offset end) ≡ true = ground arith in
        rw inside (part-within offset start end x ys (ground arith) (ground arith))
    | inr f ↦
        let outside : (leb start offset && ltb offset end) ≡ false = ground arith in
        rw outside (
          part-behind offset start end (x ∷ ys) (ground arith)
          ∙ sym (part-behind (suc offset) start end ys (ground arith)))
  ]
]

part-nil : (offset start end : ℕ) → part offset start end [] ≡ []
unfolding part
part-nil offset start end =
    ap (take (end - max start offset)) (drop-all [] (start - offset) z)
    ∙ take-all (end - max start offset) [] z
  where
    z : {n : ℕ} → 0 ≤ n
    z = omega arith

slice_from-control :
    (offset start end : ℕ) (t : AnsiToken) (ts : List AnsiToken)
    → t.control ≡ true
    → plain_of (slice_from offset start end (t ∷ ts)) ≡ plain_of (slice_from offset start end ts)
unfolding slice_from
slice_from-control offset start end t ts e = elim (Bool-cases (ltb offset end)) [
  | inl f ↦ rw (e, f) refl
  | inr f ↦ rw (e, f) refl
]

slice_from-visible :
    (offset start end : ℕ) (t : AnsiToken) (ts : List AnsiToken)
    → t.control ≡ false
    → plain_of (slice_from offset start end (t ∷ ts)) ≡ (
        if leb start offset && ltb offset end
        then t.text ++ plain_of (slice_from (suc offset) start end ts)
        else plain_of (slice_from (suc offset) start end ts))
unfolding slice_from
slice_from-visible offset start end t ts e =
    elim (Bool-cases (leb start offset && ltb offset end)) [
      | inl f ↦ rw (e, f) refl
      | inr f ↦ rw (e, f) refl
    ]

plain_of-slice_from :
    (offset start end : ℕ) (ts : List AnsiToken)
    → All Single ts
    → start ≤ end
    → plain_of (slice_from offset start end ts) ≡ part offset start end (plain_of ts)
unfolding slice_from Single
plain_of-slice_from offset start end [] s h = sym (part-nil offset start end)
plain_of-slice_from offset start end (t ∷ ts) s h = elim (Bool-cases t.control) [
  | inl e ↦
      slice_from-control offset start end t ts e
      ∙ plain_of-slice_from offset start end ts s.1 h
      ∙ rw e refl
  | inr e ↦
      slice_from-visible offset start end t ts e
      ∙ rw (e, plain_of-slice_from (suc offset) start end ts s.1 h)
          (sym (part-single offset start end t.text (plain_of ts) (s.0 e) h))
]

slice-plain :
    (text : List ℕ) (start end : ℕ)
    → start ≤ end
    → plain (texts (slice_from 0 start end (tokens text)))
      ≡ take (end - start) (drop start (plain text))
unfolding plain tokens part
slice-plain text start end h =
    let first : start - 0 ≡ start = omega arith in
    let latest : end - max start 0 ≡ end - start = omega arith in
    ap (λ us. plain (texts us)) (sym (slice_from-select 0 start end (tokens text)))
    ∙ plain-select text (slice_mask 0 start end (tokens text))
    ∙ ap plain_of (slice_from-select 0 start end (tokens text))
    ∙ plain_of-slice_from 0 start end (tokens text) (tokens_from-Single (length text) text) h
    ∙ rw (latest, first) refl

-- A slice of visible characters inside a text succeeds, and its plain text is that slice of the
-- plain text.
visible_slice-plain :
    (text : List ℕ) (start end : ℕ)
    → start ≤ end
    → end ≤ length (plain text)
    → (raw : List ℕ) × ((visible_slice text start end ≡ ok raw)
        × (plain raw ≡ take (end - start) (drop start (plain text))))
unfolding visible_slice
visible_slice-plain text start end h k =
    let within : (leb start end && leb end (length (plain text))) ≡ true = ground arith in
    (texts (slice_from 0 start end (tokens text)), (rw within refl, slice-plain text start end h))
