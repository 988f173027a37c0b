-- ===== src/Ansi/Visible.antt =====
-- AnsiProjection.remove_visible_prefix of src/tfr/ansi.py, and what masks do to the plain text.
use tfr.Base.{
  ℕ, zero, suc, ◌≤◌, ◌≡◌, refl, sym, ap, ◌∙◌, Bool, true, false, none, some, List, [], ◌∷◌, ◌++◌,
  arith, leb, if◌then◌else◌, inl, inr, length, take, drop, Bool-cases, All, ok,
}
use tfr.Ansi.{
  AnsiToken, control_token, visible_token, control_rest, tokens_from, tokens, texts, plain_of,
  plain, without_prefix, remove_visible_prefix,
}
use tfr.Ansi.Tokens.{select, tokens-select}

-- A token that is no control is one character.
unfoldable pub Single : AnsiToken → Type 0
Single t = t.control ≡ false → length t.text ≡ 1

pub tokens_from-Single : (fuel : ℕ) (text : List ℕ) → All Single (tokens_from fuel text)
unfolding tokens_from Single
tokens_from-Single zero text = tt
tokens_from-Single (suc fuel) [] = tt
tokens_from-Single (suc fuel) (c ∷ rest) =
    elim (control_rest c rest)
      as (λ o. All Single (elim o as (λ x. List AnsiToken) [
        | some k ↦ control_token (c ∷ take k rest) ∷ tokens_from fuel (drop k rest)
        | none ↦ visible_token c ∷ tokens_from fuel rest
      ])) [
        | some n ↦ (λ h. absurd (ground arith), tokens_from-Single fuel (drop n rest))
        | none ↦ (λ h. refl, tokens_from-Single fuel rest)
      ]

-- The mask of without_prefix.
prefix_mask : ℕ → List AnsiToken → List Bool
prefix_mask n [] = []
prefix_mask zero (t ∷ ts) = true ∷ prefix_mask zero ts
prefix_mask (suc n) (t ∷ ts) =
    if t.control then true ∷ prefix_mask (suc n) ts else false ∷ prefix_mask n ts

without_prefix-select :
    (n : ℕ) (ts : List AnsiToken) → select (prefix_mask n ts) ts ≡ without_prefix n ts
unfolding prefix_mask without_prefix
without_prefix-select n [] = refl
without_prefix-select zero (t ∷ ts) = ap (◌∷◌ t) (without_prefix-select zero ts)
without_prefix-select (suc n) (t ∷ ts) =
    elim t.control
      as (λ b.
        select (if b then true ∷ prefix_mask (suc n) ts else false ∷ prefix_mask n ts) (t ∷ ts)
        ≡ (if b then t ∷ without_prefix (suc n) ts else without_prefix n ts)) [
          | true ↦ ap (◌∷◌ t) (without_prefix-select (suc n) ts)
          | false ↦ without_prefix-select n ts
        ]

drop-single : (n : ℕ) (one ys : List ℕ) → length one ≡ 1 → drop (suc n) (one ++ ys) ≡ drop n ys
drop-single n [] ys h = absurd (omega arith)
drop-single n (x ∷ []) ys h = refl
drop-single n (x ∷ y ∷ one) ys h = absurd (omega arith)

without_prefix-zero : (ts : List AnsiToken) → without_prefix zero ts ≡ ts
unfolding without_prefix
without_prefix-zero [] = refl
without_prefix-zero (t ∷ ts) = ap (◌∷◌ t) (without_prefix-zero ts)

plain_of-without_prefix :
    (n : ℕ) (ts : List AnsiToken)
    → All Single ts
    → plain_of (without_prefix n ts) ≡ drop n (plain_of ts)
unfolding without_prefix Single
plain_of-without_prefix zero ts s = ap plain_of (without_prefix-zero ts)
plain_of-without_prefix (suc n) [] s = refl
plain_of-without_prefix (suc n) (t ∷ ts) s = elim (Bool-cases t.control) [
  | inl e ↦ rw e (plain_of-without_prefix (suc n) ts s.1)
  | inr e ↦
      rw e (plain_of-without_prefix n ts s.1 ∙ sym (drop-single n t.text (plain_of ts) (s.0 e)))
]

pub plain-select :
    (text : List ℕ) (mask : List Bool)
    → plain (texts (select mask (tokens text))) ≡ plain_of (select mask (tokens text))
unfolding plain
plain-select text mask = ap plain_of (tokens-select text mask)

without_prefix-plain :
    (text : List ℕ) (n : ℕ) → plain (texts (without_prefix n (tokens text))) ≡ drop n (plain text)
unfolding plain tokens
without_prefix-plain text n =
    ap (λ us. plain (texts us)) (sym (without_prefix-select n (tokens text)))
    ∙ plain-select text (prefix_mask n (tokens text))
    ∙ ap plain_of (without_prefix-select n (tokens text))
    ∙ plain_of-without_prefix n (tokens text) (tokens_from-Single (length text) text)

-- Removing at most as many visible characters as a text has succeeds, and the plain text of what is
-- left is the plain text without its first characters.
pub remove_visible_prefix-plain :
    (text : List ℕ) (n : ℕ)
    → n ≤ length (plain text)
    → (raw : List ℕ) × ((remove_visible_prefix text n ≡ ok raw) × (plain raw ≡ drop n (plain text)))
unfolding remove_visible_prefix
remove_visible_prefix-plain text n h =
    let within : leb n (length (plain text)) ≡ true = ground arith in
    (texts (without_prefix n (tokens text)), (rw within refl, without_prefix-plain text n))
