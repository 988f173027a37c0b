-- ===== src/Ansi/Tokens.antt =====
-- project_ansi of src/tfr/ansi.py: its tokens are the text, and they can be read again.
use tfr.Base.{
  ℕ, zero, suc, ◌≤◌, ◌<◌, ◌≡◌, refl, ap, ◌∙◌, Bool, true, false, none, some, List, [], ◌∷◌, ◌++◌,
  append-nil, arith, ltb, if◌then◌else◌, ◌⊎◌, Option-cases, length-take, take-append_drop,
  take-append_exact, drop-append_exact, length, length-append, length-drop, take, drop, take-all,
  drop-all, Bool-cases, inl, inr,
}
use tfr.Ansi.{AnsiToken, control_token, visible_token, control_rest, tokens_from, tokens, texts}
use tfr.Ansi.Endings.{control_rest-take, control_rest-none}

tokens_from-control :
    (fuel c : ℕ) (rest : List ℕ) (n : ℕ)
    → control_rest c rest ≡ some n
    → tokens_from (suc fuel) (c ∷ rest)
      ≡ control_token (c ∷ take n rest) ∷ tokens_from fuel (drop n rest)
unfolding tokens_from
tokens_from-control fuel c rest n e =
    ap
      (λ o. elim o as (λ x. List AnsiToken) [
        | some k ↦ control_token (c ∷ take k rest) ∷ tokens_from fuel (drop k rest)
        | none ↦ visible_token c ∷ tokens_from fuel rest
      ])
      e

tokens_from-visible :
    (fuel c : ℕ) (rest : List ℕ)
    → control_rest c rest ≡ none
    → tokens_from (suc fuel) (c ∷ rest) ≡ visible_token c ∷ tokens_from fuel rest
unfolding tokens_from
tokens_from-visible fuel c rest e =
    ap
      (λ o. elim o as (λ x. List AnsiToken) [
        | some k ↦ control_token (c ∷ take k rest) ∷ tokens_from fuel (drop k rest)
        | none ↦ visible_token c ∷ tokens_from fuel rest
      ])
      e

tokens_from-nil : (fuel : ℕ) → tokens_from fuel [] ≡ []
unfolding tokens_from
tokens_from-nil zero = refl
tokens_from-nil (suc fuel) = refl

pub texts-tokens_from :
    (fuel : ℕ) (text : List ℕ) → length text ≤ fuel → texts (tokens_from fuel text) ≡ text
texts-tokens_from fuel [] h = rw (tokens_from-nil fuel) refl
texts-tokens_from zero (c ∷ rest) h = absurd (omega arith)
texts-tokens_from (suc fuel) (c ∷ rest) h = elim (Option-cases (control_rest c rest)) [
  | inl e ↦
      rw (tokens_from-visible fuel c rest e)
        (ap (◌∷◌ c) (texts-tokens_from fuel rest (omega arith)))
  | inr (n, e) ↦
      rw
        (
          tokens_from-control fuel c rest n e,
          texts-tokens_from fuel (drop n rest) (omega (arith, length-drop n rest)),
        )
        (ap (◌∷◌ c) (take-append_drop n rest))
]

-- A control sequence that ends before its text does, or has nothing behind it, is read as before.
read_control :
    (fuel c : ℕ) (rest : List ℕ) (n : ℕ) (us : List AnsiToken)
    → control_rest c rest ≡ some n
    → (n < length rest) ⊎ ((length rest ≤ n) × (us ≡ []))
    → tokens_from (suc fuel) (c ∷ (take n rest ++ texts us))
      ≡ control_token (c ∷ take n rest) ∷ tokens_from fuel (texts us)
read_control fuel c rest n us e (inl h) =
    let exact : length (take n rest) ≡ n = omega (arith, length-take n rest, h) in
    tokens_from-control fuel c (take n rest ++ texts us) n
      (control_rest-take c rest (texts us) n e h)
    ∙ rw
        (
          take-append_exact n (take n rest) (texts us) exact,
          drop-append_exact n (take n rest) (texts us) exact,
        )
        refl
read_control fuel c rest n us e (inr (h, k)) =
    rw (k, append-nil (take n rest), take-all n rest h)
      (tokens_from-control fuel c rest n e ∙ rw (take-all n rest h, drop-all rest n h) refl)

-- The tokens that a mask picks.
abbrev pub select : List Bool → List AnsiToken → List AnsiToken
select mask [] = []
select [] (t ∷ ts) = []
select (b ∷ mask) (t ∷ ts) = let rest = select mask ts in if b then t ∷ rest else rest

select-nil : (ts : List AnsiToken) → select [] ts ≡ []
select-nil [] = refl
select-nil (t ∷ ts) = refl

last_or_not :
    (fuel : ℕ) (rest : List ℕ) (n : ℕ) (mask : List Bool)
    → (n < length rest) ⊎ ((length rest ≤ n) × (select mask (tokens_from fuel (drop n rest)) ≡ []))
last_or_not fuel rest n mask = elim (Bool-cases (ltb n (length rest))) [
  | inl e ↦ inl (ground arith)
  | inr e ↦
      let long : length rest ≤ n = ground arith in
      inr (long, rw (drop-all rest n long, tokens_from-nil fuel) refl)
]

read_visible :
    (fuel more c : ℕ) (rest : List ℕ) (b : Bool) (mask : List Bool)
    → control_rest c rest ≡ none
    → ((m : ℕ)
        → length (texts (select mask (tokens_from fuel rest))) ≤ m
        → tokens_from m (texts (select mask (tokens_from fuel rest)))
          ≡ select mask (tokens_from fuel rest))
    → length (texts (select (b ∷ mask) (visible_token c ∷ tokens_from fuel rest))) ≤ more
    → tokens_from more (texts (select (b ∷ mask) (visible_token c ∷ tokens_from fuel rest)))
      ≡ select (b ∷ mask) (visible_token c ∷ tokens_from fuel rest)
read_visible fuel more c rest false mask e tail k = tail more k
read_visible fuel zero c rest true mask e tail k = absurd (omega arith)
read_visible fuel (suc more) c rest true mask e tail k =
    let us = select mask (tokens_from fuel rest) in
    tokens_from-visible more c (texts us) (control_rest-none c rest (texts us) e)
    ∙ ap (◌∷◌ (visible_token c)) (tail more (omega arith))

read_kept :
    (fuel more c : ℕ) (rest : List ℕ) (n : ℕ) (b : Bool) (mask : List Bool)
    → control_rest c rest ≡ some n
    → ((m : ℕ)
        → length (texts (select mask (tokens_from fuel (drop n rest)))) ≤ m
        → tokens_from m (texts (select mask (tokens_from fuel (drop n rest))))
          ≡ select mask (tokens_from fuel (drop n rest)))
    → length (
        texts
          (select (b ∷ mask) (control_token (c ∷ take n rest) ∷ tokens_from fuel (drop n rest))))
      ≤ more
    → tokens_from more (
        texts
          (select (b ∷ mask) (control_token (c ∷ take n rest) ∷ tokens_from fuel (drop n rest))))
      ≡ select (b ∷ mask) (control_token (c ∷ take n rest) ∷ tokens_from fuel (drop n rest))
read_kept fuel more c rest n false mask e tail k = tail more k
read_kept fuel zero c rest n true mask e tail k = absurd (omega arith)
read_kept fuel (suc more) c rest n true mask e tail k =
    let us = select mask (tokens_from fuel (drop n rest)) in
    read_control more c rest n us e (last_or_not fuel rest n mask)
    ∙ ap (◌∷◌ (control_token (c ∷ take n rest)))
        (tail more (omega (arith, length-append (take n rest) (texts us), k)))

-- Tokens of a text that are picked by a mask are what is read of their text.
pub retoken :
    (fuel more : ℕ) (text : List ℕ) (mask : List Bool)
    → length text ≤ fuel
    → length (texts (select mask (tokens_from fuel text))) ≤ more
    → tokens_from more (texts (select mask (tokens_from fuel text)))
      ≡ select mask (tokens_from fuel text)
retoken zero more [] mask h = rw (tokens_from-nil zero) (λ k. tokens_from-nil more)
retoken zero more (c ∷ rest) mask h = λ k. absurd (omega arith)
retoken (suc fuel) more [] mask h = rw (tokens_from-nil (suc fuel)) (λ k. tokens_from-nil more)
retoken (suc fuel) more (c ∷ rest) [] h =
    rw (select-nil (tokens_from (suc fuel) (c ∷ rest))) (λ k. tokens_from-nil more)
retoken (suc fuel) more (c ∷ rest) (b ∷ mask) h = elim (Option-cases (control_rest c rest)) [
  | inl e ↦
      rw (tokens_from-visible fuel c rest e)
        (read_visible fuel more c rest b mask e (λ m. retoken fuel m rest mask (omega arith)))
  | inr (n, e) ↦ rw (tokens_from-control fuel c rest n e) (
      read_kept fuel more c rest n b mask e
        (λ m. retoken fuel m (drop n rest) mask (omega (arith, length-drop n rest))))
]

-- The tokens of a text, controls and characters, are the whole text in order.
tokens_lossless : (text : List ℕ) → texts (tokens text) ≡ text
unfolding tokens
tokens_lossless text = texts-tokens_from (length text) text (omega arith)

pub tokens-select :
    (text : List ℕ) (mask : List Bool)
    → tokens (texts (select mask (tokens text))) ≡ select mask (tokens text)
unfolding tokens
tokens-select text mask =
    retoken (length text) (length (texts (select mask (tokens_from (length text) text)))) text mask
      (omega arith) (omega arith)
