-- ===== src/Dict/Laws.antt =====
-- Laws of the dictionaries, for any test of equal keys.
use tfr.Base.{
  ◌≡◌, refl, sym, ap, ◌∙◌, Bool, true, false, none, some, List, [], ◌∷◌, ℕ, if◌then◌else◌, text_eq,
  arith, Bool-cases, inl, inr, All,
}
use mathlib.Core.Path.{subst}
use tfr.Json.Lookup.{text_eq_sound}
use tfr.Dict.{lookup, insert, remove, select}

pub text_eq_sym : (a b : List ℕ) → text_eq a b ≡ text_eq b a
unfolding text_eq
text_eq_sym [] [] = refl
text_eq_sym [] (y ∷ b) = refl
text_eq_sym (x ∷ a) [] = refl
text_eq_sym (x ∷ a) (y ∷ b) = ground (arith, text_eq_sym a b)

-- A key that is equal to another differs from what that other differs from.
other_key : (k key j : List ℕ) → text_eq k key ≡ false → text_eq k j ≡ true → text_eq key j ≡ false
other_key k key j e f = ap (text_eq key) (sym (text_eq_sound k j f)) ∙ text_eq_sym key k ∙ e

module _ {ℓ} {V : Type ℓ} where
  pub lookup-insert :
      (key j : List ℕ) (v : V) (items : List (List ℕ × V))
      → lookup j (insert key v items) ≡ (if text_eq key j then some v else lookup j items)
  unfolding lookup insert
  lookup-insert key j v [] = refl
  lookup-insert key j v ((k, w) ∷ items) = elim (Bool-cases (text_eq k key)) [
    | inl e ↦
        rw (e, text_eq_sound k key e)
          (elim (Bool-cases (text_eq key j)) [ inl f ↦ rw f refl | inr f ↦ rw f refl ])
    | inr e ↦ elim (Bool-cases (text_eq k j)) [
      | inl f ↦ rw (e, f, other_key k key j e f) refl
      | inr f ↦ rw (e, f) (lookup-insert key j v items)
    ]
  ]

  pub lookup-remove :
      (key j : List ℕ) (items : List (List ℕ × V))
      → lookup j (remove key items) ≡ (if text_eq key j then none else lookup j items)
  unfolding lookup remove
  lookup-remove key j [] = elim (Bool-cases (text_eq key j)) [
    | inl f ↦ rw f refl
    | inr f ↦ rw f refl
  ]
  lookup-remove key j ((k, w) ∷ items) = elim (Bool-cases (text_eq k key)) [
    | inl e ↦
        rw (e, lookup-remove key j items, text_eq_sound k key e)
          (elim (Bool-cases (text_eq key j)) [ inl f ↦ rw f refl | inr f ↦ rw f refl ])
    | inr e ↦ elim (Bool-cases (text_eq k j)) [
      | inl f ↦ rw (e, f, other_key k key j e f) refl
      | inr f ↦ rw (e, f) (lookup-remove key j items)
    ]
  ]

  pub remove-All {κ} :
      (P : List ℕ × V → Type κ) (key : List ℕ) (items : List (List ℕ × V))
      → All P items
      → All P (remove key items)
  unfolding remove
  remove-All P key [] h = tt
  remove-All P key ((k, w) ∷ items) h = elim (Bool-cases (text_eq k key)) [
    | inl e ↦ rw e (remove-All P key items h.1)
    | inr e ↦ rw e (h.0, remove-All P key items h.1)
  ]

  pub select-All {κ} :
      (P : List ℕ × V → Type κ) (test : List ℕ → V → Bool) (items : List (List ℕ × V))
      → All P items
      → All P (select test items)
  unfolding select
  select-All P test [] h = tt
  select-All P test ((k, v) ∷ items) h = elim (Bool-cases (test k v)) [
    | inl e ↦ rw e (h.0, select-All P test items h.1)
    | inr e ↦ rw e (select-All P test items h.1)
  ]

  pub insert-All {κ} :
      (P : List ℕ × V → Type κ) (key : List ℕ) (v : V) (items : List (List ℕ × V))
      → P (key, v)
      → All P items
      → All P (insert key v items)
  unfolding insert
  insert-All P key v [] p h = (p, tt)
  insert-All P key v ((k, w) ∷ items) p h = elim (Bool-cases (text_eq k key)) [
    | inl e ↦ rw e (rw (text_eq_sound k key e) p, h.1)
    | inr e ↦ rw e (h.0, insert-All P key v items p h.1)
  ]

  pub lookup-All {κ} :
      (P : List ℕ × V → Type κ) (key : List ℕ) (items : List (List ℕ × V)) (v : V)
      → All P items
      → lookup key items ≡ some v
      → P (key, v)
  unfolding lookup
  lookup-All P key [] v h = λ e. cc
  lookup-All P key ((k, w) ∷ items) v h = elim (Bool-cases (text_eq k key)) [
    | inl f ↦ rw f (λ e.
        let same : w ≡ v = cc in
        subst (λ x. P (key, x)) same (subst (λ x. P (x, w)) (text_eq_sound k key f) h.0))
    | inr f ↦ rw f (lookup-All P key items v h.1)
  ]
