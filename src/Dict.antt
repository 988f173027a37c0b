-- ===== src/Dict.antt =====
-- Python dictionaries by text keys, as lists of their items in order.
pub mod Laws
use tfr.Base.{◌||◌, Bool, false, Option, none, some, List, [], ◌∷◌, ℕ, if◌then◌else◌, text_eq}

module _ {ℓ} {V : Type ℓ} where
  -- items.get(key)
  unfoldable pub lookup : List ℕ → List (List ℕ × V) → Option V
  lookup key [] = none
  lookup key ((k, v) ∷ items) =
      let rest = lookup key items in if text_eq k key then some v else rest

  -- items[key] = v: a key that is there keeps its place.
  unfoldable pub insert : List ℕ → V → List (List ℕ × V) → List (List ℕ × V)
  insert key v [] = (key, v) ∷ []
  insert key v ((k, w) ∷ items) =
      let rest = insert key v items in if text_eq k key then (k, v) ∷ items else (k, w) ∷ rest

  -- items.pop(key, None)
  unfoldable pub remove : List ℕ → List (List ℕ × V) → List (List ℕ × V)
  remove key [] = []
  remove key ((k, w) ∷ items) =
      let rest = remove key items in if text_eq k key then rest else (k, w) ∷ rest

  -- The items that pass a test.
  unfoldable pub select : (List ℕ → V → Bool) → List (List ℕ × V) → List (List ℕ × V)
  select test [] = []
  select test ((k, v) ∷ items) =
      let rest = select test items in if test k v then (k, v) ∷ rest else rest
