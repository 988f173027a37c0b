-- ===== src/Json.antt =====
-- Values that Python's json module reads and writes. A text is a list of code points, and an object's
-- fields are in the order of the dictionary. A number that is not an integer is kept by a number that
-- stands for it.
pub mod Lookup
use tfr.Base.{
  ℕ, ℤ, Bool, true, false, ◌&&◌, ◌||◌, Option, none, some, List, [], ◌∷◌, if◌then◌else◌, text_eq,
}

mutual
  pub data Value : Type 0 where
    null : Value
    bool : Bool → Value
    int : ℤ → Value
    real : ℕ → Value
    text : List ℕ → Value
    array : Items → Value
    object : Fields → Value

  pub data Items : Type 0 where
    nil : Items
    cons : Value → Items → Items

  pub data Fields : Type 0 where
    end : Fields
    field : List ℕ → Value → Fields → Fields

-- value[key], or a value for a key that is missing.
unfoldable pub get_or : List ℕ → Value → Fields → Value
get_or key missing end = missing
get_or key missing (field k v fields) =
    let rest = get_or key missing fields in if text_eq k key then v else rest

unfoldable pub has_key : List ℕ → Fields → Bool
has_key key end = false
has_key key (field k v fields) = text_eq k key || has_key key fields

abbrev pub has_all : List (List ℕ) → Fields → Bool
has_all [] fields = true
has_all (key ∷ keys) fields = has_key key fields && has_all keys fields

unfoldable pub is_among : List ℕ → List (List ℕ) → Bool
is_among k [] = false
is_among k (key ∷ keys) = text_eq k key || is_among k keys

abbrev pub all_among : List (List ℕ) → Fields → Bool
all_among keys end = true
all_among keys (field k v fields) = is_among k keys && all_among keys fields

-- set(value) == keys
unfoldable pub has_exactly : List (List ℕ) → Fields → Bool
has_exactly keys fields = has_all keys fields && all_among keys fields

-- The items that are texts, if all are.
unfoldable pub as_texts : Items → Option (List (List ℕ))
as_texts nil = some []
as_texts (cons (text t) items) = elim (as_texts items) [ none ↦ none | some ts ↦ some (t ∷ ts) ]
as_texts (cons _ items) = none

abbrev pub from_texts : List (List ℕ) → Items
from_texts [] = nil
from_texts (t ∷ ts) = cons (text t) (from_texts ts)
