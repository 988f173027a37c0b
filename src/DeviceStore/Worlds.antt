-- ===== src/DeviceStore/Worlds.antt =====
-- The worlds of a pairing of src/tfr/gateway_devices.py: each is named and none stands twice.
use tfr.Base.{ℕ, ◌≡◌, refl, true, false, List, [], ◌∷◌, arith, Bool-cases, inl, inr, text_eq}
use tfr.Json.{is_among}
use tfr.Dict.Laws.{text_eq_sym}
use tfr.Device.{Runtime, are_worlds, all_named, has_duplicates}
use tfr.DeviceStore.{without, unique}

all_named-without :
    (w : List ℕ) (ws : List (List ℕ)) → all_named ws ≡ true → all_named (without w ws) ≡ true
unfolding without
all_named-without w [] h = refl
all_named-without w ([] ∷ ws) h = cc
all_named-without w ((c ∷ x) ∷ ws) h = elim (Bool-cases (text_eq (c ∷ x) w)) [
  | inl e ↦ rw e (all_named-without w ws h)
  | inr e ↦ rw e (all_named-without w ws h)
]

is_among-without_self : (w : List ℕ) (ws : List (List ℕ)) → is_among w (without w ws) ≡ false
unfolding without is_among
is_among-without_self w [] = refl
is_among-without_self w (x ∷ ws) = elim (Bool-cases (text_eq x w)) [
  | inl e ↦ rw e (is_among-without_self w ws)
  | inr e ↦ rw (e, text_eq_sym w x, e) (is_among-without_self w ws)
]

is_among-without :
    (a w : List ℕ) (ws : List (List ℕ)) → is_among a ws ≡ false → is_among a (without w ws) ≡ false
unfolding without is_among
is_among-without a w [] h = refl
is_among-without a w (x ∷ ws) h = let rest = is_among-without a w ws (ground arith) in ground arith

has_duplicates-without :
    (w : List ℕ) (ws : List (List ℕ))
    → has_duplicates ws ≡ false
    → has_duplicates (without w ws) ≡ false
unfolding without has_duplicates
has_duplicates-without w [] h = refl
has_duplicates-without w (x ∷ ws) h =
    let rest = has_duplicates-without w ws (ground arith) in
    let fresh = is_among-without x w ws (ground arith) in ground arith

has_duplicates-unique : (ws : List (List ℕ)) → has_duplicates (unique ws) ≡ false
unfolding unique has_duplicates
has_duplicates-unique [] = refl
has_duplicates-unique (w ∷ ws) =
    let rest = has_duplicates-without w (unique ws) (has_duplicates-unique ws) in
    let fresh = is_among-without_self w (unique ws) in ground arith

all_named-unique : (ws : List (List ℕ)) → all_named ws ≡ true → all_named (unique ws) ≡ true
unfolding unique
all_named-unique [] h = refl
all_named-unique ([] ∷ ws) h = cc
all_named-unique ((c ∷ w) ∷ ws) h = all_named-without (c ∷ w) (unique ws) (all_named-unique ws h)

pub are_worlds-unique :
    (r : Runtime) (w : List ℕ) (ws : List (List ℕ))
    → all_named (w ∷ ws) ≡ true
    → are_worlds r (unique (w ∷ ws)) ≡ true
unfolding are_worlds unique
are_worlds-unique r w ws h =
    let named : all_named (w ∷ without w (unique ws)) ≡ true = all_named-unique (w ∷ ws) h in
    let distinct : has_duplicates (w ∷ without w (unique ws)) ≡ false =
      has_duplicates-unique (w ∷ ws) in
    ground arith
