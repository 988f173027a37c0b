-- ===== src/Json/Lookup.antt =====
-- Laws of the values that src/tfr reads from JSON files.
use tfr.Base.{ℕ, ◌≡◌, refl, true, some, List, [], ◌∷◌, text_eq, arith}
use tfr.Json.{as_texts, from_texts}

pub as_texts-from_texts : (ts : List (List ℕ)) → as_texts (from_texts ts) ≡ some ts
unfolding as_texts
as_texts-from_texts [] = refl
as_texts-from_texts (t ∷ ts) = simp (as_texts-from_texts ts)

pub text_eq_refl : (a : List ℕ) → text_eq a a ≡ true
unfolding text_eq
text_eq_refl [] = refl
text_eq_refl (x ∷ a) = ground (arith, text_eq_refl a)

pub text_eq_sound : (a b : List ℕ) → text_eq a b ≡ true → a ≡ b
unfolding text_eq
text_eq_sound [] [] h = refl
text_eq_sound [] (y ∷ b) h = cc
text_eq_sound (x ∷ a) [] h = cc
text_eq_sound (x ∷ a) (y ∷ b) h = ground (arith, text_eq_sound a b)
