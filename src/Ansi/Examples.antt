-- ===== src/Ansi/Examples.antt =====
-- Tests of the model of src/tfr/ansi.py, and its theorems at concrete texts.
use tfr.Base.{ℕ, ◌≡◌, refl, List, [], ◌∷◌, length}
use tfr.Ansi.{
  tokens, plain, is_safe_token, safe_raw, raw_boundaries, boundaries, safe_tokens, is_safe_sgr,
  is_safe_character, tokens_from, control_rest, escape_rest, csi_length, terminated_control_length,
}

-- Red "ab", a window title that ends with a bell, and "c".
abbrev coloured : List ℕ
coloured =
    0x1b ∷ 0x5b ∷ 0x33 ∷ 0x31 ∷ 0x6d ∷ 0x61 ∷ 0x62 ∷ 0x1b ∷ 0x5d ∷ 0x30 ∷ 0x3b ∷ 0x78 ∷ 0x07 ∷ 0x63
    ∷ []

coloured-plain : plain coloured ≡ 0x61 ∷ 0x62 ∷ 0x63 ∷ []
unfolding plain tokens tokens_from control_rest escape_rest csi_length terminated_control_length
coloured-plain = refl

coloured-raw_boundaries : raw_boundaries coloured ≡ 5 ∷ 6 ∷ 13 ∷ 14 ∷ []
unfolding raw_boundaries boundaries tokens tokens_from control_rest escape_rest csi_length
    terminated_control_length
coloured-raw_boundaries = refl

coloured-safe_raw : safe_raw coloured ≡ 0x1b ∷ 0x5b ∷ 0x33 ∷ 0x31 ∷ 0x6d ∷ 0x61 ∷ 0x62 ∷ 0x63 ∷ []
unfolding safe_raw safe_tokens is_safe_token is_safe_sgr is_safe_character tokens tokens_from
    control_rest escape_rest csi_length terminated_control_length
coloured-safe_raw = refl

coloured-length : length (plain coloured) ≡ 3
unfolding plain tokens tokens_from control_rest escape_rest csi_length terminated_control_length
coloured-length = refl
