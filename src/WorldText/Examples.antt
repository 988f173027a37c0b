-- ===== src/WorldText/Examples.antt =====
-- Tests of the model of src/tfr/world_text.py, and its theorem at a concrete text.
use tfr.Base.{◌≡◌, refl, some, List, ok, codes, ℕ}
use tfr.WorldText.{tinymush, tinymux, bare, escape_world_text, escape_character, is_escaped}
use tfr.WorldText.Escaping.{in_text, unescape, unescape-escape_world_text}

abbrev command : List ℕ
command = codes "a [b]"

escape_world_text_tinymush : escape_world_text command tinymush ≡ ok (codes "a%b\\[b\\]")
unfolding escape_world_text escape_character is_escaped
escape_world_text_tinymush = refl

escape_world_text_bare : escape_world_text command bare ≡ ok command
unfolding escape_world_text
escape_world_text_bare = refl

unescape-escape_world_text_example :
    (raw : List ℕ) × ((escape_world_text command tinymux ≡ ok raw)
      × (unescape tinymux in_text raw ≡ some command))
unescape-escape_world_text_example = unescape-escape_world_text tinymux command refl
