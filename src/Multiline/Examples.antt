-- ===== src/Multiline/Examples.antt =====
-- Tests of the model of src/tfr/multiline.py, and its theorems at a concrete text. The encoding of the
-- tests has one byte for an ASCII character and none for others.
use tfr.Base.{
  ℕ, ◌≡◌, refl, Option, some, none, List, [], ◌∷◌, ◌++◌, suc, All, ok, err, codes, ltb,
  if◌then◌else◌, contains,
}
use tfr.WorldText.{tinymush, escape_world_text, escape_character, is_escaped}
use tfr.Multiline.{
  PreparedMultiline, Limits, prepare_multiline_text, prepare_emit_lines, replace_cr, replace_crlf,
  split_lines, pop_empty, join_lines, utf8_size, emit_commands, emit_command, check_sizes,
  checked_commands, too_many_lines,
}
use tfr.Multiline.Lines.{both, terminated, lines_of, Lacks}
use tfr.Multiline.Commands.{
  Prepared, IsOneLine, prepare_multiline_text-Prepared, prepare_multiline_text-terminated,
}

abbrev ascii_size : List ℕ → Option ℕ
ascii_size [] = some 0
ascii_size (c ∷ text) = elim (ascii_size text) [
  | none ↦ none
  | some size ↦ if ltb c 128 then some (suc size) else none
]

abbrev limits : Limits
limits = record { maximum_source_bytes = 20; maximum_lines = 2; maximum_command_bytes = 12 }

abbrev input : List ℕ
input = codes "a b" ++ 0x0d ∷ 0x0a ∷ b'c' ∷ 0x0d ∷ []

abbrev prepared : PreparedMultiline
prepared = record {
  commands = codes "@emit a%bb" ∷ codes "@emit c" ∷ [];
  line_count = 2;
  source_bytes = 5;
}

prepare_multiline_text-input : prepare_multiline_text ascii_size limits input tinymush ≡ ok prepared
unfolding prepare_multiline_text prepare_emit_lines replace_cr replace_crlf split_lines pop_empty
    join_lines utf8_size emit_commands emit_command check_sizes checked_commands escape_world_text
    escape_character is_escaped contains
prepare_multiline_text-input = refl

prepare_multiline_text-long :
    prepare_multiline_text ascii_size limits (0x0a ∷ 0x0a ∷ b'c' ∷ []) tinymush ≡ err too_many_lines
unfolding prepare_multiline_text prepare_emit_lines replace_cr replace_crlf split_lines pop_empty
    join_lines utf8_size contains
prepare_multiline_text-long = refl

prepare_multiline_text-Prepared_example :
    Prepared ascii_size limits (lines_of input) tinymush prepared × All IsOneLine prepared.commands
prepare_multiline_text-Prepared_example =
    prepare_multiline_text-Prepared ascii_size limits input tinymush prepared
      prepare_multiline_text-input

abbrev two_lines : List (List ℕ)
two_lines = codes "a" ∷ codes "b c" ∷ []

prepare_multiline_text-terminated_example :
    prepare_multiline_text ascii_size limits (terminated both two_lines) tinymush
    ≡ prepare_emit_lines ascii_size limits two_lines tinymush
unfolding Lacks contains
prepare_multiline_text-terminated_example =
    prepare_multiline_text-terminated ascii_size limits both two_lines tinymush
      ((refl, refl), ((refl, refl), tt))
