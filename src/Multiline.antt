-- ===== src/Multiline.antt =====
-- src/tfr/multiline.py: several lines of input as one command each. A text is a list of code points.
-- The codec of the world's encoding is a parameter: the number of bytes of a text that can be encoded.
pub mod Lines
pub mod Utf8
pub mod Commands
pub mod Examples
use tfr.Base.{
  ℕ, suc, ◌+◌, Bool, not, true, false, ◌&&◌, Option, none, some, List, [], ◌∷◌, ◌++◌, ltb, leb,
  ◌==◌, if◌then◌else◌, Result, ok, err, ◌>>=◌, length, contains, codes,
}
use tfr.WorldText
use tfr.WorldText.{Server, escape_world_text}

pub record PreparedMultiline : Type 0 where
  pub commands : List (List ℕ)
  pub line_count : ℕ
  pub source_bytes : ℕ

pub data Error : Type 0 where
  unsupported_server nul_character not_utf8 too_many_bytes too_many_lines : Error
  -- with the number of the line
  not_encoded : ℕ → Error
  command_too_long : ℕ → Error

pub record Limits : Type 0 where
  pub maximum_source_bytes : ℕ
  pub maximum_lines : ℕ
  pub maximum_command_bytes : ℕ

-- text.replace("\r\n", "\n"): a carriage return goes if a line feed follows.
starts_with_newline : List ℕ → Bool
starts_with_newline [] = false
starts_with_newline (c ∷ rest) = c == 0x0a

unfoldable pub replace_crlf : List ℕ → List ℕ
unfolding starts_with_newline
replace_crlf [] = []
replace_crlf (c ∷ rest) =
    let more = replace_crlf rest in if c == 0x0d && starts_with_newline rest then more else c ∷ more

-- text.replace("\r", "\n")
unfoldable pub replace_cr : List ℕ → List ℕ
replace_cr [] = []
replace_cr (c ∷ rest) = (if c == 0x0d then 0x0a else c) ∷ replace_cr rest

abbrev pub cons_first : ℕ → List (List ℕ) → List (List ℕ)
cons_first c [] = (c ∷ []) ∷ []
cons_first c (line ∷ lines) = (c ∷ line) ∷ lines

-- text.split("\n")
unfoldable pub split_lines : List ℕ → List (List ℕ)
split_lines [] = [] ∷ []
split_lines (c ∷ rest) =
    let more = split_lines rest in if c == 0x0a then [] ∷ more else cons_first c more

-- "\n".join(lines)
unfoldable pub join_lines : List (List ℕ) → List ℕ
join_lines [] = []
join_lines (line ∷ []) = line
join_lines (line ∷ next ∷ lines) = line ++ 0x0a ∷ join_lines (next ∷ lines)

-- lines.pop() where the last line is empty
unfoldable pub pop_empty : List (List ℕ) → List (List ℕ)
pop_empty [] = []
pop_empty ([] ∷ []) = []
pop_empty ((c ∷ line) ∷ []) = (c ∷ line) ∷ []
pop_empty (line ∷ next ∷ lines) = line ∷ pop_empty (next ∷ lines)

-- The bytes of a text in UTF-8, which has none for a surrogate.
unfoldable pub utf8_size : List ℕ → Result Error ℕ
utf8_size [] = ok 0
utf8_size (c ∷ rest) = do
  more ← utf8_size rest
  if leb 0xd800 c && leb c 0xdfff
      then err not_utf8
      else ok (
          (if ltb c 0x80 then 1 else if ltb c 0x800 then 2 else if ltb c 0x10000 then 3 else 4)
          + more)

-- "@emit " and the escaped line.
unfoldable pub emit_command : Server → List ℕ → Result WorldText.Error (List ℕ)
emit_command server line = do
  escaped ← escape_world_text line server
  ok (codes "@emit " ++ escaped)

unfoldable pub emit_commands : Server → List (List ℕ) → Result Error (List (List ℕ))
emit_commands server [] = ok []
emit_commands server (line ∷ lines) = do
  rest ← emit_commands server lines
  (elim (emit_command server line) [
    | ok command ↦ ok (command ∷ rest)
    | err e ↦ err unsupported_server
  ])

abbrev pub supported : Server → Bool
supported WorldText.bare = true
supported WorldText.tinymush = true
supported WorldText.tinymux = true
supported (WorldText.other name) = false

module _ (encoded_size : List ℕ → Option ℕ) (limits : Limits) where
  -- The loop over the commands, from a line number on.
  unfoldable pub check_sizes : ℕ → List (List ℕ) → Result Error (Unit {0})
  check_sizes number [] = ok tt
  check_sizes number (command ∷ commands) =
      let rest = check_sizes (suc number) commands in
      elim (encoded_size command) [
        | none ↦ err (not_encoded number)
        | some size ↦
            if ltb limits.maximum_command_bytes size then err (command_too_long number) else rest
      ]

  unfoldable pub checked_commands : List (List ℕ) → ℕ → Result Error PreparedMultiline
  checked_commands commands source_bytes = elim (check_sizes 1 commands) [
    | err e ↦ err e
    | ok checked ↦
        ok (record {
          commands = commands;
          line_count = length commands;
          source_bytes = source_bytes;
        })
  ]

  unfoldable pub prepare_emit_lines : List (List ℕ) → Server → Result Error PreparedMultiline
  prepare_emit_lines lines server =
      let text = join_lines lines in
      if not (supported server)
      then err unsupported_server
      else if contains 0 text
      then err nul_character
      else do
        source_bytes ← utf8_size text
        if ltb limits.maximum_source_bytes source_bytes
            then err too_many_bytes
            else if ltb limits.maximum_lines (length lines)
            then err too_many_lines
            else do commands ← emit_commands server lines; checked_commands commands source_bytes

  unfoldable pub prepare_multiline_text : List ℕ → Server → Result Error PreparedMultiline
  prepare_multiline_text text server =
      prepare_emit_lines (pop_empty (split_lines (replace_cr (replace_crlf text)))) server
