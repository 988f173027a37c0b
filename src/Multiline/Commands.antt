-- ===== src/Multiline/Commands.antt =====
-- prepare_multiline_text of src/tfr/multiline.py: what its commands are and what it lets pass.
use tfr.Base.{
  ℕ, suc, ◌≤◌, ◌<◌, ◌≡◌, refl, sym, ap, true, false, Option, none, some, List, [], ◌∷◌, ◌++◌, map,
  arith, ltb, ◌==◌, if◌then◌else◌, Bool-cases, inl, inr, contains, All, length, Result, ok, err,
  ◌>>=◌, codes,
}
use mathlib.Core.Path.{subst}
use tfr.WorldText
use tfr.WorldText.{Server, escape_character, escape_all, escape_world_text, is_escaped}
use tfr.Multiline.{
  PreparedMultiline, Limits, Error, join_lines, utf8_size, emit_command, emit_commands, supported,
  check_sizes, checked_commands, prepare_emit_lines, prepare_multiline_text, too_many_bytes,
  too_many_lines, not_encoded, command_too_long,
}
use tfr.Multiline.Utf8.{encoded, utf8_size-encoded}
use tfr.Multiline.Lines.{
  Lacks, LineEnd, terminated, IsLine, lines_of, lines_of-terminated, lines_of-IsLine, Lacks-append,
  join_lines-All,
}

-- The line as the world's server gets it.
abbrev pub escaped : Server → List ℕ → List ℕ
escaped WorldText.bare line = line
escaped server line = escape_all server line

abbrev pub emitted : Server → List ℕ → List ℕ
emitted server line = codes "@emit " ++ escaped server line

emit_command-ok :
    (server : Server) (line : List ℕ)
    → supported server ≡ true
    → emit_command server line ≡ ok (emitted server line)
unfolding emit_command escape_world_text
emit_command-ok WorldText.bare line h = refl
emit_command-ok WorldText.tinymush line h = refl
emit_command-ok WorldText.tinymux line h = refl
emit_command-ok (WorldText.other name) line h = absurd (ground arith)

emit_commands-ok :
    (server : Server) (lines : List (List ℕ))
    → supported server ≡ true
    → emit_commands server lines ≡ ok (map (emitted server) lines)
unfolding emit_commands
emit_commands-ok server [] h = refl
emit_commands-ok server (line ∷ lines) h =
    simp (emit_commands-ok server lines h, emit_command-ok server line h)

Lacks-escape_character :
    (x : ℕ) (server : Server) (c : ℕ)
    → x < 0x20
    → (c == x) ≡ false
    → Lacks x (escape_character server c)
unfolding Lacks contains escape_character
Lacks-escape_character x server c h k = elim (Bool-cases (is_escaped server c)) [
  | inl e ↦ rw e (ground arith)
  | inr e ↦ rw e (ground arith)
]

Lacks-escape_all :
    (x : ℕ) (server : Server) (line : List ℕ)
    → x < 0x20
    → Lacks x line
    → Lacks x (escape_all server line)
unfolding Lacks contains
Lacks-escape_all x server [] h k = refl
Lacks-escape_all x server (c ∷ line) h k =
    Lacks-append x (escape_character server c) (escape_all server line)
      (Lacks-escape_character x server c h (ground arith))
      (Lacks-escape_all x server line h (ground arith))

Lacks-prompt : (x : ℕ) → x < 0x20 → Lacks x (codes "@emit ")
unfolding Lacks contains
Lacks-prompt x h = ground arith

Lacks-escaped :
    (x : ℕ) (server : Server) (line : List ℕ)
    → x < 0x20
    → Lacks x line
    → Lacks x (escaped server line)
Lacks-escaped x WorldText.bare line h k = k
Lacks-escaped x WorldText.tinymush line h k = Lacks-escape_all x WorldText.tinymush line h k
Lacks-escaped x WorldText.tinymux line h k = Lacks-escape_all x WorldText.tinymux line h k
Lacks-escaped x (WorldText.other name) line h k = Lacks-escape_all x (WorldText.other name) line h k

Lacks-emitted :
    (x : ℕ) (server : Server) (line : List ℕ)
    → x < 0x20
    → Lacks x line
    → Lacks x (emitted server line)
Lacks-emitted x server line h k =
    Lacks-append x (codes "@emit ") (escaped server line) (Lacks-prompt x h)
      (Lacks-escaped x server line h k)

-- A command that is one line for the server.
abbrev pub IsOneLine : List ℕ → Type 0
IsOneLine command = Lacks 0x0a command × Lacks 0x0d command × Lacks 0 command

emitted-IsOneLine :
    (server : Server) (lines : List (List ℕ))
    → All IsLine lines
    → All (Lacks 0) lines
    → All IsOneLine (map (emitted server) lines)
emitted-IsOneLine server [] h k = tt
emitted-IsOneLine server (line ∷ lines) h k = (
  (
    Lacks-emitted 0x0a server line (omega arith) h.0.0,
    Lacks-emitted 0x0d server line (omega arith) h.0.1,
    Lacks-emitted 0 server line (omega arith) k.0,
  ),
  emitted-IsOneLine server lines h.1 k.1,
)

module _ (encoded_size : List ℕ → Option ℕ) (limits : Limits) where
  -- A command that can be encoded within the limit.
  abbrev pub Fits : List ℕ → Type 0
  Fits command =
      (size : ℕ) × (encoded_size command ≡ some size) × (size ≤ limits.maximum_command_bytes)

  size_checked :
      (o : Option ℕ) (number : ℕ) (rest : Result Error (Unit {0})) (u : Unit {0})
      → (elim o as (λ x. Result Error (Unit {0})) [
        | none ↦ err (not_encoded number)
        | some size ↦
            if ltb limits.maximum_command_bytes size then err (command_too_long number) else rest
      ])
        ≡ ok u
      → ((size : ℕ) × (o ≡ some size) × (size ≤ limits.maximum_command_bytes)) × (rest ≡ ok u)
  size_checked none number rest u h = absurd (ground arith)
  size_checked (some size) number rest u h =
      elim (Bool-cases (ltb limits.maximum_command_bytes size)) [
        | inl e ↦ absurd (ground arith)
        | inr e ↦ ((size, refl, ground arith), ground arith)
      ]

  check_sizes-Fits :
      (number : ℕ) (commands : List (List ℕ)) (u : Unit {0})
      → check_sizes encoded_size limits number commands ≡ ok u
      → All Fits commands
  unfolding check_sizes
  check_sizes-Fits number [] u h = tt
  check_sizes-Fits number (command ∷ commands) u h =
      let (fits, rest) =
        size_checked (encoded_size command) number
          (check_sizes encoded_size limits (suc number) commands) u h in
      (fits, check_sizes-Fits (suc number) commands u rest)

  -- What prepare_emit_lines promises of its result for lines.
  abbrev pub Prepared : List (List ℕ) → Server → PreparedMultiline → Type 0
  Prepared lines server p =
      (p.commands ≡ map (emitted server) lines)
      × All Fits p.commands
      × (p.line_count ≡ length p.commands)
      × (p.source_bytes ≡ length (encoded (join_lines lines)))
      × (p.source_bytes ≤ limits.maximum_source_bytes)
      × (length lines ≤ limits.maximum_lines)

  checked_commands-Prepared :
      (lines : List (List ℕ)) (server : Server) (bytes : ℕ) (p : PreparedMultiline)
      (o : Result Error (Unit {0}))
      → check_sizes encoded_size limits 1 (map (emitted server) lines) ≡ o
      → (elim o as (λ x. Result Error PreparedMultiline) [
        | err e ↦ err e
        | ok checked ↦ ok (record {
          commands = map (emitted server) lines;
          line_count = length (map (emitted server) lines);
          source_bytes = bytes;
        })
      ])
        ≡ ok p
      → bytes ≡ length (encoded (join_lines lines))
      → bytes ≤ limits.maximum_source_bytes
      → length lines ≤ limits.maximum_lines
      → Prepared lines server p
  checked_commands-Prepared lines server bytes p (err e) f h b k m = absurd (ground arith)
  checked_commands-Prepared lines server bytes p (ok u) f h b k m =
      let q : PreparedMultiline = record {
        commands = map (emitted server) lines;
        line_count = length (map (emitted server) lines);
        source_bytes = bytes;
      } in
      let same : q ≡ p = cc in
      let fits = check_sizes-Fits 1 (map (emitted server) lines) u f in
      subst (Prepared lines server) same (refl, fits, refl, b, k, m)

  bytes_counted :
      (lines : List (List ℕ)) (server : Server) (size : Result Error ℕ) (p : PreparedMultiline)
      → supported server ≡ true
      → ((n : ℕ) → size ≡ ok n → n ≡ length (encoded (join_lines lines)))
      → (size >>= (λ source_bytes.
          if ltb limits.maximum_source_bytes source_bytes
          then err too_many_bytes
          else if ltb limits.maximum_lines (length lines)
          then err too_many_lines
          else emit_commands server lines
            >>= (λ commands. checked_commands encoded_size limits commands source_bytes)))
        ≡ ok p
      → Prepared lines server p
  unfolding checked_commands
  bytes_counted lines server (err e) p s b = λ h. absurd (ground arith)
  bytes_counted lines server (ok bytes) p s b =
      elim (Bool-cases (ltb limits.maximum_source_bytes bytes)) [
        | inl e ↦ rw e (λ h. absurd (ground arith))
        | inr e ↦ elim (Bool-cases (ltb limits.maximum_lines (length lines))) [
          | inl f ↦ rw (e, f) (λ h. absurd (ground arith))
          | inr f ↦
              rw (e, f, emit_commands-ok server lines s)
                (λ h.
                  checked_commands-Prepared lines server bytes p
                    (check_sizes encoded_size limits 1 (map (emitted server) lines)) refl h
                    (b bytes refl) (ground arith) (ground arith))
        ]
      ]

  prepare_emit_lines-Prepared :
      (lines : List (List ℕ)) (server : Server) (p : PreparedMultiline)
      → prepare_emit_lines encoded_size limits lines server ≡ ok p
      → Prepared lines server p × (supported server ≡ true) × Lacks 0 (join_lines lines)
  unfolding prepare_emit_lines checked_commands Lacks
  prepare_emit_lines-Prepared lines server p = elim (Bool-cases (supported server)) [
    | inr e ↦ rw e (λ h. absurd (ground arith))
    | inl e ↦ elim (Bool-cases (contains 0 (join_lines lines))) [
      | inl f ↦ rw (e, f) (λ h. absurd (ground arith))
      | inr f ↦
          rw (e, f)
            (λ h. (
              bytes_counted lines server (utf8_size (join_lines lines)) p e
                  (utf8_size-encoded (join_lines lines)) h,
              refl,
              refl,
            ))
    ]
  ]

  -- Text that is prepared is the lines it has, in order, each in a command that is one line without
  -- a NUL and fits in the limit once it is encoded. The byte count it carries is the number of bytes of
  -- the lines in UTF-8, joined by line feeds; that number and the number of lines are within their
  -- limits.
  pub prepare_multiline_text-Prepared :
      (text : List ℕ) (server : Server) (p : PreparedMultiline)
      → prepare_multiline_text encoded_size limits text server ≡ ok p
      → Prepared (lines_of text) server p × All IsOneLine p.commands
  unfolding prepare_multiline_text
  prepare_multiline_text-Prepared text server p h =
      let (prepared, known, no_nul) = prepare_emit_lines-Prepared (lines_of text) server p h in
      let one_line =
        emitted-IsOneLine server (lines_of text) (lines_of-IsLine text)
          (join_lines-All 0 (lines_of text) no_nul) in
      (prepared, subst (All IsOneLine) (sym prepared.0) one_line)

  -- Lines that have no line end in them are prepared as they are, whichever of the three line ends
  -- is put behind each of them.
  pub prepare_multiline_text-terminated :
      (e : LineEnd) (lines : List (List ℕ)) (server : Server)
      → All IsLine lines
      → prepare_multiline_text encoded_size limits (terminated e lines) server
        ≡ prepare_emit_lines encoded_size limits lines server
  unfolding prepare_multiline_text
  prepare_multiline_text-terminated e lines server h =
      ap (λ l. prepare_emit_lines encoded_size limits l server) (lines_of-terminated e lines h)
