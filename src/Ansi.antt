-- ===== src/Ansi.antt =====
-- src/tfr/ansi.py: text with terminal control sequences, as tokens. Characters are code points. The
-- functions on a text and an index work on what stands from the index on, and return how many
-- characters a control sequence takes there.
pub mod Endings
pub mod Tokens
pub mod Visible
pub mod Slices
pub mod Safety
pub mod Examples
use tfr.Base.{
  ℕ, zero, suc, ◌+◌, ◌≤◌, Bool, true, false, ◌&&◌, ◌||◌, not, Option, none, some, List, [], ◌∷◌,
  ◌++◌, map, ltb, leb, ◌==◌, if◌then◌else◌, Result, ok, err, length, take, drop, text_eq,
}

pub record AnsiToken : Type 0 where
  pub text : List ℕ
  pub control : Bool

-- ESC \ behind an ESC.
backslash_next : List ℕ → Bool
backslash_next [] = false
backslash_next (d ∷ rest) = d == 0x5c

unfoldable pub terminated_control_length : List ℕ → ℕ
unfolding backslash_next
terminated_control_length [] = 0
terminated_control_length (c ∷ rest) =
    let more = suc (terminated_control_length rest) in
    if c == 0x07 || c == 0x9c then 1 else if c == 0x1b && backslash_next rest then 2 else more

unfoldable pub csi_length : List ℕ → ℕ
csi_length [] = 0
csi_length (c ∷ rest) =
    let more = suc (csi_length rest) in if leb 0x40 c && leb c 0x7e then 1 else more

-- The characters "]PX^_".
introduces_string : ℕ → Bool
introduces_string c = c == 0x5d || (c == 0x50 || (c == 0x58 || (c == 0x5e || c == 0x5f)))

-- The characters "\x90\x98\x9d\x9e\x9f".
is_string_control : ℕ → Bool
is_string_control c = c == 0x90 || (c == 0x98 || (c == 0x9d || (c == 0x9e || c == 0x9f)))

unfoldable pub escape_rest : List ℕ → ℕ
unfolding introduces_string
escape_rest [] = 0
escape_rest (introducer ∷ rest) =
    if introducer == 0x5b
    then suc (csi_length rest)
    else if introduces_string introducer
    then suc (terminated_control_length rest)
    else 1

-- _control_end: the characters behind c that belong to its control sequence, if it starts one.
unfoldable pub control_rest : ℕ → List ℕ → Option ℕ
unfolding is_string_control
control_rest c rest =
    if c == 0x1b
    then some (escape_rest rest)
    else if c == 0x9b
    then some (csi_length rest)
    else if is_string_control c
    then some (terminated_control_length rest)
    else if c == 0x9c
    then some 0
    else none

abbrev pub control_token : List ℕ → AnsiToken
control_token text = record { text = text; control = true }

abbrev pub visible_token : ℕ → AnsiToken
visible_token c = record { text = c ∷ []; control = false }

-- The loop of project_ansi. Each round takes a character, so the length of the text is fuel enough.
unfoldable pub tokens_from : ℕ → List ℕ → List AnsiToken
tokens_from zero text = []
tokens_from (suc fuel) [] = []
tokens_from (suc fuel) (c ∷ rest) = elim (control_rest c rest) [
  | some n ↦ control_token (c ∷ take n rest) ∷ tokens_from fuel (drop n rest)
  | none ↦ visible_token c ∷ tokens_from fuel rest
]

unfoldable pub tokens : List ℕ → List AnsiToken
tokens text = tokens_from (length text) text

abbrev pub texts : List AnsiToken → List ℕ
texts [] = []
texts (t ∷ ts) = t.text ++ texts ts

-- The plain text of a projection.
abbrev pub plain_of : List AnsiToken → List ℕ
plain_of [] = []
plain_of (t ∷ ts) = if t.control then plain_of ts else t.text ++ plain_of ts

unfoldable pub plain : List ℕ → List ℕ
plain text = plain_of (tokens text)

-- raw_boundaries: where each visible offset starts in the raw text, behind the controls before it.
-- `index` is where the tokens start, and the control's end replaces the last boundary.
unfoldable pub boundaries : ℕ → List AnsiToken → List ℕ
boundaries index [] = index ∷ []
boundaries index (t ∷ ts) =
    let rest = boundaries (index + length t.text) ts in if t.control then rest else index ∷ rest

unfoldable pub raw_boundaries : List ℕ → List ℕ
raw_boundaries text = boundaries 0 (tokens text)

pub data Error : Type 0 where
  outside : Error

-- The loop of remove_visible_prefix, with the visible characters still to be removed.
unfoldable pub without_prefix : ℕ → List AnsiToken → List AnsiToken
without_prefix n [] = []
without_prefix zero (t ∷ ts) = t ∷ without_prefix zero ts
without_prefix (suc n) (t ∷ ts) =
    let kept = t ∷ without_prefix (suc n) ts in
    let removed = without_prefix n ts in if t.control then kept else removed

unfoldable pub remove_visible_prefix : List ℕ → ℕ → Result Error (List ℕ)
unfolding without_prefix
remove_visible_prefix text n =
    if leb n (length (plain text)) then ok (texts (without_prefix n (tokens text))) else err outside

-- The loop of visible_slice from a visible offset on: controls stay before the end, characters from
-- the start to the end.
unfoldable pub slice_from : ℕ → ℕ → ℕ → List AnsiToken → List AnsiToken
slice_from offset start end [] = []
slice_from offset start end (t ∷ ts) =
    let control =
      (let rest = slice_from offset start end ts in if ltb offset end then t ∷ rest else rest) in
    let visible =
      (let rest = slice_from (suc offset) start end ts in
        if leb start offset && ltb offset end then t ∷ rest else rest) in
    if t.control then control else visible

unfoldable pub visible_slice : List ℕ → ℕ → ℕ → Result Error (List ℕ)
visible_slice text start end =
    if leb start end && leb end (length (plain text))
    then ok (texts (slice_from 0 start end (tokens text)))
    else err outside

-- _SAFE_SGR: ESC [ or CSI, at most 64 digits, semicolons and colons, and an m.
parameters_then_m : ℕ → List ℕ → Bool
parameters_then_m left [] = false
parameters_then_m zero (c ∷ rest) = c == 0x6d && text_eq rest []
parameters_then_m (suc left) (c ∷ rest) =
    let more = parameters_then_m left rest in
    if leb 0x30 c && leb c 0x3b then more else c == 0x6d && text_eq rest []

after_escape : List ℕ → Bool
after_escape [] = false
after_escape (c ∷ rest) = c == 0x5b && parameters_then_m 64 rest

unfoldable pub is_safe_sgr : List ℕ → Bool
unfolding parameters_then_m after_escape text_eq
is_safe_sgr [] = false
is_safe_sgr (c ∷ rest) =
    if c == 0x1b then after_escape rest else c == 0x9b && parameters_then_m 64 rest

-- Characters that a terminal may be given: line ends, tabs and what is no control character.
unfoldable pub is_safe_character : ℕ → Bool
is_safe_character c =
    c == 0x0d || (c == 0x0a || (c == 0x09 || (leb 0x20 c && not (leb 0x7f c && leb c 0x9f))))

all_safe : List ℕ → Bool
all_safe [] = true
all_safe (c ∷ rest) = is_safe_character c && all_safe rest

unfoldable pub is_safe_token : AnsiToken → Bool
unfolding all_safe
is_safe_token t = if t.control then is_safe_sgr t.text else all_safe t.text

unfoldable pub safe_tokens : List AnsiToken → List AnsiToken
safe_tokens [] = []
safe_tokens (t ∷ ts) = let rest = safe_tokens ts in if is_safe_token t then t ∷ rest else rest

-- The text that safe_ansi_formatted_text hands to the terminal library.
unfoldable pub safe_raw : List ℕ → List ℕ
safe_raw text = texts (safe_tokens (tokens text))
