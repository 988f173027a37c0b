-- ===== src/Events/Patterns.antt =====
-- _LOGIN_COMMAND and _PASSWORD_COMMAND of src/tfr/events.py. Each definition is the match of a part of
-- a pattern, the greedy choice first: it gives what the rest of the pattern's group matches, or none.
-- A test tells white space, \s; the case of letters is ignored as re does it, also for the long s.
use tfr.Base.{
  ℕ, Bool, true, false, ◌||◌, ◌&&◌, Option, none, some, List, [], ◌∷◌, ◌++◌, ◌+◌, leb, ◌==◌,
  if◌then◌else◌, codes,
}

unfoldable pub put : ℕ → Option (List ℕ) → Option (List ℕ)
put c none = none
put c (some t) = some (c ∷ t)

unfoldable pub put_pair : ℕ → Option (List ℕ × List ℕ) → Option (List ℕ × List ℕ)
put_pair c none = none
put_pair c (some (t, rest)) = some (c ∷ t, rest)

unfoldable pub put_all : List ℕ → Option (List ℕ) → Option (List ℕ)
put_all matched none = none
put_all matched (some t) = some (matched ++ t)

unfoldable pub or_else : Option (List ℕ) → Option (List ℕ) → Option (List ℕ)
or_else none other = other
or_else (some t) other = some t

-- A letter of a pattern, and a character that it matches.
unfoldable pub same_letter : ℕ → ℕ → Bool
same_letter w c = c == w || (leb b'a' w && (c + 32 == w || w == b's' && c == 0x17f))

-- A word of a pattern, and what stands behind it.
unfoldable pub after_word : List ℕ → List ℕ → Option (List ℕ × List ℕ)
after_word [] t = some ([], t)
after_word (w ∷ word) [] = none
after_word (w ∷ word) (c ∷ t) =
    let more = after_word word t in if same_letter w c then put_pair c more else none

-- "(?:[^"\\]|\\.)*" from behind the opening quote, and whether a backslash stands before: the match
-- with its closing quote, and what stands behind it.
unfoldable pub after_quote : ℕ → Bool → List ℕ → Option (List ℕ × List ℕ)
after_quote quote escaped [] = none
after_quote quote true (c ∷ t) = put_pair c (after_quote quote false t)
after_quote quote false (c ∷ t) =
    let more = after_quote quote false t in
    let escape = after_quote quote true t in
    if c == quote
    then some (c ∷ [], t)
    else if c == 0x5c
    then put_pair c escape
    else put_pair c more

module _ (is_space : ℕ → Bool) where
  -- \s* and \s+
  unfoldable pub any_spaces : (List ℕ → Option (List ℕ)) → List ℕ → Option (List ℕ)
  any_spaces next [] = next []
  any_spaces next (c ∷ t) =
      let more = any_spaces next t in if is_space c then put c more else next (c ∷ t)

  unfoldable pub some_spaces : (List ℕ → Option (List ℕ)) → List ℕ → Option (List ℕ)
  some_spaces next [] = none
  some_spaces next (c ∷ t) = if is_space c then put c (any_spaces next t) else none

  -- \s+ before .+$, which needs a character: white space at the end of the text is left to it.
  unfoldable pub gap_rest : List ℕ → Option (List ℕ)
  gap_rest [] = none
  gap_rest (c ∷ t) =
      let more = gap_rest t in if is_space c then or_else (put c more) (some []) else some []

  unfoldable pub gap : List ℕ → Option (List ℕ)
  gap [] = none
  gap (c ∷ t) = if is_space c then put c (gap_rest t) else none

  -- A name in quotes, and \S+, each with the gap.
  unfoldable pub quoted_gap : ℕ → Option (List ℕ × List ℕ) → Option (List ℕ)
  quoted_gap c none = none
  quoted_gap c (some (t, rest)) = put c (put_all t (gap rest))

  unfoldable pub quoted_name : List ℕ → Option (List ℕ)
  quoted_name [] = none
  quoted_name (c ∷ t) =
      if c == 0x22 || c == 0x27 then quoted_gap c (after_quote c false t) else none

  unfoldable pub bare_rest : List ℕ → Option (List ℕ)
  bare_rest [] = none
  bare_rest (c ∷ t) = let more = bare_rest t in if is_space c then gap (c ∷ t) else put c more

  unfoldable pub bare_name : List ℕ → Option (List ℕ)
  bare_name [] = none
  bare_name (c ∷ t) = if is_space c then none else put c (bare_rest t)

  unfoldable pub name : List ℕ → Option (List ℕ)
  name t = or_else (quoted_name t) (bare_name t)

  unfoldable pub login_rest : Option (List ℕ × List ℕ) → Option (List ℕ)
  login_rest none = none
  login_rest (some (matched, rest)) = put_all matched (some_spaces name rest)

  unfoldable pub login_word : List ℕ → Option (List ℕ)
  login_word t = or_else (login_rest (after_word (codes "connect") t)) (
      or_else (login_rest (after_word (codes "co") t)) (login_rest (after_word (codes "create") t)))

  -- The group prefix of _LOGIN_COMMAND.
  unfoldable pub login_prefix : List ℕ → Option (List ℕ)
  login_prefix t = any_spaces login_word t

  -- (?:\s+|=)
  unfoldable pub command_end : Option (List ℕ × List ℕ) → Option (List ℕ)
  command_end none = none
  command_end (some (matched, [])) = none
  command_end (some (matched, c ∷ rest)) = if is_space c || c == b'=' then some matched else none

  -- The group command of _PASSWORD_COMMAND.
  unfoldable pub password_command : List ℕ → Option (List ℕ)
  password_command [] = none
  password_command (c ∷ t) =
      let more = password_command t in
      if is_space c
      then more
      else or_else (command_end (after_word (codes "@password") (c ∷ t)))
          (command_end (after_word (codes "@newpassword") (c ∷ t)))
