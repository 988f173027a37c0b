-- ===== src/Session/LoginName.antt =====
-- The login command of _send_startup, src/tfr/sessions.py, as _LOGIN_COMMAND of src/tfr/events.py
-- reads it.
use tfr.Base.{
  ℕ, ◌≡◌, refl, Bool, true, false, not, ◌||◌, some, List, [], ◌∷◌, ◌++◌, ◌==◌, codes, arith,
  Bool-cases, inl, inr,
}
use tfr.Events.Patterns.{
  login_prefix, any_spaces, some_spaces, gap, gap_rest, after_word, same_letter, put, put_pair,
  put_all, or_else, login_word, login_rest, name, quoted_name, quoted_gap, after_quote, bare_name,
  bare_rest,
}
use tfr.Session.Running.{has_space, quoted}

-- What str.isspace says of the characters that the session itself puts into the command.
pub record AsciiSpaces (is_space : ℕ → Bool) : Type 0 where
  pub space : is_space 0x20 ≡ true
  pub letter : is_space b'c' ≡ false
  pub quote : is_space 0x22 ≡ false

-- A text that is not empty and does not begin with white space, or with a quote.
abbrev pub begins_visibly : (ℕ → Bool) → List ℕ → Bool
begins_visibly is_space [] = false
begins_visibly is_space (c ∷ t) = not (is_space c)

abbrev pub begins_bare : List ℕ → Bool
begins_bare [] = false
begins_bare (c ∷ t) = not (c == 0x22 || c == 0x27)

module _ (is_space : ℕ → Bool) (a : AsciiSpaces is_space) where
  gap_lem :
      (password : List ℕ)
      → begins_visibly is_space password ≡ true
      → gap is_space (0x20 ∷ password) ≡ some (0x20 ∷ [])
  unfolding gap gap_rest put
  gap_lem [] h = absurd (ground arith)
  gap_lem (c ∷ t) h = let visible : is_space c ≡ false = ground arith in rw (a.space, visible) refl

  bare_rest_lem :
      (t password : List ℕ)
      → has_space is_space t ≡ false
      → begins_visibly is_space password ≡ true
      → bare_rest is_space (t ++ 0x20 ∷ password) ≡ some (t ++ 0x20 ∷ [])
  unfolding bare_rest put
  bare_rest_lem [] password n h = rw a.space (gap_lem password h)
  bare_rest_lem (c ∷ t) password n h =
      let visible : is_space c ≡ false = ground arith in
      let rest : has_space is_space t ≡ false = ground arith in
      rw (visible, bare_rest_lem t password rest h) refl

  pub bare_name_lem :
      (c : ℕ) (t password : List ℕ)
      → has_space is_space (c ∷ t) ≡ false
      → (c == 0x22 || c == 0x27) ≡ false
      → begins_visibly is_space password ≡ true
      → name is_space (c ∷ (t ++ 0x20 ∷ password)) ≡ some (c ∷ (t ++ 0x20 ∷ []))
  unfolding name quoted_name bare_name or_else put
  bare_name_lem c t password n q h =
      let visible : is_space c ≡ false = ground arith in
      let rest : has_space is_space t ≡ false = ground arith in
      rw (q, visible, bare_rest_lem t password rest h) refl

  -- The escapes of a quoted name are read as it was.
  after_quote-quoted :
      (character rest : List ℕ)
      → after_quote 0x22 false (quoted character ++ 0x22 ∷ rest)
        ≡ some (quoted character ++ 0x22 ∷ [], rest)
  unfolding after_quote put_pair
  after_quote-quoted [] rest = refl
  after_quote-quoted (c ∷ character) rest = elim (Bool-cases (c == 0x5c || c == 0x22)) [
    | inl e ↦ rw (e, after_quote-quoted character rest) refl
    | inr e ↦
        let not_quote : (c == 0x22) ≡ false = ground arith in
        let not_escape : (c == 0x5c) ≡ false = ground arith in
        rw (e, not_quote, not_escape, after_quote-quoted character rest) refl
  ]

  pub quoted_name_lem :
      (character password : List ℕ)
      → begins_visibly is_space password ≡ true
      → name is_space (0x22 ∷ (quoted character ++ 0x22 ∷ 0x20 ∷ password))
        ≡ some (0x22 ∷ ((quoted character ++ 0x22 ∷ []) ++ 0x20 ∷ []))
  unfolding name quoted_name quoted_gap or_else put put_all
  quoted_name_lem character password h =
      rw (after_quote-quoted character (0x20 ∷ password), gap_lem password h) refl

  pub login_prefix_lem :
      (c : ℕ) (t shown : List ℕ)
      → is_space c ≡ false
      → name is_space (c ∷ t) ≡ some shown
      → login_prefix is_space (codes "connect " ++ c ∷ t) ≡ some (codes "connect " ++ shown)
  unfolding login_prefix any_spaces some_spaces login_word login_rest after_word same_letter put
      put_pair put_all or_else
  login_prefix_lem c t shown v n = rw (a.letter, a.space, v, n) refl
