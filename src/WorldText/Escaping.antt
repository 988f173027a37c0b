-- ===== src/WorldText/Escaping.antt =====
-- escape_world_text of src/tfr/world_text.py: the escapes can be taken back.
use tfr.Base.{
  ℕ, ◌≡◌, refl, ap, ◌∙◌, Bool, true, false, ◌||◌, Option, none, some, List, [], ◌∷◌, ◌++◌, arith,
  ◌==◌, sym, contains, codes, if◌then◌else◌, Bool-cases, inl, inr, ok,
}
use tfr.WorldText.{
  Server, bare, tinymush, tinymux, other, is_escaped, escape_character, escape_all,
  escape_world_text,
}

-- What is read before the next character.
pub data Reading : Type 0 where
  in_text behind_backslash behind_percent : Reading

abbrev pub cons_some : ℕ → Option (List ℕ) → Option (List ℕ)
cons_some c none = none
cons_some c (some text) = some (c ∷ text)

-- The characters to escape, written out once more.
unfoldable pub specials : Server → List ℕ
specials tinymush = codes "%;[]{}" ++ 0x5c ∷ []
specials tinymux = codes "[]{}(),;#%" ++ 0x5c ∷ []
specials _ = []

-- The text whose escapes these are: a backslash before a character stands for that character, %b for
-- a space and %t for a tab. There is none when a special character, a space or a tab stands alone.
unfoldable pub unescape : Server → Reading → List ℕ → Option (List ℕ)
unescape server in_text [] = some []
unescape server behind_backslash [] = none
unescape server behind_percent [] = none
unescape server in_text (c ∷ rest) =
    let escaped = unescape server behind_backslash rest in
    let substituted = unescape server behind_percent rest in
    let more = unescape server in_text rest in
    if c == 0x5c
    then escaped
    else if c == b'%'
    then substituted
    else if contains c (specials server) || (c == 0x20 || c == 0x09)
    then none
    else cons_some c more
unescape server behind_backslash (c ∷ rest) = cons_some c (unescape server in_text rest)
unescape server behind_percent (c ∷ rest) =
    let more = unescape server in_text rest in
    if c == b'b' then cons_some 0x20 more else if c == b't' then cons_some 0x09 more else none

-- tinymush and tinymux, whose texts are escaped.
abbrev pub is_softcode : Server → Bool
is_softcode bare = false
is_softcode tinymush = true
is_softcode tinymux = true
is_softcode (other name) = false

is_escaped-specials : (server : Server) (c : ℕ) → is_escaped server c ≡ contains c (specials server)
unfolding is_escaped contains specials
is_escaped-specials bare c = refl
is_escaped-specials tinymush c = ground arith
is_escaped-specials tinymux c = ground arith
is_escaped-specials (other name) c = refl

special_percent : (server : Server) → is_softcode server ≡ true → is_escaped server b'%' ≡ true
unfolding is_escaped
special_percent bare h = absurd (ground arith)
special_percent tinymush h = refl
special_percent tinymux h = refl
special_percent (other name) h = absurd (ground arith)

special_backslash : (server : Server) → is_softcode server ≡ true → is_escaped server 0x5c ≡ true
unfolding is_escaped
special_backslash bare h = absurd (ground arith)
special_backslash tinymush h = refl
special_backslash tinymux h = refl
special_backslash (other name) h = absurd (ground arith)

not_special :
    (server : Server) (x c : ℕ)
    → is_escaped server x ≡ true
    → is_escaped server c ≡ false
    → (c == x) ≡ false
not_special server x c h k = elim (Bool-cases (c == x)) [
  | inl e ↦
      let same : c ≡ x = ground arith in
      (let fact : is_escaped server c ≡ true = ap (is_escaped server) same ∙ h in
        absurd (ground arith))
  | inr e ↦ e
]

unescape-escape_character :
    (server : Server) (c : ℕ) (rest : List ℕ)
    → is_softcode server ≡ true
    → unescape server in_text (escape_character server c ++ rest)
      ≡ cons_some c (unescape server in_text rest)
unfolding unescape escape_character
unescape-escape_character server c rest h =
    let percent = special_percent server h in
    let backslash = special_backslash server h in
    elim (Bool-cases (c == 0x20)) [
      | inl e ↦
          (let space : 0x20 ≡ c = ground arith in
            rw e (ap (λ k. cons_some k (unescape server in_text rest)) space))
      | inr e ↦ elim (Bool-cases (c == 0x09)) [
        | inl f ↦
            (let tab : 0x09 ≡ c = ground arith in
              rw (e, f) (ap (λ k. cons_some k (unescape server in_text rest)) tab))
        | inr f ↦ elim (Bool-cases (is_escaped server c)) [
          | inl g ↦ rw (e, f, g) refl
          | inr g ↦
              rw
                (
                  e,
                  f,
                  g,
                  not_special server 0x5c c backslash g,
                  not_special server b'%' c percent g,
                  sym (is_escaped-specials server c) ∙ g,
                  e,
                  f,
                )
                refl
        ]
      ]
    ]

unescape-escape_all :
    (server : Server) (text : List ℕ)
    → is_softcode server ≡ true
    → unescape server in_text (escape_all server text) ≡ some text
unfolding unescape
unescape-escape_all server [] h = refl
unescape-escape_all server (c ∷ text) h =
    unescape-escape_character server c (escape_all server text) h
    ∙ ap (cons_some c) (unescape-escape_all server text h)

-- For tinymush and tinymux every text is escaped, and taking the escapes back gives exactly that
-- text; no special character of the server, space or tab stands in it without its escape.
pub unescape-escape_world_text :
    (server : Server) (text : List ℕ)
    → is_softcode server ≡ true
    → (raw : List ℕ) × ((escape_world_text text server ≡ ok raw)
        × (unescape server in_text raw ≡ some text))
unfolding escape_world_text
unescape-escape_world_text bare text h = absurd (ground arith)
unescape-escape_world_text tinymush text h =
    (escape_all tinymush text, (refl, unescape-escape_all tinymush text h))
unescape-escape_world_text tinymux text h =
    (escape_all tinymux text, (refl, unescape-escape_all tinymux text h))
unescape-escape_world_text (other name) text h = absurd (ground arith)
