-- ===== src/WorldText.antt =====
-- src/tfr/world_text.py: text that a world's softcode must not interpret. Characters are code points.
pub mod Escaping
pub mod Examples
use tfr.Base.{ℕ, Bool, false, ◌||◌, List, [], ◌∷◌, ◌++◌, ◌==◌, if◌then◌else◌, Result, ok, err}

pub data Server : Type 0 where
  bare tinymush tinymux : Server
  other : List ℕ → Server

pub data Error : Type 0 where
  unsupported_server : Error

-- "%;[]{}\" and "[]{}(),;#%\"
unfoldable pub is_escaped : Server → ℕ → Bool
is_escaped tinymush c =
    c == b'%'
    || (c == b';' || (c == b'[' || (c == b']' || (c == b'{' || (c == b'}' || c == 0x5c)))))
is_escaped tinymux c =
    c == b'['
    || (c == b']'
        || (c == b'{'
            || (c == b'}'
                || (c == b'('
                    || (c == b')'
                        || (c == b','
                            || (c == b';' || (c == b'#' || (c == b'%' || c == 0x5c)))))))))
is_escaped _ c = false

unfoldable pub escape_character : Server → ℕ → List ℕ
escape_character server c =
    if c == 0x20
    then b'%' ∷ b'b' ∷ []
    else if c == 0x09
    then b'%' ∷ b't' ∷ []
    else if is_escaped server c
    then 0x5c ∷ c ∷ []
    else c ∷ []

abbrev pub escape_all : Server → List ℕ → List ℕ
escape_all server [] = []
escape_all server (c ∷ text) = escape_character server c ++ escape_all server text

unfoldable pub escape_world_text : List ℕ → Server → Result Error (List ℕ)
escape_world_text text bare = ok text
escape_world_text text tinymush = ok (escape_all tinymush text)
escape_world_text text tinymux = ok (escape_all tinymux text)
escape_world_text text (other name) = err unsupported_server
