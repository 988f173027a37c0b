-- ===== src/Telnet.antt =====
-- src/tfr/telnet.py: the incremental Telnet codec. Bytes and code points are numbers, the two
-- option sets are lists of numbers, and an assertion or overflow that Python raises is an error.
-- Encoding names are ASCII texts, on which casefold is the lower case.
pub mod Code
pub mod Chunks
pub mod Roundtrip
pub mod Safety
pub mod Negotiation
pub mod Examples
use tfr.Base.{
  ℕ, ◌+◌, ◌/◌, ◌%◌, Bool, true, false, ◌&&◌, ◌||◌, not, Option, none, some, List, [], ◌∷◌, ◌++◌,
  map, ltb, leb, ◌==◌, if◌then◌else◌, contains, discard, Result, ok, err, ◌>>=◌, length, text_eq,
}
use Code.{
  se, sb, will, wont, do_it, dont, iac, echo, suppress_go_ahead, terminal_type as terminal_option,
  naws, charset,
}

pub data NegotiationKind : Type 0 where
  negotiation command subnegotiation : NegotiationKind

pub record TelnetEvent : Type 0 where
  pub kind : NegotiationKind
  pub command : ℕ
  pub option : Option ℕ
  pub payload : List ℕ

-- What one feed hands to its caller.
pub record TelnetResult : Type 0 where
  pub bytes : List ℕ
  pub responses : List (List ℕ)
  pub events : List TelnetEvent

pub data State : Type 0 where
  in_data in_iac in_negotiation in_subnegotiation_option in_subnegotiation in_subnegotiation_iac :
      State

pub record Codec : Type 0 where
  pub terminal_type : List ℕ
  pub columns : ℕ
  pub rows : ℕ
  pub encoding : List ℕ
  pub state : State
  pub negotiation_command : Option ℕ
  pub subnegotiation_option : Option ℕ
  pub subnegotiation_data : List ℕ
  pub enabled_local : List ℕ
  pub enabled_remote : List ℕ

pub data Fault : Type 0 where
  assertion_failed overflow value_error : Fault

unfoldable pub codec : List ℕ → ℕ → ℕ → List ℕ → Codec
codec terminal_type columns rows encoding = record {
  terminal_type = terminal_type;
  columns = columns;
  rows = rows;
  encoding = encoding;
  state = in_data;
  negotiation_command = none;
  subnegotiation_option = none;
  subnegotiation_data = [];
  enabled_local = [];
  enabled_remote = [];
}

-- data.replace(IAC, IAC IAC)
unfoldable pub escape_iac : List ℕ → List ℕ
escape_iac [] = []
escape_iac (b ∷ bs) = let rest = escape_iac bs in if b == iac then iac ∷ iac ∷ rest else b ∷ rest

unfoldable pub command_message : ℕ → ℕ → List ℕ
command_message verb option = iac ∷ verb ∷ option ∷ []

unfoldable pub subnegotiation_message : ℕ → List ℕ → List ℕ
subnegotiation_message option payload =
    (iac ∷ sb ∷ option ∷ []) ++ (escape_iac payload ++ iac ∷ se ∷ [])

-- n.to_bytes(2, "big")
unfoldable pub two_bytes : ℕ → Result Fault (List ℕ)
two_bytes n = if ltb n 65536 then ok (n / 256 ∷ n % 256 ∷ []) else err overflow

unfoldable pub window_size_message : Codec → Result Fault (List ℕ)
unfolding two_bytes
window_size_message c = do
  columns ← two_bytes c.columns
  rows ← two_bytes c.rows
  ok (subnegotiation_message naws (columns ++ rows))

unfoldable pub remote_option : ℕ → Bool
remote_option o = o == echo || o == suppress_go_ahead || o == charset

unfoldable pub local_option : ℕ → Bool
local_option o = o == terminal_option || o == naws || o == charset

-- The answers to DO for an option that the codec offers: the option is enabled once, and NAWS has
-- the window's size behind it every time.
unfoldable pub enable_local : Codec → ℕ → Codec × List (List ℕ)
enable_local c option =
    if contains option c.enabled_local
    then (c, [])
    else (record c { enabled_local = option ∷ c.enabled_local }, command_message will option ∷ [])

unfoldable pub announce : ℕ → Codec × List (List ℕ) → Result Fault (Codec × List (List ℕ))
announce option (c, granted) =
    if option == naws
    then (do size ← window_size_message c; ok (c, granted ++ size ∷ []))
    else ok (c, granted)

unfoldable pub negotiate : Codec → ℕ → ℕ → Result Fault (Codec × List (List ℕ))
negotiate c verb option =
    if verb == will
    then (if remote_option option
        then (if contains option c.enabled_remote
            then ok (c, [])
            else ok (
              record c { enabled_remote = option ∷ c.enabled_remote },
              command_message do_it option ∷ [],
            ))
        else ok (c, command_message dont option ∷ []))
    else if verb == wont
    then ok (record c { enabled_remote = discard option c.enabled_remote }, [])
    else if verb == do_it
    then (if local_option option
        then announce option (enable_local c option)
        else ok (c, command_message wont option ∷ []))
    else if verb == dont
    then ok (record c { enabled_local = discard option c.enabled_local }, [])
    else ok (c, [])

-- errors="replace" and errors="ignore" of the ASCII codec
ascii_replace : List ℕ → List ℕ
ascii_replace = map (λ c. if ltb c 128 then c else b'?')

ascii_ignore : List ℕ → List ℕ
ascii_ignore [] = []
ascii_ignore (b ∷ bs) = let rest = ascii_ignore bs in if ltb b 128 then b ∷ rest else rest

-- name.casefold().replace("_", "-") on ASCII
normal_name : List ℕ → List ℕ
normal_name = map (λ c. if leb b'A' c && leb c b'Z' then c + 32 else if c == b'_' then b'-' else c)

cons_first : ℕ → List (List ℕ) → List (List ℕ)
cons_first b [] = (b ∷ []) ∷ []
cons_first b (piece ∷ pieces) = (b ∷ piece) ∷ pieces

-- bytes.split
split_on : ℕ → List ℕ → List (List ℕ)
unfolding cons_first
split_on separator [] = [] ∷ []
split_on separator (b ∷ bs) =
    let rest = split_on separator bs in if b == separator then [] ∷ rest else cons_first b rest

abbrev utf_8 : List ℕ
utf_8 = b'u' ∷ b't' ∷ b'f' ∷ b'-' ∷ b'8' ∷ []

abbrev utf8 : List ℕ
utf8 = b'u' ∷ b't' ∷ b'f' ∷ b'8' ∷ []

pub first_charset : List ℕ → List (List ℕ) → Option (List ℕ)
unfolding ascii_ignore normal_name text_eq
first_charset configured [] = none
first_charset configured (candidate ∷ offered) =
    let name = ascii_ignore candidate in
    let normalized = normal_name name in
    let rest = first_charset configured offered in
    if text_eq normalized configured || (text_eq configured utf_8 && text_eq normalized utf8)
    then some name
    else rest

pub select_charset : Codec → List ℕ → Option (List ℕ)
unfolding first_charset split_on normal_name
select_charset c [] = none
select_charset c (separator ∷ []) = none
select_charset c (separator ∷ b ∷ bs) =
    first_charset (normal_name c.encoding) (split_on separator (b ∷ bs))

-- The reply to a CHARSET request, the payload's first byte being 1.
charset_reply : Codec → List ℕ → Option (List ℕ)
unfolding select_charset
charset_reply c [] = none
charset_reply c (verb ∷ request) =
    if verb == 1
    then (elim (select_charset c request) [
      | none ↦ none
      | some selected ↦ some (subnegotiation_message charset (2 ∷ selected))
    ])
    else none

unfoldable pub handle_subnegotiation : Codec → ℕ → List ℕ → Option (List ℕ)
unfolding ascii_replace charset_reply text_eq
handle_subnegotiation c option payload =
    if option == terminal_option && (contains option c.enabled_local && text_eq payload (1 ∷ []))
    then some (subnegotiation_message option (0 ∷ ascii_replace c.terminal_type))
    else if option == charset
    then charset_reply c payload
    else none

abbrev pub no_result : TelnetResult
no_result = record { bytes = []; responses = []; events = [] }

abbrev pub join : TelnetResult → TelnetResult → TelnetResult
join a b = record {
  bytes = a.bytes ++ b.bytes;
  responses = a.responses ++ b.responses;
  events = a.events ++ b.events;
}

abbrev pub to_list {ℓ} : {A : Type ℓ} → Option A → List A
to_list none = []
to_list (some a) = a ∷ []

abbrev pub event : NegotiationKind → ℕ → Option ℕ → List ℕ → TelnetEvent
event kind verb option payload = record {
  kind = kind;
  command = verb;
  option = option;
  payload = payload;
}

-- The branch of the loop body for each state; what the byte adds to the result comes back with it.
on_iac : Codec → ℕ → Codec × TelnetResult
on_iac c value =
    if value == iac
    then (record c { state = in_data }, record no_result { bytes = value ∷ [] })
    else if value == will || (value == wont || (value == do_it || value == dont))
    then (record c { negotiation_command = some value; state = in_negotiation }, no_result)
    else if value == sb
    then (record c { state = in_subnegotiation_option }, no_result)
    else (
      record c { state = in_data },
      record no_result { events = event command value none [] ∷ [] },
    )

abbrev idle_codec : Codec → Codec
idle_codec c = record c { negotiation_command = none; state = in_data }

abbrev negotiated : ℕ → ℕ → List (List ℕ) → TelnetResult
negotiated verb value responses = record {
  bytes = [];
  responses = responses;
  events = event negotiation verb (some value) [] ∷ [];
}

on_negotiation : Codec → Option ℕ → ℕ → Result Fault (Codec × TelnetResult)
on_negotiation c none value = err assertion_failed
on_negotiation c (some verb) value = do
  (c', responses) ← negotiate c verb value
  ok (idle_codec c', negotiated verb value responses)

end_subnegotiation : Codec → Option ℕ → Result Fault (Codec × TelnetResult)
unfolding handle_subnegotiation
end_subnegotiation c none = err assertion_failed
end_subnegotiation c (some option) = ok (
  record c { subnegotiation_option = none; subnegotiation_data = []; state = in_data },
  record {
    bytes = [];
    responses = to_list (handle_subnegotiation c option c.subnegotiation_data);
    events = event subnegotiation sb (some option) c.subnegotiation_data ∷ [];
  },
)

on_subnegotiation_iac : Codec → ℕ → Result Fault (Codec × TelnetResult)
unfolding end_subnegotiation
on_subnegotiation_iac c value =
    if value == se
    then end_subnegotiation c c.subnegotiation_option
    else if value == iac
    then ok (
      record c {
        subnegotiation_data = c.subnegotiation_data ++ value ∷ [];
        state = in_subnegotiation;
      },
      no_result,
    )
    else ok (
      record c {
        subnegotiation_data = c.subnegotiation_data ++ iac ∷ value ∷ [];
        state = in_subnegotiation;
      },
      no_result,
    )

dispatch : State → Codec → ℕ → Result Fault (Codec × TelnetResult)
unfolding on_iac on_negotiation on_subnegotiation_iac
dispatch in_data c value =
    if value == iac
    then ok (record c { state = in_iac }, no_result)
    else ok (c, record no_result { bytes = value ∷ [] })
dispatch in_iac c value = ok (on_iac c value)
dispatch in_negotiation c value = on_negotiation c c.negotiation_command value
dispatch in_subnegotiation_option c value = ok (
  record c {
    subnegotiation_option = some value;
    subnegotiation_data = [];
    state = in_subnegotiation;
  },
  no_result,
)
dispatch in_subnegotiation c value =
    if value == iac
    then ok (record c { state = in_subnegotiation_iac }, no_result)
    else ok (record c { subnegotiation_data = c.subnegotiation_data ++ value ∷ [] }, no_result)
dispatch in_subnegotiation_iac c value = on_subnegotiation_iac c value

-- One round of the loop of feed.
unfoldable pub receive : Codec → ℕ → Result Fault (Codec × TelnetResult)
unfolding dispatch
receive c value = dispatch c.state c value

-- The codec after the chunk with what the chunk yields. A fault ends the feed.
unfoldable pub feed : Codec → List ℕ → Result Fault (Codec × TelnetResult)
feed c [] = ok (c, no_result)
feed c (value ∷ chunk) = do
  (c', first) ← receive c value
  (c'', rest) ← feed c' chunk
  ok (c'', join first rest)

unfoldable pub set_window_size : Codec → ℕ → ℕ → Result Fault (Codec × Option (List ℕ))
unfolding window_size_message
set_window_size c columns rows =
    if not (leb columns 65535 && leb rows 65535)
    then err value_error
    else (let c' = record c { columns = columns; rows = rows } in
        if contains naws c.enabled_local
        then (do size ← window_size_message c'; ok (c', some size))
        else ok (c', none))
