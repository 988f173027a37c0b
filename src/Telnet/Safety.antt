-- ===== src/Telnet/Safety.antt =====
-- The codec's invariant, src/tfr/telnet.py: no byte makes an assertion fail.
use tfr.Base.{
  ℕ, ◌≤◌, ◌≡◌, refl, List, [], ◌∷◌, ◌++◌, arith, some, none, Option, Result, ok, err, ◌/◌, ◌%◌, ◌⊎◌,
  ◌>>=◌, Bool, true, false, All, contains, discard, if◌then◌else◌, ◌==◌, Bool-cases, inl, inr,
}
use tfr.Telnet.Code.{naws}
use tfr.Telnet.Chunks.{feed-cons}
use tfr.Telnet.{
  no_result, subnegotiation_message, Codec, TelnetResult, State, in_data, in_iac, in_negotiation,
  in_subnegotiation_option, in_subnegotiation, in_subnegotiation_iac, feed, receive, negotiate,
  window_size_message, codec, set_window_size, announce, enable_local, on_negotiation, idle_codec,
  negotiated, dispatch, on_iac, on_subnegotiation_iac, end_subnegotiation, Fault, remote_option,
  local_option, join,
}

-- What the state machine keeps beside its state: a negotiation has its command, a subnegotiation its
-- option.
abbrev pub IsArmed : State → Option ℕ → Option ℕ → Type 0
IsArmed in_negotiation verb option = (v : ℕ) × (verb ≡ some v)
IsArmed in_subnegotiation verb option = (o : ℕ) × (option ≡ some o)
IsArmed in_subnegotiation_iac verb option = (o : ℕ) × (option ≡ some o)
IsArmed _ verb option = Unit

pub record IsValid (c : Codec) : Type 0 where
  pub armed : IsArmed c.state c.negotiation_command c.subnegotiation_option
  pub columns_fit : c.columns ≤ 65535
  pub rows_fit : c.rows ≤ 65535
  pub local_offered : All (λ o. local_option o ≡ true) c.enabled_local
  pub remote_wanted : All (λ o. remote_option o ≡ true) c.enabled_remote

All-discard : (P : ℕ → Type 0) (a : ℕ) (xs : List ℕ) → All P xs → All P (discard a xs)
unfolding discard
All-discard P a [] h = tt
All-discard P a (x ∷ xs) h = elim (Bool-cases (x == a)) [
  | inl e ↦ rw e (All-discard P a xs h.1)
  | inr e ↦ rw e (h.0, All-discard P a xs h.1)
]

-- The run ends without a fault, in a valid codec.
abbrev pub Succeeds : {A : Type 0} → Result Fault (Codec × A) → Type 0
Succeeds (ok q) = IsValid q.0
Succeeds (err e) = ⊥

Succeeds-if :
    {A : Type 0} (b : Bool) (r s : Result Fault (Codec × A))
    → (b ≡ true → Succeeds r)
    → (b ≡ false → Succeeds s)
    → Succeeds (if b then r else s)
Succeeds-if true r s hr hs = hr refl
Succeeds-if false r s hr hs = hs refl

announce-Succeeds : (o : ℕ) (q : Codec × List (List ℕ)) → IsValid q.0 → Succeeds (announce o q)
unfolding announce window_size_message
announce-Succeeds o (c, granted) v = ground arith

enable_local-IsValid :
    (c : Codec) (o : ℕ) → local_option o ≡ true → IsValid c → IsValid (enable_local c o).0
unfolding enable_local
enable_local-IsValid c o h v = ground arith

pub negotiate-Succeeds : (c : Codec) (verb o : ℕ) → IsValid c → Succeeds (negotiate c verb o)
unfolding negotiate
negotiate-Succeeds c verb o v = ground (
  arith,
  announce-Succeeds o (enable_local c o),
  enable_local-IsValid c o,
  All-discard (λ a. local_option a ≡ true) o c.enabled_local,
  All-discard (λ a. remote_option a ≡ true) o c.enabled_remote,
)

on_negotiation-Succeeds :
    (c : Codec) (verb : Option ℕ) (value : ℕ)
    → IsArmed in_negotiation verb none
    → IsValid c
    → Succeeds (on_negotiation c verb value)
unfolding on_negotiation
on_negotiation-Succeeds c none value a v = ground arith
on_negotiation-Succeeds c (some verb) value a v =
    idle (negotiate c verb value) (negotiate-Succeeds c verb value v)
  where
    idle :
        (r : Result Fault (Codec × List (List ℕ)))
        → Succeeds r
        → Succeeds (r >>= λ q. ok (idle_codec q.0, negotiated verb value q.1))
    idle (ok q) w = record {
      armed = tt;
      columns_fit = w.columns_fit;
      rows_fit = w.rows_fit;
      local_offered = w.local_offered;
      remote_wanted = w.remote_wanted;
    }
    idle (err e) w = w

dispatch-Succeeds :
    (s : State) (c : Codec) (value : ℕ) → c.state ≡ s → IsValid c → Succeeds (dispatch s c value)
unfolding dispatch on_iac on_subnegotiation_iac end_subnegotiation
dispatch-Succeeds in_data c value e v = ground arith
dispatch-Succeeds in_iac c value e v = ground arith
dispatch-Succeeds in_negotiation c value e v =
    on_negotiation-Succeeds c c.negotiation_command value (rw e at v.armed) v
dispatch-Succeeds in_subnegotiation_option c value e v = ground arith
dispatch-Succeeds in_subnegotiation c value e v = ground arith
dispatch-Succeeds in_subnegotiation_iac c value e v = ground arith

-- Any chunk is read to its end, whatever its bytes are: no assertion fails and no window size
-- overflows, and the codec stays valid.
pub feed_total :
    (c : Codec) (chunk : List ℕ)
    → IsValid c
    → (c' : Codec) × (r : TelnetResult) × (feed c chunk ≡ ok (c', r)) × IsValid c'
feed_total c [] v = (c, no_result, unfold feed in refl, v)
feed_total c (x ∷ chunk) v =
    go (receive c x) refl (unfold receive in dispatch-Succeeds c.state c x refl v)
      (λ c'. feed_total c' chunk)
  where
    step :
        (c' : Codec) (r : TelnetResult)
        → receive c x ≡ ok (c', r)
        → ((d : Codec) × (s : TelnetResult) × (feed c' chunk ≡ ok (d, s)) × IsValid d)
        → (d : Codec) × (s : TelnetResult) × (feed c (x ∷ chunk) ≡ ok (d, s)) × IsValid d
    step c' r e (d, s, p, w) = (d, join r s, rw (feed-cons, e, p), w)

    go :
        (q : Result Fault (Codec × TelnetResult))
        → receive c x ≡ q
        → Succeeds q
        → ((c' : Codec)
            → IsValid c'
            → (d : Codec) × (s : TelnetResult) × (feed c' chunk ≡ ok (d, s)) × IsValid d)
        → (d : Codec) × (s : TelnetResult) × (feed c (x ∷ chunk) ≡ ok (d, s)) × IsValid d
    go (ok (c', r)) e w rest = step c' r e (rest c' w)
    go (err f) e w rest = absurd w

-- A new codec is valid.
pub codec-IsValid :
    (name encoding : List ℕ) (columns rows : ℕ)
    → columns ≤ 65535
    → rows ≤ 65535
    → IsValid (codec name columns rows encoding)
unfolding codec
codec-IsValid name encoding columns rows hc hr = ground arith

-- A window size that is accepted fits in 16 bits both ways and keeps the codec valid; a message for
-- the peer comes back exactly when NAWS is enabled, and it announces the new size.
set_window_size_kept :
    (c c' : Codec) (columns rows : ℕ) (message : Option (List ℕ))
    → IsValid c
    → set_window_size c columns rows ≡ ok (c', message)
    → IsValid c'
      × (c'.columns ≡ columns)
      × (c'.rows ≡ rows)
      × ((message ≡ none) × (contains naws c.enabled_local ≡ false)
          ⊎ (m : List ℕ) × (message ≡ some m)
            × (contains naws c.enabled_local ≡ true)
            × (window_size_message c' ≡ ok m))
unfolding set_window_size
set_window_size_kept c c' columns rows message v e =
    elim (Bool-cases (contains naws c.enabled_local)) [
      | inl y ↦ (
        ground arith,
        ground arith,
        ground arith,
        inr (
          subnegotiation_message naws
              ((columns / 256 ∷ columns % 256 ∷ []) ++ (rows / 256 ∷ rows % 256 ∷ [])),
          ground arith,
          y,
          ground arith,
        ),
      )
      | inr n ↦ (ground arith, ground arith, ground arith, inl (ground arith, n))
    ]
