-- ===== src/Session/Bridged.antt =====
-- ConnectorSessionBridge of src/tfr/sessions.py: the events of its sessions.
use tfr.Base.{
  ℕ, ℤ, pos, negsuc, ◌≡◌, refl, Option, none, some, List, [], ◌∷◌, codes, Bool-cases, inl, inr, All,
}
use tfr.Json.{has_key, Value, Fields, null, bool, int, real, text, array, object, get_or}
use tfr.Dict.{lookup}
use tfr.Dict.Laws.{insert-All, lookup-All}
use tfr.Session.{
  Runtime, WorldSession, SessionState, Progress, goes_on, returned, raised, hand_over,
  remember_nospoof_sender,
}
use tfr.Session.Numbering.{IsNumbered, IsNumbered-IsStable}
use tfr.Session.Stable.{IsStable, publish-keeps, set_state-keeps, publish_inbound-keeps}
use tfr.Session.Connector.{
  Bridge, Sent, acknowledges, acknowledges_overflow, as_int, is_text, is_connected_state,
  session_state, on_data, on_state, on_telnet, on_kind, on_generation, handle_connector_event,
  handle_connector_overflow, settle, pass_on, on_world_event, on_overflow, receive,
}
use tfr.Session.Bridging.{next, receive_all}

module _ (r : Runtime) {P : WorldSession → Type 0} (stable : IsStable r P) where
  on_data-keeps : (v : Value) (s : WorldSession) → P s → P (on_data r v s).0
  unfolding on_data
  on_data-keeps (text line) s v = publish_inbound-keeps r stable line s v
  on_data-keeps null s v = v
  on_data-keeps (bool b) s v = v
  on_data-keeps (int z) s v = v
  on_data-keeps (real n) s v = v
  on_data-keeps (array items) s v = v
  on_data-keeps (object fields) s v = v

  on_state-keeps :
      (o : Option SessionState) (message : Fields) (s : WorldSession)
      → P s
      → P (on_state r o message s).0
  unfolding on_state
  on_state-keeps none message s v = v
  on_state-keeps (some state) message s v =
      let kept : P (record s { is_connected = is_connected_state state }) =
        stable.on_connected s (is_connected_state state) v in
      elim (Bool-cases (has_key (codes "self") message)) [
        | inl k ↦ rw k kept
        | inr k ↦ rw k (set_state-keeps r stable state _ _ kept)
      ]

  on_kind-keeps :
      (kind : Value) (message : Fields) (s : WorldSession) → P s → P (on_kind r kind message s).0
  unfolding on_kind on_telnet
  on_kind-keeps kind message s v = elim (Bool-cases (is_text (codes "data") kind)) [
    | inl a ↦ rw a (on_data-keeps (get_or (codes "text") null message) s v)
    | inr a ↦ elim (Bool-cases (is_text (codes "state") kind)) [
      | inl b ↦
          rw (a, b)
            (on_state-keeps (session_state (get_or (codes "state") null message)) message s v)
      | inr b ↦ elim (Bool-cases (is_text (codes "telnet") kind)) [
        | inl c ↦ rw (a, b, c) (publish-keeps r stable s _ v)
        | inr c ↦ rw (a, b, c) v
      ]
    ]
  ]

  handle_connector_event-keeps :
      (message : Fields) (s : WorldSession) → P s → P (handle_connector_event r message s).0
  unfolding handle_connector_event
  handle_connector_event-keeps message s v =
      numbered (as_int (get_or (codes "generation") null message))
    where
      numbered : (o : Option ℤ) → P (on_generation r o message s).0
      numbered none = unfold on_generation in v
      numbered (some (negsuc n)) = unfold on_generation in v
      numbered (some (pos n)) =
          unfold on_generation in
          on_kind-keeps _ message (record s { connection_generation = n })
            (stable.on_generation s n v)

  -- Every session that the bridge has.
  abbrev pub AllSessions : Bridge → Type 0
  AllSessions b = All (λ (item : List ℕ × WorldSession). P item.1) b.sessions

  pass_on-AllSessions :
      (world : List ℕ) (x : Sent) (handle : WorldSession → WorldSession × Progress)
      (o : Option WorldSession) (b : Bridge)
      → ((s : WorldSession) → P s → P (handle s).0)
      → ((s : WorldSession) → o ≡ some s → P s)
      → AllSessions b
      → AllSessions (pass_on world x handle o b).0
  unfolding pass_on
  pass_on-AllSessions world x handle none b h known v = v
  pass_on-AllSessions world x handle (some s) b h known v = settled (handle s) (h s (known s refl))
    where
      settled : (p : WorldSession × Progress) → P p.0 → AllSessions (settle world x b p).0
      settled (t, goes_on) k =
          unfold settle in
          insert-All (λ (item : List ℕ × WorldSession). P item.1) world t b.sessions k v
      settled (t, returned) k =
          unfold settle in
          insert-All (λ (item : List ℕ × WorldSession). P item.1) world t b.sessions k v
      settled (t, raised e) k =
          unfold settle in
          insert-All (λ (item : List ℕ × WorldSession). P item.1) world t b.sessions k v

  known_session :
      (world : List ℕ) (b : Bridge) (s : WorldSession)
      → AllSessions b
      → lookup world b.sessions ≡ some s
      → P s
  known_session world b s v h =
      lookup-All (λ (item : List ℕ × WorldSession). P item.1) world b.sessions s v h

  on_world_event-AllSessions :
      (world : Option (List ℕ)) (sequence : Option ℤ) (message : Fields) (b : Bridge)
      → AllSessions b
      → AllSessions (on_world_event r world sequence message b).0
  unfolding on_world_event
  on_world_event-AllSessions (some world) (some n) message b v =
      pass_on-AllSessions world (acknowledges world n) (handle_connector_event r message)
        (lookup world b.sessions) b (handle_connector_event-keeps message)
        (λ s h. known_session world b s v h) v
  on_world_event-AllSessions (some world) none message b v = v
  on_world_event-AllSessions none (some n) message b v = v
  on_world_event-AllSessions none none message b v = v

  module _ (show : Value → List ℕ) where
    on_overflow-AllSessions :
        (world : Option (List ℕ)) (id : Option ℤ) (message : Fields) (b : Bridge)
        → AllSessions b
        → AllSessions (on_overflow r show world id message b).0
    unfolding on_overflow handle_connector_overflow
    on_overflow-AllSessions (some world) (some n) message b v =
        pass_on-AllSessions world (acknowledges_overflow n)
          (λ x. (handle_connector_overflow r show message x, goes_on)) (lookup world b.sessions) b
          (λ s h. publish-keeps r stable s _ h) (λ s h. known_session world b s v h) v
    on_overflow-AllSessions (some world) none message b v = v
    on_overflow-AllSessions none (some n) message b v = v
    on_overflow-AllSessions none none message b v = v

    receive-AllSessions :
        (message : Fields) (b : Bridge) → AllSessions b → AllSessions (receive r show message b).0
    unfolding receive
    receive-AllSessions message b v =
        elim (Bool-cases (is_text (codes "world_event") (get_or (codes "type") null message))) [
          | inl e ↦ rw e (on_world_event-AllSessions _ _ message b v)
          | inr e ↦
              elim (Bool-cases (is_text (codes "overflow") (get_or (codes "type") null message))) [
                | inl f ↦ rw (e, f) (on_overflow-AllSessions _ _ message b v)
                | inr f ↦ rw (e, f) v
              ]
        ]

    receive_all-AllSessions :
        (messages : List Fields) (b : Bridge)
        → AllSessions b
        → AllSessions (receive_all r show messages b).0
    receive_all-AllSessions [] b v = v
    receive_all-AllSessions (message ∷ messages) b v =
        joined (receive r show message b) (receive-AllSessions message b v)
          (receive_all-AllSessions messages)
      where
        joined :
            (o : Bridge × Progress)
            → AllSessions o.0
            → ((c : Bridge) → AllSessions c → AllSessions (receive_all r show messages c).0)
            → AllSessions (next o (receive_all r show messages)).0
        joined (c, goes_on) k h = h c k
        joined (c, returned) k h = k
        joined (c, raised e) k h = k

-- A session's events are its own, and numbered from 0 up.
abbrev pub IsWellNumbered : WorldSession → Type 0
IsWellNumbered s = IsNumbered s.session_id s.world s

module _ (r : Runtime) (show : Value → List ℕ) where
  IsWellNumbered-IsStable : IsStable r IsWellNumbered
  unfolding hand_over remember_nospoof_sender
  IsWellNumbered-IsStable = record {
    on_state = λ s x v. (IsNumbered-IsStable s.session_id s.world r).on_state s x v;
    on_generation = λ s x v. (IsNumbered-IsStable s.session_id s.world r).on_generation s x v;
    on_connected = λ s x v. (IsNumbered-IsStable s.session_id s.world r).on_connected s x v;
    on_activity = λ s x v. (IsNumbered-IsStable s.session_id s.world r).on_activity s x v;
    on_quit = λ s x v. (IsNumbered-IsStable s.session_id s.world r).on_quit s x v;
    on_expect = λ s x v. (IsNumbered-IsStable s.session_id s.world r).on_expect s x v;
    on_written = λ s x v. (IsNumbered-IsStable s.session_id s.world r).on_written s x v;
    on_forget = λ s v. (IsNumbered-IsStable s.session_id s.world r).on_forget s v;
    on_remember = λ s x v. (IsNumbered-IsStable s.session_id s.world r).on_remember s x v;
    on_event = λ s e v. (IsNumbered-IsStable s.session_id s.world r).on_event s e v;
  }

  -- Whatever messages the bridge receives, valid or not, the events of each of its sessions stay of the
  -- session's own id and world and numbered from 0 up without a gap, if they were so before.
  pub receive_all-IsNumbered :
      (messages : List Fields) (b : Bridge)
      → All (λ (item : List ℕ × WorldSession). IsWellNumbered item.1) b.sessions
      → All
          (λ (item : List ℕ × WorldSession). IsWellNumbered item.1)
          (receive_all r show messages b).0.sessions
  receive_all-IsNumbered messages b v =
      receive_all-AllSessions r IsWellNumbered-IsStable show messages b v
