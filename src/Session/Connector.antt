-- ===== src/Session/Connector.antt =====
-- ConnectorWorldSession and ConnectorSessionBridge of src/tfr/sessions.py: sessions whose connections
-- another process keeps. The bridge's client is the list of what it was told to send. A message is a
-- dictionary of JSON values; as in Python, its booleans are integers too.
use tfr.Base.{
  ℕ, ℤ, pos, Bool, true, false, Option, none, some, List, [], ◌∷◌, ◌++◌, if◌then◌else◌, Result, ok,
  err, codes, text_eq,
}
use tfr.Json.{Value, Fields, null, bool, int, text, field, end, get_or, has_key, is_among}
use tfr.Dict.{lookup, insert}
use tfr.Events.{EventKind, CommandRequest, inbound, system, telnet, unknown, outbound_audit_event}
use tfr.Events as Events
use tfr.Session.{
  Runtime, WorldSession, SessionState, Exception, Progress, goes_on, raised, stopped, connecting,
  connected, reconnect_wait, disconnected, state_value, internal_content, publish, set_state,
  hand_over, is_stale, is_quit,
}
use tfr.Session.Reading.{publish_inbound}

-- What the client of the connector is told.
pub data Sent : Type 0 where
  sends : List ℕ → List ℕ → Bool → Sent
  acknowledges : List ℕ → ℤ → Sent
  acknowledges_overflow : ℤ → Sent

pub record Bridge : Type 0 where
  pub sessions : List (List ℕ × WorldSession)
  pub sent : List Sent

abbrev pub value_error : List ℕ → Exception
value_error message = record { type = codes "ValueError"; message = message }

abbrev pub two_selves : Exception
two_selves = record {
  type = codes "TypeError";
  message = codes "WorldSession._set_state() got multiple values for argument 'self'";
}

-- isinstance(value, int), isinstance(value, str), and a comparison with a text.
abbrev pub as_int : Value → Option ℤ
as_int (int z) = some z
as_int (bool true) = some (pos 1)
as_int (bool false) = some (pos 0)
as_int _ = none

abbrev pub as_text : Value → Option (List ℕ)
as_text (text t) = some t
as_text _ = none

unfoldable pub is_text : List ℕ → Value → Bool
is_text word (text t) = text_eq t word
is_text word _ = false

-- SessionState(value)
abbrev pub first_state : List ℕ → List SessionState → Option SessionState
first_state t [] = none
first_state t (s ∷ ss) =
    let rest = first_state t ss in if text_eq t (state_value s) then some s else rest

unfoldable pub session_state : Value → Option SessionState
session_state (text t) =
    first_state t (stopped ∷ connecting ∷ connected ∷ reconnect_wait ∷ disconnected ∷ [])
session_state _ = none

-- What a state event tells besides its state.
abbrev pub other_fields : List (List ℕ) → Fields → Fields
other_fields keys end = end
other_fields keys (field k v fields) =
    let rest = other_fields keys fields in if is_among k keys then rest else field k v rest

abbrev pub picked : List (List ℕ) → Fields → Fields
picked [] message = end
picked (key ∷ keys) message = field key (get_or key null message) (picked keys message)

abbrev pub is_connected_state : SessionState → Bool
is_connected_state connected = true
is_connected_state _ = false

-- A session handles its message; its new state is kept, and the message is acknowledged unless the
-- session raised.
unfoldable pub settle : List ℕ → Sent → Bridge → WorldSession × Progress → Bridge × Progress
settle world notice b (s, goes_on) =
    (record { sessions = insert world s b.sessions; sent = b.sent ++ notice ∷ [] }, goes_on)
settle world notice b (s, p) = (record b { sessions = insert world s b.sessions }, p)

unfoldable pub pass_on :
    List ℕ
    → Sent
    → (WorldSession → WorldSession × Progress)
    → Option WorldSession
    → Bridge
    → Bridge × Progress
unfolding settle
pass_on world notice handle none b = (record b { sent = b.sent ++ notice ∷ [] }, goes_on)
pass_on world notice handle (some s) b = settle world notice b (handle s)

register_new : List ℕ → WorldSession → Option WorldSession → Bridge → Result Exception Bridge
register_new world s (some t) b = err (value_error (codes "duplicate connector world: " ++ world))
register_new world s none b = ok (record b { sessions = insert world s b.sessions })

unfoldable pub register : WorldSession → Bridge → Result Exception Bridge
unfolding register_new
register s b = register_new s.world s (lookup s.world b.sessions) b

module _ (r : Runtime) where
  unfoldable pub on_data : Value → WorldSession → WorldSession × Progress
  on_data (text line) s = publish_inbound r line s
  on_data _ s = (s, raised (value_error (codes "connector text event is invalid")))

  -- The call of _set_state(state, **metadata) raises when the metadata have a key self.
  unfoldable pub on_state : Option SessionState → Fields → WorldSession → WorldSession × Progress
  on_state none message s = (s, raised (value_error (codes "connector state event is invalid")))
  on_state (some state) message s =
      let t = record s { is_connected = is_connected_state state } in
      if has_key (codes "self") message then (t, raised two_selves) else (
        set_state r state
            (other_fields
              (codes "type"
                ∷ codes "world"
                ∷ codes "sequence"
                ∷ codes "kind"
                ∷ codes "generation"
                ∷ codes "state"
                ∷ [])
              message)
            t,
        goes_on,
      )

  unfoldable pub on_telnet : Fields → WorldSession → WorldSession
  on_telnet message s = publish r s (
      internal_content telnet none (
        picked (codes "telnet_kind" ∷ codes "command" ∷ codes "option" ∷ codes "payload_hex" ∷ [])
          message))

  unfoldable pub on_kind : Value → Fields → WorldSession → WorldSession × Progress
  unfolding on_data on_state on_telnet
  on_kind kind message s =
      if is_text (codes "data") kind
      then on_data (get_or (codes "text") null message) s
      else if is_text (codes "state") kind
      then on_state (session_state (get_or (codes "state") null message)) message s
      else if is_text (codes "telnet") kind
      then (on_telnet message s, goes_on)
      else (s, raised (value_error (codes "connector world event kind is invalid")))

  unfoldable pub on_generation : Option ℤ → Fields → WorldSession → WorldSession × Progress
  unfolding on_kind
  on_generation (some (pos n)) message s =
      on_kind (get_or (codes "kind") null message) message (record s { connection_generation = n })
  on_generation _ message s =
      (s, raised (value_error (codes "connector event generation is invalid")))

  unfoldable pub handle_connector_event : Fields → WorldSession → WorldSession × Progress
  unfolding on_generation
  handle_connector_event message s =
      on_generation (as_int (get_or (codes "generation") null message)) message s

  -- The notice names its numbers as str() shows them.
  overflow_text : (Value → List ℕ) → Fields → List ℕ
  overflow_text show message =
      codes "-- World connector replay overflow: lost "
      ++ (show (get_or (codes "dropped_frames") null message)
          ++ (codes " frame(s) and "
              ++ (show (get_or (codes "dropped_bytes") null message)
                  ++ codes " byte(s) while the Gateway was unavailable --")))

  unfoldable pub handle_connector_overflow : (Value → List ℕ) → Fields → WorldSession → WorldSession
  unfolding overflow_text
  handle_connector_overflow show message s = publish r s (record {
    direction = inbound;
    kind = system;
    canonical_text = some (overflow_text show message);
    plain_text = some (overflow_text show message);
    display_text = some (overflow_text show message);
    actor = some (record { type = Events.ActorType.system; id = codes "world-connector" });
    provenance = none;
    spoof = none;
    parser_name = none;
    parser_version = none;
    confidence = unknown;
    metadata =
        picked
          (codes "notice_id"
            ∷ codes "first_dropped_sequence"
            ∷ codes "last_dropped_sequence"
            ∷ codes "dropped_frames"
            ∷ codes "dropped_bytes"
            ∷ [])
          message;
  })

  send_world :
      WorldSession
      → CommandRequest
      → Result Exception (List ℕ)
      → WorldSession × List Sent × Progress
  send_world s request (err e) = (s, [], raised e)
  send_world s request (ok encoded) = (s, sends s.world encoded (is_quit r request) ∷ [], goes_on)

  -- The body of _connector_write_loop, with what the client is told.
  unfoldable pub serve_connector :
      WorldSession → CommandRequest → WorldSession × List Sent × Progress
  unfolding send_world hand_over
  serve_connector s request =
      if is_stale request.expected_connection_generation s.connection_generation
      then (s, [], goes_on)
      else send_world
          (hand_over
            (outbound_audit_event r.alphabet.is_space request s.connection_generation s.sequence
              (r.monotonic_ns s.sequence))
            s)
          request (r.encode s.config.encoding request.text)

  unfoldable pub on_world_event : Option (List ℕ) → Option ℤ → Fields → Bridge → Bridge × Progress
  unfolding pass_on
  on_world_event (some world) (some sequence) message b =
      pass_on world (acknowledges world sequence) (handle_connector_event message)
        (lookup world b.sessions) b
  on_world_event _ _ message b =
      (b, raised (value_error (codes "connector returned an invalid world event")))

  unfoldable pub on_overflow :
      (Value → List ℕ) → Option (List ℕ) → Option ℤ → Fields → Bridge → Bridge × Progress
  unfolding pass_on
  on_overflow show (some world) (some notice_id) message b =
      pass_on world (acknowledges_overflow notice_id)
        (λ s. (handle_connector_overflow show message s, goes_on)) (lookup world b.sessions) b
  on_overflow show _ _ message b =
      (b, raised (value_error (codes "connector returned an invalid overflow notice")))

  -- One round of the bridge's _read_loop.
  unfoldable pub receive : (Value → List ℕ) → Fields → Bridge → Bridge × Progress
  unfolding on_world_event on_overflow
  receive show message b =
      if is_text (codes "world_event") (get_or (codes "type") null message)
      then on_world_event (as_text (get_or (codes "world") null message))
          (as_int (get_or (codes "sequence") null message)) message b
      else if is_text (codes "overflow") (get_or (codes "type") null message)
      then on_overflow show (as_text (get_or (codes "world") null message))
          (as_int (get_or (codes "notice_id") null message)) message b
      else (b, raised (value_error (codes "connector returned an unknown message")))
