-- ===== src/Session.antt =====
-- WorldSession of src/tfr/sessions.py: one world's connection, its commands and its events. A session
-- keeps the events that it has handed to the event bus, which is taken to accept them, and the bytes
-- that it has handed to the transport. A handler runs to its end before another begins, so the locks
-- are left out. The clocks and the random ids are functions of the event's number.
pub mod Reading
pub mod Running
pub mod Connector
pub mod Bridging
pub mod Bridged
pub mod Connections
pub mod Stable
pub mod ReadingKeeps
pub mod Invariants
pub mod Numbering
pub mod Wire
pub mod Senders
pub mod LoginName
pub mod Secrecy
pub mod Stopping
pub mod Examples
use tfr.Base.{
  ℕ, suc, pos, Bool, true, false, ◌&&◌, ◌||◌, not, Option, none, some, List, [], ◌∷◌, ◌++◌, ◌-◌,
  ◌==◌, if◌then◌else◌, Result, ok, err, strip, text_eq, codes, length, drop,
}
use tfr.Json.{Value, Fields, null, int, text, field, end}
use tfr.Events.{
  Direction, EventKind, Event, Actor, ActorType, human, CommandRequest, Confidence, Provenance,
  SpoofAssessment, internal, connection, system, unknown, outbound_audit_event,
}
use tfr.Spoofing.{Alphabet}
use tfr.Adapters.{Patterns}
use tfr.Telnet.{escape_iac}

pub data SessionState : Type 0 where
  stopped connecting connected reconnect_wait disconnected : SessionState

abbrev pub state_value : SessionState → List ℕ
state_value stopped = codes "stopped"
state_value connecting = codes "connecting"
state_value connected = codes "connected"
state_value reconnect_wait = codes "reconnect_wait"
state_value disconnected = codes "disconnected"

-- An exception, by its class's name and its text.
pub record Exception : Type 0 where
  pub type : List ℕ
  pub message : List ℕ

pub record Login : Type 0 where
  pub character : List ℕ
  pub password : List ℕ

-- What the session reads of its configuration, and of the defaults.
pub record Config : Type 0 where
  pub server : List ℕ
  pub login : Option Login
  pub nospoof : Bool
  pub show_prefix : Bool
  pub startup_commands : List (List ℕ)
  pub reconnect : Bool
  pub encoding : List ℕ
  pub tls_enabled : Bool
  pub tls_verify : Bool
  pub reconnect_delay : Value

-- What the session takes from elsewhere: Python's strings, codecs, clocks and ids, and the
-- patterns of the adapters.
pub record Runtime : Type 1 where
  pub alphabet : Alphabet
  pub encode : List ℕ → List ℕ → Result Exception (List ℕ)
  pub Decoder : Type 0
  pub new_decoder : List ℕ → Decoder
  pub decode : Decoder → List ℕ → Bool → Decoder × List ℕ
  pub patterns : Patterns
  pub monotonic_ns : ℕ → ℕ
  pub loop_time : ℕ → ℕ
  pub request_id : ℕ → ℕ

pub record WorldSession : Type 0 where
  pub session_id : ℕ
  pub world : List ℕ
  pub config : Config
  pub state : SessionState
  pub connection_generation : ℕ
  pub sequence : ℕ
  pub is_connected : Bool
  pub last_command_activity : ℕ
  pub quit_requested : Bool
  pub nospoof_senders : List (List ℕ)
  pub expect_nospoof_continuation : Bool
  pub published : List Event
  pub written : List ℕ

-- How a handler ends: its loop goes on, returns, or raises.
pub data Progress : Type 0 where
  goes_on returned : Progress
  raised : Exception → Progress

-- What differs between the events that the session publishes.
pub record Content : Type 0 where
  pub direction : Direction
  pub kind : EventKind
  pub canonical_text : Option (List ℕ)
  pub plain_text : Option (List ℕ)
  pub display_text : Option (List ℕ)
  pub actor : Option Actor
  pub provenance : Option Provenance
  pub spoof : Option SpoofAssessment
  pub parser_name : Option (List ℕ)
  pub parser_version : Option (List ℕ)
  pub confidence : Confidence
  pub metadata : Fields

-- An internal event of a kind, by an actor.
abbrev pub internal_content : EventKind → Option Actor → Fields → Content
internal_content kind actor metadata = record {
  direction = internal;
  kind = kind;
  canonical_text = none;
  plain_text = none;
  display_text = none;
  actor = actor;
  provenance = none;
  spoof = none;
  parser_name = none;
  parser_version = none;
  confidence = unknown;
  metadata = metadata;
}

-- The event takes the next number, and the bus gets it.
unfoldable pub hand_over : Event → WorldSession → WorldSession
hand_over event s = record s { sequence = suc s.sequence; published = s.published ++ event ∷ [] }

-- deque(maxlen=256).append: the oldest item gives way.
abbrev pub max_nospoof_senders : ℕ
max_nospoof_senders = 256

unfoldable pub newest : List (List ℕ) → List (List ℕ)
newest items = drop (length items - max_nospoof_senders) items

-- _write_loop returns after the command that quits.
unfoldable pub ended_by_quit : WorldSession × Progress → WorldSession × Progress
ended_by_quit (s, goes_on) = if s.quit_requested then (s, returned) else (s, goes_on)
ended_by_quit (s, p) = (s, p)

abbrev pub is_stale : Option ℕ → ℕ → Bool
is_stale none generation = false
is_stale (some expected) generation = not (expected == generation)

module _ (r : Runtime) where
  event_of : WorldSession → Content → Event
  event_of s c = record {
    session_id = s.session_id;
    world = s.world;
    connection_generation = s.connection_generation;
    sequence = s.sequence;
    direction = c.direction;
    kind = c.kind;
    monotonic_ns = r.monotonic_ns s.sequence;
    canonical_text = c.canonical_text;
    plain_text = c.plain_text;
    display_text = c.display_text;
    provenance = c.provenance;
    spoof = c.spoof;
    parser_name = c.parser_name;
    parser_version = c.parser_version;
    confidence = c.confidence;
    actor = c.actor;
    correlation_id = none;
    causation_id = none;
    redacted = false;
    metadata = c.metadata;
  }

  unfoldable pub publish : WorldSession → Content → WorldSession
  unfolding event_of hand_over
  publish s c = hand_over (event_of s c) s

  unfoldable pub set_state : SessionState → Fields → WorldSession → WorldSession
  unfolding publish
  set_state state metadata s =
      publish (record s { state = state })
        (internal_content connection (some (record { type = system; id = codes "world-session" }))
          (field (codes "state") (text (state_value state)) metadata))

  is_human : ActorType → Bool
  is_human human = true
  is_human _ = false

  unfoldable pub is_quit : CommandRequest → Bool
  unfolding is_human
  is_quit request =
      is_human request.actor.type
      && text_eq (r.alphabet.casefold (strip r.alphabet.is_space request.text)) (codes "quit")

  -- The event of the request, and its mark if it ends the session.
  unfoldable pub audited : WorldSession → CommandRequest → WorldSession
  unfolding hand_over is_quit
  audited s request =
      let t =
        hand_over
          (outbound_audit_event r.alphabet.is_space request s.connection_generation s.sequence
            (r.monotonic_ns s.sequence))
          s in
      record t { quit_requested = is_quit request || s.quit_requested }

  unfoldable pub write : WorldSession → Result Exception (List ℕ) → WorldSession × Progress
  write s (err e) = (s, raised e)
  write s (ok encoded) = (
    record s {
      expect_nospoof_continuation = false;
      written = s.written ++ (escape_iac encoded ++ 13 ∷ 10 ∷ []);
      last_command_activity = r.loop_time s.sequence;
    },
    goes_on,
  )

  unfoldable pub send_command : WorldSession → CommandRequest → WorldSession × Progress
  unfolding audited write
  send_command s request =
      if not (request.session_id == s.session_id) || not (text_eq request.world s.world)
      then (
        s,
        raised (record {
          type = codes "ValueError";
          message = codes "command request does not belong to this session";
        }),
      )
      else write (audited s request) (r.encode s.config.encoding request.text)

  -- The body of _write_loop with a request of the queue.
  unfoldable pub serve : WorldSession → CommandRequest → WorldSession × Progress
  unfolding ended_by_quit send_command
  serve s request =
      if is_stale request.expected_connection_generation s.connection_generation
      then (s, goes_on)
      else ended_by_quit (send_command s request)

  unfoldable pub retained : List ℕ → List (List ℕ) → List (List ℕ)
  retained normalized [] = []
  retained normalized (item ∷ items) =
      let rest = retained normalized items in
      if text_eq (r.alphabet.casefold item) normalized then rest else item ∷ rest

  unfoldable pub remember_nospoof_sender : List ℕ → WorldSession → WorldSession
  unfolding retained newest
  remember_nospoof_sender sender s = record s {
    nospoof_senders =
        newest (retained (r.alphabet.casefold sender) s.nospoof_senders ++ sender ∷ []);
  }
