-- ===== src/Events.antt =====
-- src/tfr/events.py: events, command requests and the audit event of a command. Ids are numbers and
-- texts lists of code points. What an event takes from a random source or the wall clock by default,
-- its own id and timestamp, is left out.
pub mod Patterns
pub mod Examples
use tfr.Base.{
  ℕ, Bool, true, false, ◌||◌, Option, none, some, List, [], ◌∷◌, ◌++◌, ltb, leb, if◌then◌else◌,
  Result, ok, err, codes,
}
use tfr.Json.{Fields}
use tfr.Events.Patterns.{login_prefix, password_command}

pub data Direction : Type 0 where
  inbound outbound internal : Direction

pub data EventKind : Type 0 where
  raw_output command speech say pose page channel emit system connection telnet : EventKind
  agent_request agent_response agent_action plugin : EventKind

pub data ActorType : Type 0 where
  human agent plugin startup idle system : ActorType

pub data Confidence : Type 0 where
  authoritative high inferred unknown : Confidence

pub data SpoofStatus : Type 0 where
  not_spoofed spoofed : SpoofStatus

pub data SpoofReason : Type 0 where
  speaker_mismatch missing_nospoof_prefix : SpoofReason

pub record Actor : Type 0 where
  pub type : ActorType
  pub id : List ℕ

pub record Provenance : Type 0 where
  pub sender_name : Option (List ℕ)
  pub sender_dbref : Option ℕ
  pub owner_name : Option (List ℕ)
  pub owner_dbref : Option ℕ
  pub enactor_dbref : Option ℕ
  pub server_source : Option (List ℕ)
  pub prefix_span : Option (ℕ × ℕ)
  pub adapter : Option (List ℕ)
  pub confidence : Confidence

pub record SpoofAssessment : Type 0 where
  pub status : SpoofStatus
  pub speaker : List ℕ
  pub speaker_span : ℕ × ℕ
  pub reason : Option SpoofReason

pub record Event : Type 0 where
  pub session_id : ℕ
  pub world : List ℕ
  pub connection_generation : ℕ
  pub sequence : ℕ
  pub direction : Direction
  pub kind : EventKind
  pub monotonic_ns : ℕ
  pub canonical_text : Option (List ℕ)
  pub plain_text : Option (List ℕ)
  pub display_text : Option (List ℕ)
  pub provenance : Option Provenance
  pub spoof : Option SpoofAssessment
  pub parser_name : Option (List ℕ)
  pub parser_version : Option (List ℕ)
  pub confidence : Confidence
  pub actor : Option Actor
  pub correlation_id : Option ℕ
  pub causation_id : Option ℕ
  pub redacted : Bool
  pub metadata : Fields

pub record CommandRequest : Type 0 where
  pub session_id : ℕ
  pub world : List ℕ
  pub actor : Actor
  pub text : List ℕ
  pub request_id : ℕ
  pub sensitive : Bool
  pub correlation_id : Option ℕ
  pub causation_id : Option ℕ
  pub metadata : Fields
  pub expected_connection_generation : Option ℕ

-- The ValueErrors of the constructors.
pub data Error : Type 0 where
  invalid_speaker_span : Error

unfoldable pub is_empty : List ℕ → Bool
is_empty [] = true
is_empty (c ∷ t) = false

-- SpoofAssessment with the checks of __post_init__. No caller gives a suspected sender.
unfoldable pub new_assessment :
    SpoofStatus → List ℕ → ℕ × ℕ → Option SpoofReason → Result Error SpoofAssessment
unfolding is_empty
new_assessment status speaker (start, end) reason =
    if is_empty speaker || leb end start
    then err invalid_speaker_span
    else ok (record {
      status = status;
      speaker = speaker;
      speaker_span = (start, end);
      reason = reason;
    })

pub record RedactedText : Type 0 where
  pub text : List ℕ
  pub redacted : Bool

abbrev pub or_default : Option ℕ → ℕ → Option ℕ
or_default none default = some default
or_default (some x) default = some x

-- The event of a request, with the text that it may show.
abbrev pub audit_event : CommandRequest → RedactedText → ℕ → ℕ → ℕ → Event
audit_event request audit_text generation sequence monotonic_ns = record {
  session_id = request.session_id;
  world = request.world;
  connection_generation = generation;
  sequence = sequence;
  direction = outbound;
  kind = command;
  monotonic_ns = monotonic_ns;
  canonical_text = some audit_text.text;
  plain_text = some audit_text.text;
  display_text = some audit_text.text;
  provenance = none;
  spoof = none;
  parser_name = none;
  parser_version = none;
  confidence = unknown;
  actor = some request.actor;
  correlation_id = or_default request.correlation_id request.request_id;
  causation_id = request.causation_id;
  redacted = audit_text.redacted;
  metadata = request.metadata;
}

-- By what the two patterns match.
unfoldable pub redact_password : Option (List ℕ) → List ℕ → Bool → RedactedText
redact_password (some name) text sensitive = record {
  text = name ++ codes " [REDACTED]";
  redacted = true;
}
redact_password none text sensitive =
    if sensitive
    then record { text = codes "[REDACTED]"; redacted = true }
    else record { text = text; redacted = false }

unfoldable pub redact_login : Option (List ℕ) → RedactedText → RedactedText
redact_login (some prefix) other = record { text = prefix ++ codes "[REDACTED]"; redacted = true }
redact_login none other = other

module _ (is_space : ℕ → Bool) where
  unfoldable pub redact_command : List ℕ → Bool → RedactedText
  unfolding redact_login redact_password
  redact_command text sensitive =
      redact_login (login_prefix is_space text)
        (redact_password (password_command is_space text) text sensitive)

  unfoldable pub outbound_audit_event : CommandRequest → ℕ → ℕ → ℕ → Event
  unfolding redact_command
  outbound_audit_event request generation sequence monotonic_ns =
      audit_event request (redact_command request.text request.sensitive) generation sequence
        monotonic_ns
