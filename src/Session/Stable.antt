-- ===== src/Session/Stable.antt =====
-- What the single steps of src/tfr/sessions.py keep: a property that the changes of single fields keep,
-- commands and lines keep.
use tfr.Base.{
  ℕ, ◌≡◌, refl, Bool, true, false, Option, none, some, List, [], ◌∷◌, arith, if◌then◌else◌, Result,
  ok, err, Bool-cases, inl, inr, not, ◌||◌, ◌==◌, text_eq,
}
use tfr.Json.{Fields}
use tfr.Json.Lookup.{text_eq_sound}
use tfr.Events.{is_empty, Event, CommandRequest, Provenance, SpoofAssessment}
use tfr.Events as Events
use tfr.Adapters.{ParsedInbound, parse, adapter_for}
use tfr.Adapters as Adapters
use tfr.Session.{
  Runtime, WorldSession, Exception, Progress, goes_on, returned, raised, Content, SessionState,
  event_of, publish, set_state, send_command, write, audited, serve, ended_by_quit, is_stale,
  hand_over, remember_nospoof_sender,
}
use tfr.Session.Reading.{
  and_then, remember_sender, expects, publish_assessed, publish_parsed, publish_result,
  publish_inbound,
}

-- A property that the changes of single fields keep, and the events that a session numbers itself.
pub record IsStable (r : Runtime) (P : WorldSession → Type 0) : Type 1 where
  pub on_state : (s : WorldSession) (x : SessionState) → P s → P (record s { state = x })
  pub on_generation : (s : WorldSession) (n : ℕ) → P s → P (record s { connection_generation = n })
  pub on_connected : (s : WorldSession) (b : Bool) → P s → P (record s { is_connected = b })
  pub on_activity : (s : WorldSession) (n : ℕ) → P s → P (record s { last_command_activity = n })
  pub on_quit : (s : WorldSession) (b : Bool) → P s → P (record s { quit_requested = b })
  pub on_expect :
      (s : WorldSession) (b : Bool) → P s → P (record s { expect_nospoof_continuation = b })
  pub on_written : (s : WorldSession) (t : List ℕ) → P s → P (record s { written = t })
  pub on_forget : (s : WorldSession) → P s → P (record s { nospoof_senders = [] })
  pub on_remember :
      (s : WorldSession) (sender : List ℕ) → P s → P (remember_nospoof_sender r sender s)
  pub on_event :
      (s : WorldSession) (e : Event)
      → P s
      → e.sequence ≡ s.sequence
      → e.session_id ≡ s.session_id
      → e.world ≡ s.world
      → P (hand_over e s)

module _ (r : Runtime) {P : WorldSession → Type 0} (stable : IsStable r P) where
  pub publish-keeps : (s : WorldSession) (c : Content) → P s → P (publish r s c)
  unfolding publish event_of
  publish-keeps s c v = stable.on_event s (event_of r s c) v refl refl refl

  pub set_state-keeps :
      (state : SessionState) (metadata : Fields) (s : WorldSession)
      → P s
      → P (set_state r state metadata s)
  unfolding set_state
  set_state-keeps state metadata s v =
      publish-keeps (record s { state = state }) _ (stable.on_state s state v)

  -- A request of the session.
  audited-keeps :
      (s : WorldSession) (request : CommandRequest)
      → request.session_id ≡ s.session_id
      → request.world ≡ s.world
      → P s
      → P (audited r s request)
  unfolding audited Events.outbound_audit_event
  audited-keeps s request i w v = stable.on_quit (hand_over _ s) _ (stable.on_event s _ v refl i w)

  write-keeps : (s : WorldSession) (o : Result Exception (List ℕ)) → P s → P (write r s o).0
  unfolding write
  write-keeps s (err e) v = v
  write-keeps s (ok encoded) v =
      stable.on_activity _ _ (stable.on_written _ _ (stable.on_expect s false v))

  pub send_command-keeps :
      (s : WorldSession) (request : CommandRequest) → P s → P (send_command r s request).0
  unfolding send_command
  send_command-keeps s request v =
      elim (Bool-cases
        (not (request.session_id == s.session_id) || not (text_eq request.world s.world))) [
          | inl e ↦ rw e v
          | inr e ↦ rw e (
              write-keeps (audited r s request) (r.encode s.config.encoding request.text) (
                audited-keeps s request (ground arith)
                  (text_eq_sound request.world s.world (ground arith)) v))
        ]

  quit-keeps : (o : WorldSession × Progress) → P o.0 → P (ended_by_quit o).0
  unfolding ended_by_quit
  quit-keeps (s, goes_on) v =
      elim s.quit_requested
        as (λ q. P (if◌then◌else◌ {A = WorldSession × Progress} q (s, returned) (s, goes_on)).0) [
          | true ↦ v
          | false ↦ v
        ]
  quit-keeps (s, returned) v = v
  quit-keeps (s, raised e) v = v

  pub serve-keeps : (s : WorldSession) (request : CommandRequest) → P s → P (serve r s request).0
  unfolding serve
  serve-keeps s request v =
      elim (Bool-cases (is_stale request.expected_connection_generation s.connection_generation)) [
        | inl e ↦ rw e v
        | inr e ↦ rw e (quit-keeps (send_command r s request) (send_command-keeps s request v))
      ]

  pub and_then-keeps :
      (o : WorldSession × Progress) (next : WorldSession → WorldSession × Progress)
      → P o.0
      → ((s : WorldSession) → P s → P (next s).0)
      → P (and_then o next).0
  and_then-keeps (s, goes_on) next v h = h s v
  and_then-keeps (s, returned) next v h = v
  and_then-keeps (s, raised e) next v h = v

  remember_sender-keeps :
      (name : Option (List ℕ)) (s : WorldSession) → P s → P (remember_sender r name s)
  unfolding remember_sender
  remember_sender-keeps none s v = v
  remember_sender-keeps (some []) s v = v
  remember_sender-keeps (some (c ∷ name)) s v = stable.on_remember s (c ∷ name) v

  expects-keeps :
      (o : Option Provenance) (parsed : ParsedInbound) (s : WorldSession)
      → P s
      → P (expects r o parsed s)
  unfolding expects
  expects-keeps (some p) parsed s v =
      remember_sender-keeps p.sender_name (record s { expect_nospoof_continuation = true })
        (stable.on_expect s true v)
  expects-keeps none parsed s v = stable.on_expect s _ v

  publish_assessed-keeps :
      (s : WorldSession) (parsed : ParsedInbound) (o : Result Events.Error (Option SpoofAssessment))
      → P s
      → P (publish_assessed r s parsed o).0
  unfolding publish_assessed
  publish_assessed-keeps s parsed (err e) v = v
  publish_assessed-keeps s parsed (ok spoof) v = publish-keeps s _ v

  publish_result-keeps :
      (s : WorldSession) (o : Result Adapters.Error ParsedInbound)
      → P s
      → P (publish_result r s o).0
  unfolding publish_result publish_parsed
  publish_result-keeps s (err e) v = v
  publish_result-keeps s (ok parsed) v =
      publish_assessed-keeps (expects r parsed.provenance parsed s) parsed _
        (expects-keeps parsed.provenance parsed s v)

  pub publish_inbound-keeps :
      (line : List ℕ) (s : WorldSession) → P s → P (publish_inbound r line s).0
  unfolding publish_inbound
  publish_inbound-keeps line s v =
      publish_result-keeps s
        (parse r.alphabet r.patterns (adapter_for s.config.server) line s.config.show_prefix) v
