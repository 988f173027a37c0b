-- ===== src/Session/Examples.antt =====
-- Tests of the model of WorldSession of src/tfr/sessions.py, and its theorems at a concrete session.
-- The runtime of the tests encodes ASCII, decodes bytes as code points and finds no pattern in a line.
use tfr.Base.{
  ℕ, ◌≡◌, refl, Bool, true, false, ◌&&◌, none, some, List, [], ◌∷◌, ◌++◌, map, ltb, arith,
  if◌then◌else◌, ok, err, codes, text_eq,
}
use tfr.Json.{null}
use tfr.Events.{
  CommandRequest, Event, raw_output, connection, unknown, human, outbound_audit_event, audit_event,
}
use tfr.Events as Events
use tfr.Json.{end}
use tfr.Framer as Framer
use tfr.Ansi as Ansi
use tfr.Adapters as Adapters
use tfr.Spoofing.{assess_spoofing}
use tfr.Telnet.{codec, feed, receive}
use tfr.Telnet.Roundtrip.{just}
use tfr.Session.{
  Runtime, WorldSession, Login, Exception, goes_on, stopped, send_command, serve, set_state,
}
use tfr.Session.Reading.{read, bytes, end_of_stream}
use tfr.Session.Running.{
  Attempt, accepted, refused, cancelled, reads, requests, start, send_login, own_request,
  connect_and_run, opened,
}
use tfr.Session.Numbering.{IsNumbered, start-IsNumbered}
use tfr.Session.Senders.{HasSenders, start-HasSenders}
use tfr.Session.Wire.{send_command-read, line_end}
use tfr.Session.LoginName.{AsciiSpaces}
use tfr.Session.Secrecy.{login_hides_password}
use tfr.Session.Stopping.{IsStopped, start-ends}

abbrev are_ascii : List ℕ → Bool
are_ascii [] = true
are_ascii (c ∷ t) = ltb c 128 && are_ascii t

abbrev pub tests : Runtime
tests = record {
  alphabet = record { is_space = λ c. ltb c 33; casefold = λ t. t };
  encode = λ name t.
      if are_ascii t
      then ok t
      else err (record { type = codes "UnicodeEncodeError"; message = [] });
  Decoder = Unit;
  new_decoder = λ name. tt;
  decode = λ d t final. (tt, t);
  patterns = record {
    tinymux_full = λ t. none;
    tinymux_terse = λ t. none;
    rhost_full = λ t. none;
    has_say = λ t. false;
    has_page = λ t. false;
  };
  monotonic_ns = λ n. n;
  loop_time = λ n. n;
  request_id = λ n. n;
}

abbrev ann : Login
ann = record { character = codes "Ann"; password = codes "secret" }

abbrev pub fresh : WorldSession
fresh = record {
  session_id = 7;
  world = codes "mush";
  config = record {
    server = codes "tinymush";
    login = some ann;
    nospoof = true;
    show_prefix = false;
    startup_commands = codes "look" ∷ [];
    reconnect = true;
    encoding = codes "utf-8";
    tls_enabled = false;
    tls_verify = false;
    reconnect_delay = null;
  };
  state = stopped;
  connection_generation = 0;
  sequence = 0;
  is_connected = false;
  last_command_activity = 0;
  quit_requested = false;
  nospoof_senders = codes "Ann" ∷ [];
  expect_nospoof_continuation = false;
  published = [];
  written = [];
}

abbrev command_of : List ℕ → CommandRequest
command_of text = record {
  session_id = 7;
  world = codes "mush";
  actor = record { type = human; id = codes "ui" };
  text = text;
  request_id = 1;
  sensitive = false;
  correlation_id = none;
  causation_id = none;
  metadata = end;
  expected_connection_generation = none;
}

abbrev lost : Exception
lost = record { type = codes "OSError"; message = codes "refused" }

-- A refused connection, one that the world closes, and one that the user quits.
abbrev history : List (Attempt tests)
history =
    refused lost
    ∷ accepted (reads (bytes (codes "hello" ++ line_end)) ∷ reads end_of_stream ∷ [])
    ∷ accepted (requests (command_of (codes " quit ")) ∷ [])
    ∷ []

-- A session without a login reads a line, and the user quits it.
abbrev plain : WorldSession
plain = record fresh { config = record fresh.config { login = none; startup_commands = [] } }

abbrev short : List (Attempt tests)
short =
    accepted (reads (bytes (codes "hi" ++ line_end)) ∷ requests (command_of (codes "quit")) ∷ [])
    ∷ []

start-published :
    map (λ e. e.kind) (start tests short plain).0.published
    ≡ connection ∷ connection ∷ raw_output ∷ Events.command ∷ connection ∷ connection ∷ []
unfolding start connect_and_run set_state codec read serve send_command text_eq feed receive
    assess_spoofing Adapters.parse Adapters.adapter_for Ansi.plain Ansi.tokens Ansi.tokens_from
    Ansi.control_rest Framer.feed Framer.scan Framer.is_full Framer.round opened
    outbound_audit_event
start-published = refl

pub fresh-IsNumbered : IsNumbered 7 (codes "mush") fresh
fresh-IsNumbered = record { own_id = refl; own_world = refl; counted = refl; events = tt }

start-IsNumbered_example : IsNumbered 7 (codes "mush") (start tests history fresh).0
start-IsNumbered_example = start-IsNumbered tests history fresh fresh-IsNumbered

fresh-HasSenders : HasSenders tests fresh
fresh-HasSenders = record { few = omega arith; distinct = (refl, tt) }

start-HasSenders_example : HasSenders tests (start tests history fresh).0
start-HasSenders_example = start-HasSenders tests history fresh fresh-HasSenders

start-ends_example :
    ((start tests (refused lost ∷ refused lost ∷ cancelled ∷ []) fresh).1 ≡ true)
    × IsStopped tests (start tests (refused lost ∷ refused lost ∷ cancelled ∷ []) fresh).0
start-ends_example = start-ends tests (lost ∷ lost ∷ []) [] fresh

send_command-read_example :
    ((send_command tests fresh (command_of (codes "say hi"))).1 ≡ goes_on)
    × ((sent : List ℕ) × ((send_command tests fresh (command_of (codes "say hi"))).0.written
          ≡ fresh.written ++ sent)
        × (feed (codec (codes "MUSH") 80 24 (codes "utf-8")) sent
            ≡ ok (codec (codes "MUSH") 80 24 (codes "utf-8"), just (codes "say hi" ++ line_end))))
unfolding codec
send_command-read_example =
    send_command-read tests fresh (command_of (codes "say hi")) (codes "say hi")
      (codec (codes "MUSH") 80 24 (codes "utf-8")) refl refl refl refl

tests-AsciiSpaces : AsciiSpaces tests.alphabet.is_space
tests-AsciiSpaces = record { space = refl; letter = refl; quote = refl }

login_hides_password_example :
    (send_login tests ann fresh).0.published
    ≡ audit_event
        (own_request tests fresh (codes "automatic-login") [] true)
        (record { text = codes "connect Ann [REDACTED]"; redacted = true })
        0
        0
        0
      ∷ []
login_hides_password_example = login_hides_password tests tests-AsciiSpaces ann fresh refl refl
