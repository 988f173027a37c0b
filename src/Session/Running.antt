-- ===== src/Session/Running.antt =====
-- _send_startup, _connect_and_run and _run of src/tfr/sessions.py. What happens to a session is a list
-- of attempts to connect, and of what happens in a connection: the reader and the writer take turns in
-- any order. The idle loop only submits commands, so its commands are among the requests. The stop
-- event has no part of its own: stop() cancels the runner in the same step as it sets the event.
use tfr.Base.{
  ℕ, suc, Bool, true, false, ◌&&◌, ◌||◌, not, Option, none, some, List, [], ◌∷◌, ◌++◌, ◌==◌,
  if◌then◌else◌, codes,
}
use tfr.Json.{Fields, null, bool, text, field, end}
use tfr.Events.{is_empty, startup, CommandRequest}
use tfr.Telnet.{codec}
use tfr.Session.{
  Runtime, WorldSession, Config, Login, Exception, Progress, goes_on, returned, raised, stopped,
  connecting, connected, reconnect_wait, disconnected, set_state, send_command, serve, is_stale,
  remember_nospoof_sender,
}
use tfr.Session.Reading.{Reader, Chunk, read, and_then, has_nospoof}

abbrev pub has_space : (ℕ → Bool) → List ℕ → Bool
has_space test [] = false
has_space test (c ∷ t) = test c || has_space test t

-- character.replace("\\", "\\\\").replace('"', '\\"')
abbrev pub quoted : List ℕ → List ℕ
quoted [] = []
quoted (c ∷ t) = let rest = quoted t in if c == 0x5c || c == 0x22 then 0x5c ∷ c ∷ rest else c ∷ rest

-- What happens in a connection. A request may be written although drain() raises then. Once the runner is cancelled, it closes the writer and ends.
pub data Activity (r : Runtime) : Type 0 where
  reads : Chunk r → Activity r
  requests : CommandRequest → Activity r
  undrained_requests : CommandRequest → Exception → Activity r
  cancels closes : Activity r

-- The runner is cancelled while it connects, or, interrupted, while it waits to connect again.
pub data Attempt (r : Runtime) : Type 0 where
  refused : Exception → Attempt r
  cancelled interrupted : Attempt r
  accepted : List (Activity r) → Attempt r

-- How a connection stands at the end of what happened: it is open, the runner was cancelled and has
-- ended, or the connection ended.
pub data Ending : Type 0 where
  still_open dropped : Ending
  over : Option Exception → Ending

-- The error of a connection that is over, and the fields that tell it.
unfoldable pub connection_error : Option Exception → Bool → Option Exception
connection_error (some e) quit = some e
connection_error none true = none
connection_error none false =
    some (record { type = codes "ConnectionEnded"; message = codes "remote closed the connection" })

abbrev error_fields : Option Exception → Fields → Fields
error_fields none rest = field (codes "error_type") null (field (codes "error") null rest)
error_fields (some e) rest =
    field (codes "error_type") (text e.type) (field (codes "error") (text e.message) rest)

unfoldable pub begin :
    WorldSession × Progress → (WorldSession → WorldSession × Ending) → WorldSession × Ending
begin (s, goes_on) next = next s
begin (s, returned) next = next s
begin (s, raised e) next = (s, over (some e))

module _ (r : Runtime) where
  abbrev pub login_name : List ℕ → List ℕ
  login_name character =
      if has_space r.alphabet.is_space character
      then 0x22 ∷ (quoted character ++ 0x22 ∷ [])
      else character

  -- A request of the session itself.
  unfoldable pub own_request : WorldSession → List ℕ → List ℕ → Bool → CommandRequest
  own_request s id command sensitive = record {
    session_id = s.session_id;
    world = s.world;
    actor = record { type = startup; id = id };
    text = command;
    request_id = r.request_id s.sequence;
    sensitive = sensitive;
    correlation_id = none;
    causation_id = none;
    metadata = end;
    expected_connection_generation = none;
  }

  unfoldable pub send_login : Login → WorldSession → WorldSession × Progress
  unfolding own_request
  send_login login s = send_command r s (
      own_request s (codes "automatic-login")
        (codes "connect " ++ (login_name login.character ++ (0x20 ∷ login.password))) true)

  unfoldable pub enable_nospoof : WorldSession → WorldSession × Progress
  unfolding own_request
  enable_nospoof s =
      if s.config.nospoof && has_nospoof s.config.server
      then send_command r s (own_request s (codes "enable-nospoof") (codes "@set me=NOSPOOF") false)
      else (s, goes_on)

  unfoldable pub log_in : Option Login → WorldSession → WorldSession × Progress
  unfolding send_login enable_nospoof
  log_in none s = (s, goes_on)
  log_in (some login) s = and_then (send_login login s) enable_nospoof

  -- CommandRequest refuses an empty text, which the other commands of the session never have.
  unfoldable pub send_startup_command : WorldSession → List ℕ → WorldSession × Progress
  unfolding own_request
  send_startup_command s command =
      if is_empty command
      then (
        s,
        raised
            (record { type = codes "ValueError"; message = codes "command text cannot be empty" }),
      )
      else send_command r s (own_request s (codes "startup-command") command false)

  unfoldable pub send_commands : List (List ℕ) → WorldSession → WorldSession × Progress
  unfolding send_startup_command
  send_commands [] s = (s, goes_on)
  send_commands (command ∷ commands) s =
      and_then (send_startup_command s command) (send_commands commands)

  unfoldable pub send_startup : WorldSession → WorldSession × Progress
  unfolding log_in send_commands
  send_startup s = and_then (log_in s.config.login s) (send_commands s.config.startup_commands)

  unfoldable pub remember_login : Option Login → WorldSession → WorldSession
  remember_login none s = s
  remember_login (some login) s = remember_nospoof_sender r login.character s

  -- The state of a connection that is open.
  unfoldable pub opened : WorldSession → WorldSession
  unfolding remember_login
  opened s =
      let t = remember_login s.config.login (record s {
        connection_generation = suc s.connection_generation;
        nospoof_senders = [];
        expect_nospoof_continuation = false;
        written = [];
      }) in
      set_state r connected
        (field (codes "tls") (bool s.config.tls_enabled)
          (field (codes "tls_verified") (bool (s.config.tls_enabled && s.config.tls_verify)) end))
        (record t { is_connected = true; last_command_activity = r.loop_time s.sequence })

  new_reader : Config → Reader r
  new_reader config = record {
    codec = codec (codes "TFR") 80 24 config.encoding;
    decoder = r.new_decoder config.encoding;
    framer = record { maximum_frame_characters = 16384; pending = [] };
  }

  abbrev pub with_reader : Reader r → WorldSession × Progress → WorldSession × Reader r × Progress
  with_reader reader (s, p) = (s, reader, p)

  -- A list of what happens, up to what ends the connection.
  unfoldable pub continue :
      WorldSession × Reader r × Progress
      → (Reader r → WorldSession → WorldSession × Ending)
      → WorldSession × Ending
  continue (s, reader, goes_on) next = next reader s
  continue (s, reader, returned) next = (s, over none)
  continue (s, reader, raised e) next = (s, over (some e))

  unfoldable pub finish : WorldSession → WorldSession
  finish s = set_state r stopped end (record s { is_connected = false })

  -- serve, when drain() raises behind what is written.
  unfoldable pub drain_failed : Exception → ℕ → WorldSession × Progress → WorldSession × Progress
  drain_failed e activity (t, goes_on) = (record t { last_command_activity = activity }, raised e)
  drain_failed e activity (t, returned) = (record t { last_command_activity = activity }, raised e)
  drain_failed e activity (t, raised other) = (t, raised other)

  unfoldable pub serve_undrained :
      WorldSession → CommandRequest → Exception → WorldSession × Progress
  unfolding drain_failed
  serve_undrained s request e =
      if is_stale request.expected_connection_generation s.connection_generation
      then (s, goes_on)
      else drain_failed e s.last_command_activity (send_command r s request)

  -- The tasks that a cancelled runner leaves: nothing cancels the reader and the writer then.
  pub record Tasks : Type 0 where
    pub reader : Reader r
    pub is_reading : Bool
    pub is_writing : Bool
    pub is_closed : Bool

  abbrev pub is_going : Progress → Bool
  is_going goes_on = true
  is_going _ = false

  unfoldable pub linger_read :
      Bool → Tasks → WorldSession × Reader r × Progress → WorldSession → WorldSession × Tasks
  linger_read true tasks (t, reader, p) s =
      (t, record tasks { reader = reader; is_reading = is_going p })
  linger_read false tasks o s = (s, tasks)

  unfoldable pub linger_served :
      Bool → Tasks → WorldSession × Progress → WorldSession → WorldSession × Tasks
  linger_served true tasks (t, p) s = (t, record tasks { is_writing = is_going p })
  linger_served false tasks o s = (s, tasks)

  unfoldable pub linger_closed : Bool → Tasks → WorldSession → WorldSession × Tasks
  unfolding finish
  linger_closed true tasks s = (s, tasks)
  linger_closed false tasks s = (finish s, record tasks { is_closed = true })

  unfoldable pub linger_step : Activity r → Tasks → WorldSession → WorldSession × Tasks
  unfolding linger_read linger_served linger_closed serve_undrained
  linger_step (reads chunk) tasks s =
      linger_read tasks.is_reading tasks (read r tasks.reader chunk s) s
  linger_step (requests request) tasks s =
      linger_served tasks.is_writing tasks (serve r s request) s
  linger_step (undrained_requests request e) tasks s =
      linger_served tasks.is_writing tasks (serve_undrained s request e) s
  linger_step cancels tasks s = (s, tasks)
  linger_step closes tasks s = linger_closed tasks.is_closed tasks s

  unfoldable pub linger : List (Activity r) → Tasks → WorldSession → WorldSession × Ending
  unfolding linger_step
  linger [] tasks s = (s, if tasks.is_closed then dropped else still_open)
  linger (activity ∷ activities) tasks s =
      let (t, left) = linger_step activity tasks s in linger activities left t

  unfoldable pub converse : List (Activity r) → Reader r → WorldSession → WorldSession × Ending
  unfolding continue linger serve_undrained
  converse [] reader s = (s, still_open)
  converse (cancels ∷ activities) reader s =
      linger activities
        (record { reader = reader; is_reading = true; is_writing = true; is_closed = false }) s
  converse (closes ∷ activities) reader s = converse activities reader s
  converse (reads chunk ∷ activities) reader s =
      continue (read r reader chunk s) (converse activities)
  converse (requests request ∷ activities) reader s =
      continue (with_reader reader (serve r s request)) (converse activities)
  converse (undrained_requests request e ∷ activities) reader s =
      continue (with_reader reader (serve_undrained s request e)) (converse activities)

  unfoldable pub connect_and_run : Attempt r → WorldSession → WorldSession × Ending
  unfolding opened send_startup new_reader converse begin finish
  connect_and_run (refused e) s = (s, over (some e))
  connect_and_run cancelled s = (finish s, dropped)
  connect_and_run interrupted s = (finish s, dropped)
  connect_and_run (accepted activities) s =
      begin (send_startup (opened s)) (converse activities (new_reader s.config))

  unfoldable pub disconnect : Option Exception → WorldSession → WorldSession
  unfolding connection_error
  disconnect e s =
      set_state r disconnected
        (error_fields (connection_error e s.quit_requested)
          (field (codes "intentional") (bool s.quit_requested) end))
        (record s { is_connected = false })

  unfoldable pub wait : WorldSession → WorldSession
  wait s = set_state r reconnect_wait (field (codes "delay_seconds") s.config.reconnect_delay end) s

  unfoldable pub go_again :
      WorldSession → Ending → (WorldSession → WorldSession × Bool) → WorldSession × Bool
  unfolding disconnect finish wait
  go_again s still_open again = (s, false)
  go_again s dropped again = (s, true)
  go_again s (over e) again =
      let t = disconnect e s in
      let next = again (wait t) in
      if t.quit_requested || not t.config.reconnect then (finish t, true) else next

  -- _run over what happens, and whether it came to its end.
  unfoldable pub run : List (Attempt r) → WorldSession → WorldSession × Bool
  unfolding go_again
  run [] s = (set_state r connecting end s, false)
  run (interrupted ∷ attempts) s = (finish s, true)
  run (attempt ∷ attempts) s =
      let (t, ending) = connect_and_run attempt (set_state r connecting end s) in
      go_again t ending (run attempts)

  -- start: the runner begins with the mark of an earlier quit removed. A task that is cancelled before
  -- it began does nothing.
  unfoldable pub start : List (Attempt r) → WorldSession → WorldSession × Bool
  unfolding run
  start (interrupted ∷ attempts) s = (record s { quit_requested = false }, true)
  start attempts s = run attempts (record s { quit_requested = false })
