-- ===== src/Session/Invariants.antt =====
-- What every step of src/tfr/sessions.py keeps: a property of sessions that the single changes of a
-- session keep, all that happens to a session keeps.
use tfr.Base.{
  ℕ, suc, Bool, ◌&&◌, true, false, Option, none, some, List, [], ◌∷◌, Bool-cases, inl, inr, not,
  ◌||◌,
}
use tfr.Json.{end}
use tfr.Events.{is_empty, CommandRequest}
use tfr.Session.{
  Runtime, WorldSession, Exception, Progress, goes_on, returned, raised, Login, stopped, connecting,
  connected, reconnect_wait, disconnected, set_state, serve, is_stale, send_command,
}
use tfr.Session.Reading.{Reader, read, has_nospoof}
use tfr.Session.Running.{
  Activity, Attempt, Ending, still_open, dropped, over, refused, cancelled, accepted, reads,
  requests, cancels, closes, interrupted, Tasks, linger, linger_step, linger_read, linger_served,
  linger_closed, undrained_requests, drain_failed, serve_undrained, send_login, enable_nospoof,
  log_in, send_startup_command, send_commands, send_startup, remember_login, opened, converse,
  connect_and_run, disconnect, finish, wait, go_again, run, start, continue, begin, with_reader,
}
use tfr.Session.Stable.{IsStable, set_state-keeps, send_command-keeps, serve-keeps, and_then-keeps}
use tfr.Session.ReadingKeeps.{read-keeps}

module _ (r : Runtime) {P : WorldSession → Type 0} (stable : IsStable r P) where
  send_startup_command-keeps :
      (s : WorldSession) (command : List ℕ) → P s → P (send_startup_command r s command).0
  unfolding send_startup_command
  send_startup_command-keeps s command v = elim (Bool-cases (is_empty command)) [
    | inl e ↦ rw e v
    | inr e ↦ rw e (send_command-keeps r stable s _ v)
  ]

  send_commands-keeps :
      (commands : List (List ℕ)) (s : WorldSession) → P s → P (send_commands r commands s).0
  unfolding send_commands
  send_commands-keeps [] s v = v
  send_commands-keeps (command ∷ commands) s v =
      and_then-keeps r stable (send_startup_command r s command) (send_commands r commands)
        (send_startup_command-keeps s command v) (send_commands-keeps commands)

  enable_nospoof-keeps : (s : WorldSession) → P s → P (enable_nospoof r s).0
  unfolding enable_nospoof
  enable_nospoof-keeps s v = elim (Bool-cases (s.config.nospoof && has_nospoof s.config.server)) [
    | inl e ↦ rw e (send_command-keeps r stable s _ v)
    | inr e ↦ rw e v
  ]

  log_in-keeps : (o : Option Login) (s : WorldSession) → P s → P (log_in r o s).0
  unfolding log_in send_login
  log_in-keeps none s v = v
  log_in-keeps (some login) s v =
      and_then-keeps r stable (send_login r login s) (enable_nospoof r)
        (send_command-keeps r stable s _ v) enable_nospoof-keeps

  send_startup-keeps : (s : WorldSession) → P s → P (send_startup r s).0
  unfolding send_startup
  send_startup-keeps s v =
      and_then-keeps r stable (log_in r s.config.login s)
        (send_commands r s.config.startup_commands) (log_in-keeps s.config.login s v)
        (send_commands-keeps s.config.startup_commands)

  remember_login-keeps : (o : Option Login) (s : WorldSession) → P s → P (remember_login r o s)
  unfolding remember_login
  remember_login-keeps none s v = v
  remember_login-keeps (some login) s v = stable.on_remember s login.character v

  opened-keeps : (s : WorldSession) → P s → P (opened r s)
  unfolding opened
  opened-keeps s v = set_state-keeps r stable connected _ _ (
      stable.on_activity _ _ (
        stable.on_connected _ true (
          remember_login-keeps s.config.login _ (
            stable.on_written _ [] (
              stable.on_expect _ false
                (stable.on_forget _ (stable.on_generation s (suc s.connection_generation) v)))))))

  continue-keeps :
      (o : WorldSession × Reader r × Progress)
      (next : Reader r → WorldSession → WorldSession × Ending)
      → P o.0
      → ((reader : Reader r) (s : WorldSession) → P s → P (next reader s).0)
      → P (continue r o next).0
  unfolding continue
  continue-keeps (s, reader, goes_on) next v h = h reader s v
  continue-keeps (s, reader, returned) next v h = v
  continue-keeps (s, reader, raised e) next v h = v

  finish-keeps : (s : WorldSession) → P s → P (finish r s)
  unfolding finish
  finish-keeps s v = set_state-keeps r stable stopped _ _ (stable.on_connected s false v)

  linger_read-keeps :
      (b : Bool) (tasks : Tasks r) (o : WorldSession × Reader r × Progress) (s : WorldSession)
      → P o.0
      → P s
      → P (linger_read r b tasks o s).0
  unfolding linger_read
  linger_read-keeps true tasks (t, reader, p) s h v = h
  linger_read-keeps false tasks o s h v = v

  linger_served-keeps :
      (b : Bool) (tasks : Tasks r) (o : WorldSession × Progress) (s : WorldSession)
      → P o.0
      → P s
      → P (linger_served r b tasks o s).0
  unfolding linger_served
  linger_served-keeps true tasks (t, p) s h v = h
  linger_served-keeps false tasks o s h v = v

  linger_closed-keeps :
      (b : Bool) (tasks : Tasks r) (s : WorldSession) → P s → P (linger_closed r b tasks s).0
  unfolding linger_closed
  linger_closed-keeps true tasks s v = v
  linger_closed-keeps false tasks s v = finish-keeps s v

  drain_failed-keeps :
      (e : Exception) (activity : ℕ) (o : WorldSession × Progress)
      → P o.0
      → P (drain_failed r e activity o).0
  unfolding drain_failed
  drain_failed-keeps e activity (t, goes_on) v = stable.on_activity t activity v
  drain_failed-keeps e activity (t, returned) v = stable.on_activity t activity v
  drain_failed-keeps e activity (t, raised other) v = v

  serve_undrained-keeps :
      (s : WorldSession) (request : CommandRequest) (e : Exception)
      → P s
      → P (serve_undrained r s request e).0
  unfolding serve_undrained
  serve_undrained-keeps s request e v =
      elim (Bool-cases (is_stale request.expected_connection_generation s.connection_generation)) [
        | inl b ↦ rw b v
        | inr b ↦ rw b (
            drain_failed-keeps e s.last_command_activity (send_command r s request)
              (send_command-keeps r stable s request v))
      ]

  linger_step-keeps :
      (activity : Activity r) (tasks : Tasks r) (s : WorldSession)
      → P s
      → P (linger_step r activity tasks s).0
  unfolding linger_step
  linger_step-keeps (reads chunk) tasks s v =
      linger_read-keeps tasks.is_reading tasks (read r tasks.reader chunk s) s
        (read-keeps r stable tasks.reader chunk s v) v
  linger_step-keeps (requests request) tasks s v =
      linger_served-keeps tasks.is_writing tasks (serve r s request) s
        (serve-keeps r stable s request v) v
  linger_step-keeps (undrained_requests request e) tasks s v =
      linger_served-keeps tasks.is_writing tasks (serve_undrained r s request e) s
        (serve_undrained-keeps s request e v) v
  linger_step-keeps cancels tasks s v = v
  linger_step-keeps closes tasks s v = linger_closed-keeps tasks.is_closed tasks s v

  linger-keeps :
      (activities : List (Activity r)) (tasks : Tasks r) (s : WorldSession)
      → P s
      → P (linger r activities tasks s).0
  unfolding linger
  linger-keeps [] tasks s v = v
  linger-keeps (activity ∷ activities) tasks s v =
      linger-keeps activities (linger_step r activity tasks s).1 (linger_step r activity tasks s).0
        (linger_step-keeps activity tasks s v)

  converse-keeps :
      (activities : List (Activity r)) (reader : Reader r) (s : WorldSession)
      → P s
      → P (converse r activities reader s).0
  unfolding converse
  converse-keeps [] reader s v = v
  converse-keeps (cancels ∷ activities) reader s v = linger-keeps activities _ s v
  converse-keeps (closes ∷ activities) reader s v = converse-keeps activities reader s v
  converse-keeps (reads chunk ∷ activities) reader s v =
      continue-keeps (read r reader chunk s) (converse r activities)
        (read-keeps r stable reader chunk s v) (converse-keeps activities)
  converse-keeps (requests request ∷ activities) reader s v =
      continue-keeps (with_reader r reader (serve r s request)) (converse r activities)
        (serve-keeps r stable s request v) (converse-keeps activities)
  converse-keeps (undrained_requests request e ∷ activities) reader s v =
      continue-keeps (with_reader r reader (serve_undrained r s request e)) (converse r activities)
        (serve_undrained-keeps s request e v) (converse-keeps activities)

  begin-keeps :
      (o : WorldSession × Progress) (next : WorldSession → WorldSession × Ending)
      → P o.0
      → ((s : WorldSession) → P s → P (next s).0)
      → P (begin o next).0
  unfolding begin
  begin-keeps (s, goes_on) next v h = h s v
  begin-keeps (s, returned) next v h = h s v
  begin-keeps (s, raised e) next v h = v

  connect_and_run-keeps :
      (attempt : Attempt r) (s : WorldSession) → P s → P (connect_and_run r attempt s).0
  unfolding connect_and_run
  connect_and_run-keeps (refused e) s v = v
  connect_and_run-keeps cancelled s v = finish-keeps s v
  connect_and_run-keeps interrupted s v = finish-keeps s v
  connect_and_run-keeps (accepted activities) s v =
      begin-keeps (send_startup r (opened r s)) _
        (send_startup-keeps (opened r s) (opened-keeps s v)) (converse-keeps activities _)

  disconnect-keeps : (e : Option Exception) (s : WorldSession) → P s → P (disconnect r e s)
  unfolding disconnect
  disconnect-keeps e s v = set_state-keeps r stable disconnected _ _ (stable.on_connected s false v)

  go_again-keeps :
      (s : WorldSession) (ending : Ending) (again : WorldSession → WorldSession × Bool)
      → P s
      → ((t : WorldSession) → P t → P (again t).0)
      → P (go_again r s ending again).0
  unfolding go_again wait
  go_again-keeps s still_open again v h = v
  go_again-keeps s dropped again v h = v
  go_again-keeps s (over e) again v h =
      let t : WorldSession = disconnect r e s in
      let kept : P t = disconnect-keeps e s v in
      elim (Bool-cases (t.quit_requested || not t.config.reconnect)) [
        | inl q ↦ rw q (finish-keeps t kept)
        | inr q ↦ rw q (h _ (set_state-keeps r stable reconnect_wait _ t kept))
      ]

  run-keeps : (attempts : List (Attempt r)) (s : WorldSession) → P s → P (run r attempts s).0
  unfolding run
  run-keeps [] s v = set_state-keeps r stable connecting end s v
  run-keeps (interrupted ∷ attempts) s v = finish-keeps s v
  run-keeps (attempt ∷ attempts) s v =
      let began : P (set_state r connecting end s) = set_state-keeps r stable connecting end s v in
      go_again-keeps _ (connect_and_run r attempt (set_state r connecting end s)).1 (run r attempts)
        (connect_and_run-keeps attempt (set_state r connecting end s) began) (run-keeps attempts)

  -- What all single changes keep, a session's whole run keeps.
  pub start-keeps :
      (attempts : List (Attempt r)) (s : WorldSession) → P s → P (start r attempts s).0
  unfolding start
  start-keeps (interrupted ∷ attempts) s v = stable.on_quit s false v
  start-keeps attempts s v = run-keeps attempts _ (stable.on_quit s false v)
