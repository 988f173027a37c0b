-- ===== src/Session/Stopping.antt =====
-- _run of src/tfr/sessions.py: how a session comes to its end.
use tfr.Base.{
  ◌≡◌, refl, Bool, true, false, some, ◌||◌, not, List, [], ◌∷◌, ◌++◌, map, Bool-cases, inl, inr,
}
use tfr.Json.{end}
use tfr.Session.{
  Runtime, WorldSession, Exception, stopped, connecting, publish, set_state, hand_over,
}
use tfr.Session.Running.{
  Attempt, over, refused, cancelled, connect_and_run, disconnect, finish, wait, go_again, run,
  start,
}

module _ (r : Runtime) where
  abbrev pub IsStopped : WorldSession → Type 0
  IsStopped s = (s.state ≡ stopped) × (s.is_connected ≡ false)

  finish-IsStopped : (s : WorldSession) → IsStopped (finish r s)
  unfolding finish set_state publish hand_over
  finish-IsStopped s = (refl, refl)

  -- The end of a run, with the session stopped.
  abbrev IsOver : WorldSession × Bool → Type 0
  IsOver o = (o.1 ≡ true) × IsStopped o.0

  go_again-IsOver :
      (s : WorldSession) (e : Exception) (again : WorldSession → WorldSession × Bool)
      → ((t : WorldSession) → IsOver (again t))
      → IsOver (go_again r s (over (some e)) again)
  unfolding go_again
  go_again-IsOver s e again h =
      let t : WorldSession = disconnect r (some e) s in
      elim (Bool-cases (t.quit_requested || not t.config.reconnect)) [
        | inl q ↦ rw q (refl, finish-IsStopped t)
        | inr q ↦ rw q (h (wait r t))
      ]

  run-IsOver :
      (errors : List Exception) (later : List (Attempt r)) (s : WorldSession)
      → IsOver (run r (map refused errors ++ cancelled ∷ later) s)
  unfolding run connect_and_run go_again
  run-IsOver [] later s = (refl, finish-IsStopped (set_state r connecting end s))
  run-IsOver (e ∷ errors) later s =
      go_again-IsOver (set_state r connecting end s) e
        (run r (map refused errors ++ cancelled ∷ later)) (run-IsOver errors later)

  -- A session that is started and then stopped while it tries to connect comes to its end, however
  -- often the connection was refused before, and it is then stopped and not connected.
  pub start-ends :
      (errors : List Exception) (later : List (Attempt r)) (s : WorldSession)
      → ((start r (map refused errors ++ cancelled ∷ later) s).1 ≡ true)
        × IsStopped (start r (map refused errors ++ cancelled ∷ later) s).0
  unfolding start
  start-ends [] later s = run-IsOver [] later (record s { quit_requested = false })
  start-ends (e ∷ errors) later s =
      run-IsOver (e ∷ errors) later (record s { quit_requested = false })
