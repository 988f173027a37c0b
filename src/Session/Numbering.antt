-- ===== src/Session/Numbering.antt =====
-- The events that src/tfr/sessions.py hands to the event bus, over everything that happens to a session.
use tfr.Base.{
  ℕ, suc, ◌+◌, ◌≡◌, refl, sym, ap, ◌∙◌, List, [], ◌∷◌, ◌++◌, arith, length, length-append,
}
use tfr.Events.{Event}
use tfr.Session.{Runtime, WorldSession, hand_over, remember_nospoof_sender}
use tfr.Session.Running.{Attempt, start}
use tfr.Session.Stable.{IsStable}
use tfr.Session.Invariants.{start-keeps}

-- The events are numbered from a number on, and are of one session and world.
abbrev pub AreNumbered : ℕ → ℕ → List ℕ → List Event → Type 0
AreNumbered n id world [] = Unit
AreNumbered n id world (e ∷ es) =
    ((e.sequence ≡ n) × (e.session_id ≡ id) × (e.world ≡ world)) × AreNumbered (suc n) id world es

pub record IsNumbered (id : ℕ) (world : List ℕ) (s : WorldSession) : Type 0 where
  pub own_id : s.session_id ≡ id
  pub own_world : s.world ≡ world
  pub counted : s.sequence ≡ length s.published
  pub events : AreNumbered 0 id world s.published

module _ (id : ℕ) (world : List ℕ) where
  AreNumbered-append :
      (n : ℕ) (es : List Event) (e : Event)
      → AreNumbered n id world es
      → (e.sequence ≡ n + length es) × (e.session_id ≡ id) × (e.world ≡ world)
      → AreNumbered n id world (es ++ e ∷ [])
  AreNumbered-append n [] e h (q, i, w) = ((omega arith, i, w), tt)
  AreNumbered-append n (x ∷ es) e h (q, i, w) =
      (h.0, AreNumbered-append (suc n) es e h.1 (omega arith, i, w))

  hand_over-IsNumbered :
      (e : Event) (s : WorldSession)
      → IsNumbered id world s
      → e.sequence ≡ s.sequence
      → e.session_id ≡ s.session_id
      → e.world ≡ s.world
      → IsNumbered id world (hand_over e s)
  unfolding hand_over
  hand_over-IsNumbered e s v q i w = record {
    own_id = v.own_id;
    own_world = v.own_world;
    counted = omega (arith, v.counted, length-append s.published (e ∷ []));
    events =
        AreNumbered-append 0 s.published e v.events
          (omega (arith, q, v.counted), i ∙ v.own_id, w ∙ v.own_world);
  }

  -- The invariant reads four fields of a session.
  copy :
      (s t : WorldSession)
      → t.session_id ≡ s.session_id
      → t.world ≡ s.world
      → t.sequence ≡ s.sequence
      → t.published ≡ s.published
      → IsNumbered id world s
      → IsNumbered id world t
  copy s t i w q p v = record {
    own_id = i ∙ v.own_id;
    own_world = w ∙ v.own_world;
    counted = q ∙ v.counted ∙ ap length (sym p);
    events = rw p v.events;
  }

  pub IsNumbered-IsStable : (r : Runtime) → IsStable r (IsNumbered id world)
  unfolding remember_nospoof_sender
  IsNumbered-IsStable r = record {
    on_state = λ s x v. copy s _ refl refl refl refl v;
    on_generation = λ s x v. copy s _ refl refl refl refl v;
    on_connected = λ s x v. copy s _ refl refl refl refl v;
    on_activity = λ s x v. copy s _ refl refl refl refl v;
    on_quit = λ s x v. copy s _ refl refl refl refl v;
    on_expect = λ s x v. copy s _ refl refl refl refl v;
    on_written = λ s x v. copy s _ refl refl refl refl v;
    on_forget = λ s v. copy s _ refl refl refl refl v;
    on_remember = λ s x v. copy s _ refl refl refl refl v;
    on_event = λ s e v. hand_over-IsNumbered e s v;
  }

-- Whatever attempts, bytes, timeouts and commands a session is given, in any order, all events that it
-- has handed to the bus are of its own id and world and carry the numbers from 0 up without a gap, and
-- its counter is the number of events, if this was so before, as for a session without events.
pub start-IsNumbered :
    (r : Runtime) (attempts : List (Attempt r)) (s : WorldSession)
    → IsNumbered s.session_id s.world s
    → IsNumbered s.session_id s.world (start r attempts s).0
start-IsNumbered r attempts s v =
    start-keeps r (IsNumbered-IsStable s.session_id s.world r) attempts s v
