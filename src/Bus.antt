-- ===== src/Bus.antt =====
-- src/tfr/core.py: EventBus and CommandBus. A sink is a state that takes events, which is taken to
-- accept them, and a processor is a function. asyncio.Queue is its items and its bound, 0 for none. A
-- publish that has to wait for a subscriber is not a step of the model.
pub mod Windows
pub mod Delivery
pub mod Routing
pub mod Examples
use tfr.Base.{
  ℕ, Bool, true, false, ◌&&◌, not, Option, none, some, List, [], ◌∷◌, ◌++◌, ltb, leb, ◌==◌,
  if◌then◌else◌, Result, ok, err, length, drop,
}
use tfr.Events.{CommandRequest}

pub record Queue {ℓ} (E : Type ℓ) : Type ℓ where
  pub maxsize : ℕ
  pub items : List E

pub record Subscriber {ℓ} (E : Type ℓ) : Type ℓ where
  pub id : ℕ
  pub backpressure : Bool
  pub queue : Queue E

pub record EventBus {ℓ} (E S : Type ℓ) : Type ℓ where
  pub sinks : List S
  pub processors : List (E → E)
  pub subscribers : List (Subscriber E)
  pub closed : Bool

pub data Error : Type 0 where
  bus_closed bound_required would_wait duplicate_session unknown_session queue_full : Error

module _ {ℓ} {E : Type ℓ} where
  -- queue.full()
  unfoldable pub is_full : Queue E → Bool
  is_full q = ltb 0 q.maxsize && leb q.maxsize (length q.items)

  -- put_nowait on a queue that is not full, and get_nowait with the item left out.
  abbrev pub put : E → Queue E → Queue E
  put e q = record q { items = q.items ++ e ∷ [] }

  abbrev pub forget : Queue E → Queue E
  forget q = record q { items = drop 1 q.items }

  -- The event for one subscriber: a full queue that has no back-pressure loses its oldest item.
  unfoldable pub deliver : E → Subscriber E → Option (Subscriber E)
  unfolding is_full
  deliver e s =
      if s.backpressure
      then (if is_full s.queue then none else some (record s { queue = put e s.queue }))
      else if is_full s.queue
      then some (record s { queue = put e (forget s.queue) })
      else some (record s { queue = put e s.queue })

  abbrev pub cons_option :
      Option (Subscriber E) → Option (List (Subscriber E)) → Option (List (Subscriber E))
  cons_option (some s) (some ss) = some (s ∷ ss)
  cons_option none o = none
  cons_option (some s) none = none

  unfoldable pub deliver_all : E → List (Subscriber E) → Option (List (Subscriber E))
  unfolding deliver
  deliver_all e [] = some []
  deliver_all e (s ∷ ss) = cons_option (deliver e s) (deliver_all e ss)

  abbrev pub process : List (E → E) → E → E
  process [] e = e
  process (p ∷ ps) e = process ps (p e)

  without : ℕ → List (Subscriber E) → List (Subscriber E)
  without id [] = []
  without id (s ∷ ss) = let rest = without id ss in if s.id == id then rest else s ∷ rest

abbrev pub close_all {ℓ} : {S : Type ℓ} → (S → S) → List S → List S
close_all close_sink [] = []
close_all close_sink (s ∷ ss) = close_sink s ∷ close_all close_sink ss

module _ {ℓ} {E S : Type ℓ} where
  abbrev pub create : List S → List (E → E) → EventBus E S
  create sinks processors = record {
    sinks = sinks;
    processors = processors;
    subscribers = [];
    closed = false;
  }

  -- The new queue is known by its id, which is new.
  unfoldable pub subscribe : ℕ → ℕ → Bool → EventBus E S → Result Error (EventBus E S)
  subscribe id maxsize backpressure b =
      if b.closed
      then err bus_closed
      else if backpressure && ltb maxsize 1
      then err bound_required
      else ok (record b {
        subscribers =
            record {
              id = id;
              backpressure = backpressure;
              queue = record { maxsize = maxsize; items = [] };
            }
            ∷ b.subscribers;
      })

  unfoldable pub unsubscribe : ℕ → EventBus E S → EventBus E S
  unfolding without
  unsubscribe id b = record b { subscribers = without id b.subscribers }

  unfoldable pub add_processor : (E → E) → EventBus E S → Result Error (EventBus E S)
  add_processor p b =
      if b.closed then err bus_closed else ok (record b { processors = b.processors ++ p ∷ [] })

  -- write is the method of a sink that takes an event, close_sink the one that closes it.
  abbrev pub write_all : (S → E → S) → E → List S → List S
  write_all write e [] = []
  write_all write e (s ∷ ss) = write s e ∷ write_all write e ss

  unfoldable pub published :
      (S → E → S) → E → EventBus E S → Option (List (Subscriber E)) → Result Error (EventBus E S)
  published write e b none = err would_wait
  published write e b (some ss) =
      ok (record b { sinks = write_all write e b.sinks; subscribers = ss })

  unfoldable pub publish : (S → E → S) → E → EventBus E S → Result Error (EventBus E S)
  unfolding published deliver_all
  publish write e b =
      if b.closed
      then err bus_closed
      else (let processed = process b.processors e in
          published write processed b (deliver_all processed b.subscribers))

  unfoldable pub close : (S → S) → EventBus E S → EventBus E S
  close close_sink b =
      if b.closed
      then b
      else record b { sinks = close_all close_sink b.sinks; subscribers = []; closed = true }

-- The queues by their sessions' ids.
pub record CommandBus : Type 0 where
  pub queues : ℕ → Option (Queue CommandRequest)

abbrev pub set : ℕ → Option (Queue CommandRequest) → CommandBus → CommandBus
set id o b = record { queues = λ k. if k == id then o else b.queues k }

abbrev pub register_new :
    Option (Queue CommandRequest) → ℕ → ℕ → CommandBus → Result Error CommandBus
register_new (some q) id maxsize b = err duplicate_session
register_new none id maxsize b = ok (set id (some (record { maxsize = maxsize; items = [] })) b)

unfoldable pub register : ℕ → ℕ → CommandBus → Result Error CommandBus
register id maxsize b = register_new (b.queues id) id maxsize b

unfoldable pub unregister : ℕ → CommandBus → CommandBus
unregister id b = set id none b

-- submit_nowait, and submit, which waits for a full queue.
unfoldable pub submit_to :
    Error → Option (Queue CommandRequest) → CommandRequest → CommandBus → Result Error CommandBus
unfolding is_full
submit_to e none request b = err unknown_session
submit_to e (some q) request b =
    if is_full q then err e else ok (set request.session_id (some (put request q)) b)

unfoldable pub submit_nowait : CommandRequest → CommandBus → Result Error CommandBus
unfolding submit_to
submit_nowait request b = submit_to queue_full (b.queues request.session_id) request b

unfoldable pub submit : CommandRequest → CommandBus → Result Error CommandBus
unfolding submit_to
submit request b = submit_to would_wait (b.queues request.session_id) request b
