-- ===== src/Bus/Routing.antt =====
-- CommandBus of src/tfr/core.py: where commands end up.
use tfr.Base.{
  ℕ, ◌≡◌, ◌≤◌, ◌<◌, refl, true, false, Option, none, some, List, [], ◌∷◌, ◌==◌, arith, Result, ok,
  err, Bool-cases, inl, inr, length, length-append, All, All-append,
}
use mathlib.Core.Path.{subst}
use tfr.Events.{CommandRequest}
use tfr.Bus.{
  Queue, CommandBus, Error, is_full, put, set, register_new, register, unregister, submit_to,
  submit_nowait, submit, queue_full, would_wait,
}
use tfr.Bus.Windows.{full_off}

-- The calls of a command bus. A call that raises leaves it as it was.
pub data Call : Type 0 where
  registers : ℕ → ℕ → Call
  unregisters : ℕ → Call
  submits submits_nowait : CommandRequest → Call

abbrev pub after : CommandBus → Result Error CommandBus → CommandBus
after b (ok c) = c
after b (err e) = b

abbrev pub perform : CommandBus → Call → CommandBus
perform b (registers id maxsize) = after b (register id maxsize b)
perform b (unregisters id) = unregister id b
perform b (submits request) = after b (submit request b)
perform b (submits_nowait request) = after b (submit_nowait request b)

abbrev pub run : CommandBus → List Call → CommandBus
run b [] = b
run b (call ∷ calls) = run (perform b call) calls

-- The commands of a session's queue are for that session, and are not more than fit.
pub record IsFor (id : ℕ) (q : Queue CommandRequest) : Type 0 where
  pub own : All (λ (x : CommandRequest). x.session_id ≡ id) q.items
  pub few : 0 < q.maxsize → length q.items ≤ q.maxsize

abbrev pub IsRouted : CommandBus → Type 0
IsRouted b = (id : ℕ) (q : Queue CommandRequest) → b.queues id ≡ some q → IsFor id q

set-IsRouted :
    (id : ℕ) (o : Option (Queue CommandRequest)) (b : CommandBus)
    → IsRouted b
    → ((q : Queue CommandRequest) → o ≡ some q → IsFor id q)
    → IsRouted (set id o b)
set-IsRouted id o b v h k q = elim (Bool-cases (k == id)) [
  | inl e ↦ rw (e, same k id e) (h q)
  | inr e ↦ rw e (v k q)
]
  where
    same : (j i : ℕ) → (j == i) ≡ true → j ≡ i
    same j i e = ground arith

put-IsFor :
    (request : CommandRequest) (q : Queue CommandRequest)
    → is_full q ≡ false
    → IsFor request.session_id q
    → IsFor request.session_id (put request q)
put-IsFor request q h v = record {
  own =
      All-append (λ (x : CommandRequest). x.session_id ≡ request.session_id) q.items (request ∷ [])
        v.own (refl, tt);
  few = λ p. omega (arith, length-append q.items (request ∷ []), full_off q h p);
}

submit_to-IsRouted :
    (e : Error) (o : Option (Queue CommandRequest)) (request : CommandRequest) (b : CommandBus)
    → IsRouted b
    → ((q : Queue CommandRequest) → o ≡ some q → IsFor request.session_id q)
    → IsRouted (after b (submit_to e o request b))
unfolding submit_to
submit_to-IsRouted e none request b v h = v
submit_to-IsRouted e (some q) request b v h = elim (Bool-cases (is_full q)) [
  | inl f ↦ rw f v
  | inr f ↦ rw f (
      set-IsRouted request.session_id (some (put request q)) b v (λ p s.
        let same : put request q ≡ p = cc in
        subst (IsFor request.session_id) same (put-IsFor request q f (h q refl))))
]

register_new-IsRouted :
    (o : Option (Queue CommandRequest)) (id maxsize : ℕ) (b : CommandBus)
    → IsRouted b
    → IsRouted (after b (register_new o id maxsize b))
register_new-IsRouted (some q) id maxsize b v = v
register_new-IsRouted none id maxsize b v =
    set-IsRouted id (some (record { maxsize = maxsize; items = [] })) b v (λ p s.
      let same : record { maxsize = maxsize; items = [] } ≡ p = cc in
      subst (IsFor id) same (record { own = tt; few = λ z. omega arith }))

perform-IsRouted : (b : CommandBus) (call : Call) → IsRouted b → IsRouted (perform b call)
unfolding register unregister submit submit_nowait
perform-IsRouted b (registers id maxsize) v = register_new-IsRouted (b.queues id) id maxsize b v
perform-IsRouted b (unregisters id) v = set-IsRouted id none b v (λ q s. cc)
perform-IsRouted b (submits request) v =
    submit_to-IsRouted would_wait (b.queues request.session_id) request b v (v request.session_id)
perform-IsRouted b (submits_nowait request) v =
    submit_to-IsRouted queue_full (b.queues request.session_id) request b v (v request.session_id)

run-IsRouted : (b : CommandBus) (calls : List Call) → IsRouted b → IsRouted (run b calls)
run-IsRouted b [] v = v
run-IsRouted b (call ∷ calls) v = run-IsRouted (perform b call) calls (perform-IsRouted b call v)

abbrev pub empty_bus : CommandBus
empty_bus = record { queues = λ k. none }

-- Whatever calls a new command bus gets, each queue has commands of its own session only, and no more
-- of them than its bound, if it has one.
pub calls_route : (calls : List Call) → IsRouted (run empty_bus calls)
calls_route calls = run-IsRouted empty_bus calls (λ id q h. cc)
