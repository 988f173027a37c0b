-- ===== src/Bus/Examples.antt =====
-- Tests of the model of src/tfr/core.py, and its theorems at concrete buses.
use tfr.Base.{ℕ, ◌+◌, ◌≡◌, refl, false, none, List, [], ◌∷◌, ◌++◌, map, arith, ok, err, codes}
use tfr.Json.{end}
use tfr.Events.{CommandRequest, human}
use tfr.Bus.{Subscriber, EventBus, publish, process, bus_closed, close}
use tfr.Bus.Delivery.{AllFollow, publish_all, publish_all-AllFollow}
use tfr.Bus.Routing.{IsRouted, run, empty_bus, registers, submits_nowait, calls_route}

-- A subscriber with a bound of two, one without, and a sink that keeps what it gets.
abbrev narrow : Subscriber ℕ
narrow = record { id = 1; backpressure = false; queue = record { maxsize = 2; items = 9 ∷ [] } }

abbrev wide : Subscriber ℕ
wide = record { id = 2; backpressure = false; queue = record { maxsize = 0; items = [] } }

abbrev keep : List ℕ → ℕ → List ℕ
keep log e = log ++ e ∷ []

abbrev bus : EventBus ℕ (List ℕ)
bus = record {
  sinks = [] ∷ [];
  processors = (λ e. e + 1) ∷ [];
  subscribers = narrow ∷ wide ∷ [];
  closed = false;
}

abbrev later : EventBus ℕ (List ℕ)
later = record bus {
  sinks = (4 ∷ 5 ∷ []) ∷ [];
  subscribers =
      record narrow { queue = record { maxsize = 2; items = 4 ∷ 5 ∷ [] } }
      ∷ record wide { queue = record { maxsize = 0; items = 4 ∷ 5 ∷ [] } }
      ∷ [];
}

publish_all-later : publish_all keep (3 ∷ 4 ∷ []) bus ≡ ok later
unfolding publish
publish_all-later = refl

publish-closed : publish keep 3 (close (λ log. log) bus) ≡ err bus_closed
unfolding publish close
publish-closed = refl

publish_all-AllFollow_example :
    AllFollow (map (process bus.processors) (3 ∷ 4 ∷ [])) bus.subscribers later.subscribers
publish_all-AllFollow_example =
    publish_all-AllFollow keep (3 ∷ 4 ∷ []) bus later
      (record { bounded = λ p. omega arith }, (record { bounded = λ p. omega arith }, tt))
      publish_all-later

abbrev look : CommandRequest
look = record {
  session_id = 7;
  world = codes "mush";
  actor = record { type = human; id = codes "ui" };
  text = codes "look";
  request_id = 1;
  sensitive = false;
  correlation_id = none;
  causation_id = none;
  metadata = end;
  expected_connection_generation = none;
}

calls_route_example :
    IsRouted (run empty_bus (registers 7 1 ∷ submits_nowait look ∷ submits_nowait look ∷ []))
calls_route_example = calls_route (registers 7 1 ∷ submits_nowait look ∷ submits_nowait look ∷ [])
