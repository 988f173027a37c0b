-- ===== src/Gag/Examples.antt =====
-- Tests of the model of src/tfr/gag.py, and its theorems at a concrete policy and event.
use tfr.Base.{
  ℕ, ◌≡◌, refl, true, false, none, some, List, [], ◌∷◌, length, codes, leb, if◌then◌else◌, ◌==◌,
}
use tfr.Gag.{
  matched, unmatched, timed_out, Engine, Event, GagPolicy, create, allows, decide, evaluate,
  search_from, get, remember, contains_key, Key, gag_timeout_quarantine_threshold, on_timeout,
  report_once, count_of, key_eq,
}
use tfr.Gag.Quarantine.{run}
use tfr.Gag.Timeouts.{timeouts, run-quarantines}
use tfr.Gag.Decisions.{HasShortText, Matches, allows-Matches}

-- Two patterns for world 1, of which the second matches.
abbrev policy : GagPolicy
policy = record {
  patterns = (1, 2) ∷ [];
  trials = record { timeout_counts = []; reported_timeouts = []; quarantined = [] };
  decisions = [];
}

abbrev second_matches : Engine
second_matches = record {
  search = λ i. if i == 1 then matched else unmatched;
  in_budget = λ i. true;
}

abbrev all_late : Engine
all_late = record { search = λ i. timed_out; in_budget = λ i. true }

abbrev inbound : ℕ → Event
inbound id = record {
  event_id = id;
  world = 1;
  is_inbound = true;
  plain_text = some (codes "spam");
  display_text = none;
  canonical_text = none;
}

abbrev once : GagPolicy
once = (allows all_late policy (inbound 1)).1

abbrev twice : GagPolicy
twice = (allows all_late once (inbound 2)).1

-- The third timeout of a pattern quarantines it.
allows-third_timeout : length (allows all_late twice (inbound 3)).1.trials.quarantined ≡ 1
unfolding allows decide evaluate search_from get remember on_timeout report_once count_of key_eq
    contains_key
allows-third_timeout = refl

get-unknown : get 7 policy.decisions ≡ none
unfolding get
get-unknown = refl

allows-gagged : (allows second_matches policy (inbound 7)).0 ≡ false
unfolding allows decide evaluate search_from get contains_key
allows-gagged = refl

allows-Matches_example :
    (true ≡ true) × HasShortText (some (codes "spam")) × Matches second_matches 1 0 2 policy.trials
allows-Matches_example = allows-Matches second_matches policy (inbound 7) get-unknown allows-gagged

abbrev first_pattern : Key
first_pattern = record { world = 1; index = 0 }

abbrev three_late : List (Engine × Event)
three_late = (all_late, inbound 1) ∷ (all_late, inbound 2) ∷ (all_late, inbound 3) ∷ []

run-quarantines_example :
    contains_key first_pattern (run (create ((1, 2) ∷ [])) three_late).trials.quarantined
    ≡ leb gag_timeout_quarantine_threshold
        (timeouts first_pattern (create ((1, 2) ∷ [])) three_late)
run-quarantines_example = run-quarantines ((1, 2) ∷ []) three_late first_pattern
