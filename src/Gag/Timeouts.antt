-- ===== src/Gag/Timeouts.antt =====
-- GagPolicy of src/tfr/gag.py: a pattern's timeouts over a history, and its quarantine.
use tfr.Base.{
  ℕ, zero, suc, ◌+◌, ◌≡◌, refl, ap, ◌∙◌, Bool, true, false, not, Option, none, some, List, [], ◌∷◌,
  arith, ltb, leb, if◌then◌else◌, length, Bool-cases, inl, inr,
}
use tfr.Gag.{
  Outcome, matched, unmatched, timed_out, failed, Engine, Event, Key, Code, Trials, GagPolicy,
  Diagnostic, gag_timeout_quarantine_threshold, max_gag_input_characters, contains_key, count_of,
  key_eq, search_from, patterns_of, event_text, evaluate, get, decide, allows, report_once,
  on_timeout, create, match_failed, budget_exhausted,
}
use tfr.Gag.Quarantine.{
  IsConsistent, run, run-IsConsistent, on_timeout-kept, report_once-kept, key_eq_sound,
}

-- The pattern whose search runs out of time while an event is decided on, if there is one: the
-- patterns that are not quarantined are searched in turn until one search gives anything but no match.
unfoldable pub late_pattern : Engine → ℕ → ℕ → ℕ → List Key → Option Key
late_pattern e world index zero quarantined = none
late_pattern e world index (suc left) quarantined =
    let k : Key = record { world = world; index = index } in
    let next = late_pattern e world (suc index) left quarantined in
    if contains_key k quarantined
    then next
    else if not (e.in_budget index)
    then none
    else elim (e.search index) [
      | matched ↦ none
      | unmatched ↦ next
      | timed_out ↦ some k
      | failed ↦ none
    ]

-- The same for an event: one that is in the cache, is not from its world, or has no text to search is
-- not searched.
abbrev pub late_in : Engine → GagPolicy → Event → Option Bool → Option (List ℕ) → Option Key
late_in e p event (some d) o = none
late_in e p event none none = none
late_in e p event none (some text) =
    if not event.is_inbound
    then none
    else if ltb max_gag_input_characters (length text)
    then none
    else late_pattern e event.world 0 (patterns_of event.world p.patterns) p.trials.quarantined

abbrev pub occurrences : Key → Option Key → ℕ
occurrences k none = 0
occurrences k (some q) = if key_eq k q then 1 else 0

-- How often a search for the pattern ran out of time over a history of events.
unfoldable pub timeouts : Key → GagPolicy → List (Engine × Event) → ℕ
timeouts k p [] = 0
timeouts k p ((e, event) ∷ events) =
    timeouts k (allows e p event).1 events
    + occurrences k (late_in e p event (get event.event_id p.decisions) (event_text event))

-- What a step adds to a pattern's count.
abbrev Counts : Key → Trials → Option Key → Trials → Type 0
Counts k t o u = count_of k u.timeout_counts ≡ count_of k t.timeout_counts + occurrences k o

unchanged : (k : Key) (t : Trials) → Counts k t none t
unchanged k t = omega arith

report_once-Counts :
    (code : Code) (k q : Key) (t : Trials) → Counts k t none (report_once code q t).0
report_once-Counts code k q t =
    (let same = ap (count_of k) (report_once-kept code q t).1 in omega arith)

on_timeout-Counts : (k q : Key) (t : Trials) → Counts k t (some q) (on_timeout q t).0
unfolding count_of
on_timeout-Counts k q t =
    let counted = ap (count_of k) (on_timeout-kept q t).1 in
    elim (Bool-cases (key_eq k q)) [
      | inl e ↦
          let same = ap (λ x. count_of x t.timeout_counts) (key_eq_sound k q e) in
          rw e (counted ∙ rw e (omega arith))
      | inr e ↦ rw e (counted ∙ rw e (omega arith))
    ]

outcome-Counts :
    (o : Outcome) (k q : Key) (t : Trials) (next : Bool × (Trials × List Diagnostic))
    (found : Option Key)
    → Counts k t found next.1.0
    → Counts k t
        (elim o as (λ x. Option Key) [
          | matched ↦ none
          | unmatched ↦ found
          | timed_out ↦ some q
          | failed ↦ none
        ])
        (elim o as (λ x. Bool × (Trials × List Diagnostic)) [
          | matched ↦ (false, (t, []))
          | unmatched ↦ next
          | timed_out ↦ (true, on_timeout q t)
          | failed ↦ (true, report_once match_failed q t)
        ]).1.0
outcome-Counts matched k q t next found h = unchanged k t
outcome-Counts unmatched k q t next found h = h
outcome-Counts timed_out k q t next found h = on_timeout-Counts k q t
outcome-Counts failed k q t next found h = report_once-Counts match_failed k q t

search_from-Counts :
    (k : Key) (e : Engine) (world index left : ℕ) (t : Trials)
    → Counts k t
        (late_pattern e world index left t.quarantined)
        (search_from e world index left t).1.0
unfolding search_from late_pattern
search_from-Counts k e world index zero t = unchanged k t
search_from-Counts k e world index (suc left) t =
    let q : Key = record { world = world; index = index } in
    let next = search_from-Counts k e world (suc index) left t in
    elim (Bool-cases (contains_key q t.quarantined)) [
      | inl c ↦ rw c next
      | inr c ↦ elim (Bool-cases (e.in_budget index)) [
        | inl b ↦
            rw (c, b)
              (outcome-Counts (e.search index) k q t (search_from e world (suc index) left t)
                (late_pattern e world (suc index) left t.quarantined) next)
        | inr b ↦ rw (c, b) (report_once-Counts budget_exhausted k q t)
      ]
    ]

gated-Counts :
    (k : Key) (b : Bool) (o : Option (List ℕ)) (t : Trials) (found : Option Key)
    (searched : Bool × (Trials × List Diagnostic))
    → Counts k t found searched.1.0
    → Counts k t
        (elim o as (λ x. Option Key) [
          | none ↦ none
          | some text ↦
              if not b
              then none
              else if ltb max_gag_input_characters (length text)
              then none
              else found
        ])
        (if not b then (true, (t, [])) else elim o as (λ x. Bool × (Trials × List Diagnostic)) [
          | none ↦ (true, (t, []))
          | some text ↦
              if ltb max_gag_input_characters (length text) then (true, (t, [])) else searched
        ]).1.0
gated-Counts k false none t found searched h = unchanged k t
gated-Counts k false (some text) t found searched h = unchanged k t
gated-Counts k true none t found searched h = unchanged k t
gated-Counts k true (some text) t found searched h =
    elim (Bool-cases (ltb max_gag_input_characters (length text))) [
      | inl e ↦ rw e (unchanged k t)
      | inr e ↦ rw e h
    ]

late_in_lem :
    (e : Engine) (p : GagPolicy) (event : Event) (o : Option (List ℕ))
    → late_in e p event none o ≡ (elim o as (λ x. Option Key) [
      | none ↦ none
      | some text ↦
          if not event.is_inbound
          then none
          else if ltb max_gag_input_characters (length text)
          then none
          else late_pattern e event.world 0
              (patterns_of event.world p.patterns)
              p.trials.quarantined
    ])
late_in_lem e p event none = refl
late_in_lem e p event (some text) = refl

decide-Counts :
    (k : Key) (e : Engine) (p : GagPolicy) (event : Event) (o : Option Bool)
    → Counts k p.trials (late_in e p event o (event_text event)) (decide e p event o).1.trials
unfolding decide evaluate
decide-Counts k e p event (some d) = unchanged k p.trials
decide-Counts k e p event none =
    let count = patterns_of event.world p.patterns in
    rw (late_in_lem e p event (event_text event)) (
      gated-Counts k event.is_inbound (event_text event) p.trials
        (late_pattern e event.world 0 count p.trials.quarantined)
        (search_from e event.world 0 count p.trials)
        (search_from-Counts k e event.world 0 count p.trials))

run-counted :
    (k : Key) (p : GagPolicy) (events : List (Engine × Event))
    → count_of k (run p events).trials.timeout_counts
      ≡ count_of k p.trials.timeout_counts + timeouts k p events
unfolding run timeouts allows
run-counted k p [] = omega arith
run-counted k p ((e, event) ∷ events) =
    let step = decide-Counts k e p event (get event.event_id p.decisions) in
    let rest = run-counted k (allows e p event).1 events in omega arith

-- Whatever events a new policy decides on, with whatever searches and clock, exactly the patterns
-- for which a search ran out of time at least as often as the threshold says are quarantined. The
-- timeouts are counted along the history, apart from the policy's own counts.
pub run-quarantines :
    (patterns : List (ℕ × ℕ)) (events : List (Engine × Event)) (k : Key)
    → contains_key k (run (create patterns) events).trials.quarantined
      ≡ leb gag_timeout_quarantine_threshold (timeouts k (create patterns) events)
unfolding create IsConsistent contains_key count_of
run-quarantines patterns events k =
    let start : count_of k (create patterns).trials.timeout_counts ≡ 0 = refl in
    let counted : count_of k (run (create patterns) events).trials.timeout_counts
        ≡ timeouts k (create patterns) events =
      (let sum = run-counted k (create patterns) events in omega arith) in
    run-IsConsistent (create patterns) events (λ q. refl) k
    ∙ ap (leb gag_timeout_quarantine_threshold) counted
