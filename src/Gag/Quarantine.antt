-- ===== src/Gag/Quarantine.antt =====
-- GagPolicy of src/tfr/gag.py: which patterns are quarantined.
use tfr.Base.{
  ℕ, zero, suc, ◌+◌, ◌≡◌, refl, sym, ap, ◌∙◌, Bool, true, false, not, Option, none, some, List, [],
  ◌∷◌, arith, ltb, leb, if◌then◌else◌, length, Bool-cases, inl, inr,
}
use tfr.Gag.{
  Outcome, matched, unmatched, timed_out, failed, Engine, Event, Key, Code, Trials, GagPolicy,
  Diagnostic, gag_timeout_quarantine_threshold, max_gag_input_characters, contains_key, count_of,
  key_eq, search_from, patterns_of, event_text, evaluate, get, decide, allows, report_once,
  on_timeout, match_timeout, match_failed, budget_exhausted,
}

-- The patterns with at least the threshold of timeouts are the quarantined ones.
unfoldable pub IsConsistent : Trials → Type 0
IsConsistent t =
    (k : Key)
    → contains_key k t.quarantined
      ≡ leb gag_timeout_quarantine_threshold (count_of k t.timeout_counts)

pub key_eq_sound : (a b : Key) → key_eq a b ≡ true → a ≡ b
unfolding key_eq
key_eq_sound a b h =
    let worlds : a.world ≡ b.world = ground arith in
    let indices : a.index ≡ b.index = ground arith in cc

report_once-IsConsistent :
    (code : Code) (k : Key) (t : Trials) → IsConsistent t → IsConsistent (report_once code k t).0
unfolding report_once IsConsistent
report_once-IsConsistent code k t h = elim (Bool-cases (contains_key k t.reported_timeouts)) [
  | inl e ↦ rw e h
  | inr e ↦ rw e h
]

pub report_once-kept :
    (code : Code) (k : Key) (t : Trials)
    → ((report_once code k t).0.quarantined ≡ t.quarantined)
      × ((report_once code k t).0.timeout_counts ≡ t.timeout_counts)
unfolding report_once
report_once-kept code k t = elim (Bool-cases (contains_key k t.reported_timeouts)) [
  | inl e ↦ rw e (refl, refl)
  | inr e ↦ rw e (refl, refl)
]

-- The test for a pattern after another timeout of a pattern that is not quarantined yet.
count_timeout :
    (counts : List (Key × ℕ)) (quarantined : List Key) (k q : Key)
    → contains_key k quarantined ≡ leb gag_timeout_quarantine_threshold (count_of k counts)
    → contains_key q quarantined ≡ leb gag_timeout_quarantine_threshold (count_of q counts)
    → contains_key k quarantined ≡ false
    → contains_key q (
        if leb gag_timeout_quarantine_threshold (count_of k counts + 1)
        then k ∷ quarantined
        else quarantined)
      ≡ leb gag_timeout_quarantine_threshold (count_of q ((k, count_of k counts + 1) ∷ counts))
unfolding contains_key count_of
count_timeout counts quarantined k q hk hq free =
    elim (Bool-cases (leb gag_timeout_quarantine_threshold (count_of k counts + 1))) [
      | inl full ↦ elim (Bool-cases (key_eq q k)) [
        | inl e ↦ rw (full, e, full) refl
        | inr e ↦ rw (full, e) hq
      ]
      | inr few ↦ elim (Bool-cases (key_eq q k)) [
        | inl e ↦
            rw (few, e, few) (ap (λ x. contains_key x quarantined) (key_eq_sound q k e) ∙ free)
        | inr e ↦ rw (few, e) hq
      ]
    ]

pub on_timeout-kept :
    (k : Key) (t : Trials)
    → ((on_timeout k t).0.quarantined ≡ (
        if leb gag_timeout_quarantine_threshold (count_of k t.timeout_counts + 1)
        then k ∷ t.quarantined
        else t.quarantined))
      × ((on_timeout k t).0.timeout_counts
          ≡ (k, count_of k t.timeout_counts + 1) ∷ t.timeout_counts)
unfolding on_timeout
on_timeout-kept k t =
    let counted : Trials = record t {
      timeout_counts = (k, count_of k t.timeout_counts + 1) ∷ t.timeout_counts;
    } in
    let (same, counts) = report_once-kept match_timeout k counted in
    elim (Bool-cases (leb gag_timeout_quarantine_threshold (count_of k t.timeout_counts + 1))) [
      | inl e ↦ rw e (ap (◌∷◌ k) same, counts)
      | inr e ↦ rw e (same, counts)
    ]

on_timeout-IsConsistent :
    (k : Key) (t : Trials)
    → IsConsistent t
    → contains_key k t.quarantined ≡ false
    → IsConsistent (on_timeout k t).0
unfolding IsConsistent
on_timeout-IsConsistent k t h free q =
    let (kept, counted) = on_timeout-kept k t in
    ap (contains_key q) kept
    ∙ count_timeout t.timeout_counts t.quarantined k q (h k) (h q) free
    ∙ sym (ap (λ counts. leb gag_timeout_quarantine_threshold (count_of q counts)) counted)

outcome-IsConsistent :
    (o : Outcome) (k : Key) (t : Trials) (next : Bool × (Trials × List Diagnostic))
    → IsConsistent t
    → contains_key k t.quarantined ≡ false
    → IsConsistent next.1.0
    → IsConsistent
        (elim o as (λ x. Bool × (Trials × List Diagnostic)) [
          | matched ↦ (false, (t, []))
          | unmatched ↦ next
          | timed_out ↦ (true, on_timeout k t)
          | failed ↦ (true, report_once match_failed k t)
        ]).1.0
outcome-IsConsistent matched k t next h free n = h
outcome-IsConsistent unmatched k t next h free n = n
outcome-IsConsistent timed_out k t next h free n = on_timeout-IsConsistent k t h free
outcome-IsConsistent failed k t next h free n = report_once-IsConsistent match_failed k t h

search_from-IsConsistent :
    (e : Engine) (world index left : ℕ) (t : Trials)
    → IsConsistent t
    → IsConsistent (search_from e world index left t).1.0
unfolding search_from
search_from-IsConsistent e world index zero t h = h
search_from-IsConsistent e world index (suc left) t h =
    let k : Key = record { world = world; index = index } in
    let next = search_from-IsConsistent e world (suc index) left t h in
    elim (Bool-cases (contains_key k t.quarantined)) [
      | inl q ↦ rw q next
      | inr q ↦ elim (Bool-cases (e.in_budget index)) [
        | inl b ↦
            rw (q, b)
              (outcome-IsConsistent (e.search index) k t (search_from e world (suc index) left t) h
                q next)
        | inr b ↦ rw (q, b) (report_once-IsConsistent budget_exhausted k t h)
      ]
    ]

gated-IsConsistent :
    (b : Bool) (o : Option (List ℕ)) (t : Trials) (searched : Bool × (Trials × List Diagnostic))
    → IsConsistent t
    → IsConsistent searched.1.0
    → IsConsistent
        (if not b then (true, (t, [])) else elim o as (λ x. Bool × (Trials × List Diagnostic)) [
          | none ↦ (true, (t, []))
          | some text ↦
              if ltb max_gag_input_characters (length text) then (true, (t, [])) else searched
        ]).1.0
gated-IsConsistent false o t searched h k = h
gated-IsConsistent true none t searched h k = h
gated-IsConsistent true (some text) t searched h k =
    elim (Bool-cases (ltb max_gag_input_characters (length text))) [
      | inl e ↦ rw e h
      | inr e ↦ rw e k
    ]

decide-IsConsistent :
    (e : Engine) (p : GagPolicy) (event : Event) (o : Option Bool)
    → IsConsistent p.trials
    → IsConsistent (decide e p event o).1.trials
unfolding decide evaluate
decide-IsConsistent e p event (some d) h = h
decide-IsConsistent e p event none h =
    let count = patterns_of event.world p.patterns in
    gated-IsConsistent event.is_inbound (event_text event) p.trials
      (search_from e event.world 0 count p.trials) h
      (search_from-IsConsistent e event.world 0 count p.trials h)

-- The policy after deciding on events in turn, each with its own searches and clock.
unfoldable pub run : GagPolicy → List (Engine × Event) → GagPolicy
run p [] = p
run p ((e, event) ∷ events) = run (allows e p event).1 events

pub run-IsConsistent :
    (p : GagPolicy) (events : List (Engine × Event))
    → IsConsistent p.trials
    → IsConsistent (run p events).trials
unfolding run allows
run-IsConsistent p [] h = h
run-IsConsistent p ((e, event) ∷ events) h =
    run-IsConsistent (allows e p event).1 events
      (decide-IsConsistent e p event (get event.event_id p.decisions) h)
