-- ===== src/Gag/Decisions.antt =====
-- GagPolicy.allows of src/tfr/gag.py: when output is gagged, and what the cache of decisions keeps.
use tfr.Base.{
  ℕ, zero, suc, ◌+◌, ◌≤◌, ◌<◌, ◌≡◌, refl, ap, ◌∙◌, Bool, true, false, not, Option, none, some, List,
  [], ◌∷◌, ◌++◌, arith, ltb, ◌==◌, if◌then◌else◌, length, length-append, length-drop, drop,
  drop-append_left, Bool-cases, ◌⊎◌, inl, inr,
}
use mathlib.Core.Path.{subst}
use tfr.Gag.{
  Outcome, matched, unmatched, timed_out, failed, Engine, Event, Key, Trials, GagPolicy,
  gag_decision_cache_size, max_gag_input_characters, contains_key, search_from, patterns_of,
  event_text, evaluate, get, remove, remember, decide, allows, report_once, on_timeout,
  match_failed, Diagnostic,
}

-- A pattern that the search passes over: it is quarantined, or was searched in time without a match.
abbrev pub IsPassed : Engine → ℕ → Trials → ℕ → Type 0
IsPassed e world t i =
    (contains_key (record { world = world; index = i }) t.quarantined ≡ true)
    ⊎ ((e.in_budget i ≡ true) × (e.search i ≡ unmatched))

-- A pattern from an index on that is not quarantined and matched in time, after patterns that are all
-- passed over.
abbrev pub Matches : Engine → ℕ → ℕ → ℕ → Trials → Type 0
Matches e world index left t =
    (i : ℕ) × (index ≤ i)
    × (i < index + left)
    × (contains_key (record { world = world; index = i }) t.quarantined ≡ false)
    × (e.in_budget i ≡ true)
    × (e.search i ≡ matched)
    × ((j : ℕ) → index ≤ j → j < i → IsPassed e world t j)

later-Matches :
    (e : Engine) (world index left : ℕ) (t : Trials)
    → IsPassed e world t index
    → Matches e world (suc index) left t
    → Matches e world index (suc left) t
later-Matches e world index left t now (i, a, b, q, c, d, earlier) = (
  i,
  omega arith,
  omega arith,
  q,
  c,
  d,
  λ j h k. elim (Bool-cases (j == index)) [
    | inl f ↦ (let same : index ≡ j = ground arith in subst (IsPassed e world t) same now)
    | inr f ↦ earlier j (ground arith) k
  ],
)

blocked :
    (o : Outcome) (t : Trials) (next : Bool × (Trials × List Diagnostic))
    (late broken : Trials × List Diagnostic)
    → (elim o as (λ x. Bool × (Trials × List Diagnostic)) [
      | matched ↦ (false, (t, []))
      | unmatched ↦ next
      | timed_out ↦ (true, late)
      | failed ↦ (true, broken)
    ]).0
      ≡ false
    → (o ≡ matched) ⊎ ((o ≡ unmatched) × (next.0 ≡ false))
blocked matched t next late broken h = inl refl
blocked unmatched t next late broken h = inr (refl, h)
blocked timed_out t next late broken h = absurd (ground arith)
blocked failed t next late broken h = absurd (ground arith)

search_from-Matches :
    (e : Engine) (world index left : ℕ) (t : Trials)
    → (search_from e world index left t).0 ≡ false
    → Matches e world index left t
unfolding search_from
search_from-Matches e world index zero t = λ h. absurd (ground arith)
search_from-Matches e world index (suc left) t =
    let k : Key = record { world = world; index = index } in
    elim (Bool-cases (contains_key k t.quarantined)) [
      | inl q ↦ rw q (λ h.
          later-Matches e world index left t (inl q)
            (search_from-Matches e world (suc index) left t h))
      | inr q ↦ elim (Bool-cases (e.in_budget index)) [
        | inr b ↦ rw (q, b) (λ h. absurd (ground arith))
        | inl b ↦
            rw (q, b)
              (λ h.
                elim (blocked (e.search index) t (search_from e world (suc index) left t)
                  (on_timeout k t) (report_once match_failed k t) h) [
                    | inl m ↦
                        (index, omega arith, omega arith, q, b, m, λ j l k. absurd (omega arith))
                    | inr (u, n) ↦
                        later-Matches e world index left t (inr (b, u))
                          (search_from-Matches e world (suc index) left t n)
                  ])
      ]
    ]

get-remember_last :
    (id : ℕ) (d : Bool) (decisions : List (ℕ × Bool))
    → get id decisions ≡ none
    → get id (decisions ++ (id, d) ∷ []) ≡ some d
unfolding get
get-remember_last id d [] h = ground arith
get-remember_last id d ((x, old) ∷ decisions) h = elim (Bool-cases (x == id)) [
  | inl e ↦ absurd (ground arith)
  | inr e ↦ rw e (get-remember_last id d decisions (ground arith))
]

get-remove : (id : ℕ) (decisions : List (ℕ × Bool)) → get id (remove id decisions) ≡ none
unfolding get remove
get-remove id [] = refl
get-remove id ((x, old) ∷ decisions) = elim (Bool-cases (x == id)) [
  | inl e ↦ rw e (get-remove id decisions)
  | inr e ↦ rw (e, e) (get-remove id decisions)
]

get-tail :
    (id : ℕ) (decisions : List (ℕ × Bool))
    → get id decisions ≡ none
    → get id (drop 1 decisions) ≡ none
unfolding get
get-tail id [] h = refl
get-tail id ((x, old) ∷ decisions) h = ground arith

get-remember :
    (id : ℕ) (d : Bool) (decisions : List (ℕ × Bool))
    → get id decisions ≡ none
    → get id (remember id d decisions) ≡ some d
unfolding remember
get-remember id d decisions h =
    elim (Bool-cases (ltb gag_decision_cache_size (length (decisions ++ (id, d) ∷ [])))) [
      | inl e ↦
          let full : 1 ≤ length decisions =
            (let sum = length-append decisions ((id, d) ∷ []) in ground arith) in
          rw e (
            ap (get id) (drop-append_left decisions ((id, d) ∷ []) 1 full)
            ∙ get-remember_last id d (drop 1 decisions) (get-tail id decisions h))
      | inr e ↦ rw e (get-remember_last id d decisions h)
    ]

allows-hit :
    (e : Engine) (p : GagPolicy) (event : Event) (d : Bool)
    → get event.event_id p.decisions ≡ some d
    → ((allows e p event).0 ≡ d) × ((allows e p event).2 ≡ [])
unfolding allows decide
allows-hit e p event d h = (ap (λ o. (decide e p event o).0) h, ap (λ o. (decide e p event o).2) h)

decide-remembers :
    (e : Engine) (p : GagPolicy) (event : Event) (o : Option Bool)
    → get event.event_id p.decisions ≡ o
    → get event.event_id (decide e p event o).1.decisions ≡ some (decide e p event o).0
unfolding decide
decide-remembers e p event (some d) h =
    get-remember_last event.event_id d (remove event.event_id p.decisions)
      (get-remove event.event_id p.decisions)
decide-remembers e p event none h =
    get-remember event.event_id (evaluate e p.patterns event p.trials).0 p.decisions h

-- A decision that was just taken stays: asked again about the same event, the policy answers alike,
-- whatever the searches and the clock would say now, and reports nothing.
allows_again :
    (e later : Engine) (p : GagPolicy) (event : Event)
    → ((allows later (allows e p event).1 event).0 ≡ (allows e p event).0)
      × ((allows later (allows e p event).1 event).2 ≡ [])
unfolding allows
allows_again e later p event =
    allows-hit later (allows e p event).1 event (allows e p event).0
      (decide-remembers e p event (get event.event_id p.decisions) refl)

length-remove :
    (id : ℕ) (decisions : List (ℕ × Bool)) → length (remove id decisions) ≤ length decisions
unfolding remove
length-remove id [] = omega arith
length-remove id ((x, d) ∷ decisions) = (let rest = length-remove id decisions in ground arith)

length-remove_found :
    (id : ℕ) (decisions : List (ℕ × Bool)) (d : Bool)
    → get id decisions ≡ some d
    → suc (length (remove id decisions)) ≤ length decisions
unfolding remove get
length-remove_found id [] d h = absurd (ground arith)
length-remove_found id ((x, old) ∷ decisions) d h = elim (Bool-cases (x == id)) [
  | inl e ↦ (let rest = length-remove id decisions in rw e (omega arith))
  | inr e ↦ (let rest = length-remove_found id decisions d (ground arith) in rw e (omega arith))
]

decide-bounded :
    (e : Engine) (p : GagPolicy) (event : Event) (o : Option Bool)
    → get event.event_id p.decisions ≡ o
    → length p.decisions ≤ gag_decision_cache_size
    → length (decide e p event o).1.decisions ≤ gag_decision_cache_size
unfolding decide remember
decide-bounded e p event (some d) h k = omega (
  arith,
  length-append (remove event.event_id p.decisions) ((event.event_id, d) ∷ []),
  length-remove_found event.event_id p.decisions d h,
)
decide-bounded e p event none h k =
    let longer = p.decisions ++ (event.event_id, (evaluate e p.patterns event p.trials).0) ∷ [] in
    let size : length longer ≡ length p.decisions + 1 =
      length-append p.decisions ((event.event_id, (evaluate e p.patterns event p.trials).0) ∷ []) in
    elim (Bool-cases (ltb gag_decision_cache_size (length longer))) [
      | inl c ↦ rw c (omega (arith, size, length-drop 1 longer))
      | inr c ↦ rw c (ground arith)
    ]

-- Deciding on an event leaves at most as many decisions in the cache as its size, if there were no
-- more before.
allows-bounded :
    (e : Engine) (p : GagPolicy) (event : Event)
    → length p.decisions ≤ gag_decision_cache_size
    → length (allows e p event).1.decisions ≤ gag_decision_cache_size
unfolding allows
allows-bounded e p event h = decide-bounded e p event (get event.event_id p.decisions) refl h

inbound_only :
    (b : Bool) (x : Trials × List Diagnostic) (searched : Bool × (Trials × List Diagnostic))
    → (if not b then (true, x) else searched).0 ≡ false
    → (b ≡ true) × (searched.0 ≡ false)
inbound_only true x searched h = (refl, h)
inbound_only false x searched h = absurd (ground arith)

-- A text that is not too long to be searched.
abbrev pub HasShortText : Option (List ℕ) → Type 0
HasShortText o = (text : List ℕ) × (o ≡ some text) × (length text ≤ max_gag_input_characters)

text_only :
    (o : Option (List ℕ)) (x : Trials × List Diagnostic)
    (searched : Bool × (Trials × List Diagnostic))
    → (elim o as (λ x. Bool × (Trials × List Diagnostic)) [
      | none ↦ (true, x)
      | some text ↦ if ltb max_gag_input_characters (length text) then (true, x) else searched
    ]).0
      ≡ false
    → HasShortText o × (searched.0 ≡ false)
text_only none x searched = λ h. absurd (ground arith)
text_only (some text) x searched = elim (Bool-cases (ltb max_gag_input_characters (length text))) [
  | inl e ↦ rw e (λ h. absurd (ground arith))
  | inr e ↦ rw e (λ h. ((text, refl, ground arith), h))
]

evaluate-Matches :
    (e : Engine) (patterns : List (ℕ × ℕ)) (event : Event) (t : Trials)
    → (evaluate e patterns event t).0 ≡ false
    → (event.is_inbound ≡ true)
      × HasShortText (event_text event)
      × Matches e event.world 0 (patterns_of event.world patterns) t
unfolding evaluate
evaluate-Matches e patterns event t h =
    let count = patterns_of event.world patterns in
    let searched = search_from e event.world 0 count t in
    let (inbound, with_text) = inbound_only event.is_inbound (t, []) _ h in
    let (short, found) = text_only (event_text event) (t, []) searched with_text in
    (inbound, short, search_from-Matches e event.world 0 count t found)

decide-Matches :
    (e : Engine) (p : GagPolicy) (event : Event) (o : Option Bool)
    → o ≡ none
    → (decide e p event o).0 ≡ false
    → (event.is_inbound ≡ true)
      × HasShortText (event_text event)
      × Matches e event.world 0 (patterns_of event.world p.patterns) p.trials
unfolding decide
decide-Matches e p event (some d) n h = absurd (ground arith)
decide-Matches e p event none n h = evaluate-Matches e p.patterns event p.trials h

-- An event that is decided on for the first time is gagged only if it came from its world, has a text
-- within the limit, and a pattern of that world, which is not quarantined, matched it with budget
-- left, every pattern before it being quarantined or searched with budget left and without a match.
-- So it passes when a search before the first match times out or fails, or the budget runs out.
pub allows-Matches :
    (e : Engine) (p : GagPolicy) (event : Event)
    → get event.event_id p.decisions ≡ none
    → (allows e p event).0 ≡ false
    → (event.is_inbound ≡ true)
      × HasShortText (event_text event)
      × Matches e event.world 0 (patterns_of event.world p.patterns) p.trials
unfolding allows
allows-Matches e p event n h = decide-Matches e p event (get event.event_id p.decisions) n h
