-- ===== src/Gag.antt =====
-- GagPolicy of src/tfr/gag.py. Worlds and event ids are numbers, and a pattern is its index among
-- its world's. The regular-expression engine and the clock are parameters of each call: what a
-- search yields, and whether the event's budget is left when a pattern's turn comes.
pub mod Decisions
pub mod Quarantine
pub mod Timeouts
pub mod Examples
use tfr.Base.{
  ℕ, zero, suc, ◌+◌, Bool, true, false, ◌&&◌, ◌||◌, not, Option, none, some, List, [], ◌∷◌, ◌++◌,
  ltb, leb, ◌==◌, if◌then◌else◌, length, drop,
}

pub data Outcome : Type 0 where
  matched unmatched timed_out failed : Outcome

-- By the pattern's index.
pub record Engine : Type 0 where
  pub search : ℕ → Outcome
  pub in_budget : ℕ → Bool

pub record Event : Type 0 where
  pub event_id : ℕ
  pub world : ℕ
  pub is_inbound : Bool
  pub plain_text : Option (List ℕ)
  pub display_text : Option (List ℕ)
  pub canonical_text : Option (List ℕ)

pub data Code : Type 0 where
  budget_exhausted match_timeout pattern_quarantined match_failed : Code

-- A world and a pattern's index.
pub record Key : Type 0 where
  pub world : ℕ
  pub index : ℕ

pub record Diagnostic : Type 0 where
  pub code : Code
  pub key : Key

-- What the searches leave behind.
pub record Trials : Type 0 where
  pub timeout_counts : List (Key × ℕ)
  pub reported_timeouts : List Key
  pub quarantined : List Key

-- The decisions are in the order of the OrderedDict, the oldest first.
pub record GagPolicy : Type 0 where
  pub patterns : List (ℕ × ℕ)
  pub trials : Trials
  pub decisions : List (ℕ × Bool)

abbrev pub max_gag_input_characters : ℕ
max_gag_input_characters = 16384

abbrev pub gag_timeout_quarantine_threshold : ℕ
gag_timeout_quarantine_threshold = 3

abbrev pub gag_decision_cache_size : ℕ
gag_decision_cache_size = 50000

abbrev pub no_trials : Trials
no_trials = record { timeout_counts = []; reported_timeouts = []; quarantined = [] }

unfoldable pub create : List (ℕ × ℕ) → GagPolicy
create patterns = record { patterns = patterns; trials = no_trials; decisions = [] }

unfoldable pub replace_configuration : GagPolicy → List (ℕ × ℕ) → GagPolicy
replace_configuration p patterns = record p {
  patterns = patterns;
  trials = no_trials;
  decisions = [];
}

unfoldable pub key_eq : Key → Key → Bool
key_eq a b = a.world == b.world && a.index == b.index

unfoldable pub contains_key : Key → List Key → Bool
contains_key k [] = false
contains_key k (x ∷ keys) = key_eq k x || contains_key k keys

-- timeout_counts.get(key, 0); a count that is set stands before the older one.
unfoldable pub count_of : Key → List (Key × ℕ) → ℕ
count_of k [] = 0
count_of k ((x, n) ∷ counts) = let rest = count_of k counts in if key_eq k x then n else rest

unfoldable pub report_once : Code → Key → Trials → Trials × List Diagnostic
report_once code k t = if contains_key k t.reported_timeouts then (t, []) else (
  record t { reported_timeouts = k ∷ t.reported_timeouts },
  record { code = code; key = k } ∷ [],
)

-- The except branch for a search that ran out of time.
unfoldable pub on_timeout : Key → Trials → Trials × List Diagnostic
on_timeout k t =
    let count = count_of k t.timeout_counts + 1 in
    let (u, reports) =
      report_once match_timeout k (record t { timeout_counts = (k, count) ∷ t.timeout_counts }) in
    if leb gag_timeout_quarantine_threshold count
    then (
      record u { quarantined = k ∷ u.quarantined },
      reports ++ record { code = pattern_quarantined; key = k } ∷ [],
    )
    else (u, reports)

-- The loop over the patterns from an index on, with how many are left.
unfoldable pub search_from : Engine → ℕ → ℕ → ℕ → Trials → Bool × (Trials × List Diagnostic)
search_from e world index zero t = (true, (t, []))
search_from e world index (suc left) t =
    let k : Key = record { world = world; index = index } in
    let next = search_from e world (suc index) left t in
    if contains_key k t.quarantined
    then next
    else if not (e.in_budget index)
    then (true, report_once budget_exhausted k t)
    else elim (e.search index) [
      | matched ↦ (false, (t, []))
      | unmatched ↦ next
      | timed_out ↦ (true, on_timeout k t)
      | failed ↦ (true, report_once match_failed k t)
    ]

abbrev pub patterns_of : ℕ → List (ℕ × ℕ) → ℕ
patterns_of world [] = 0
patterns_of world ((w, count) ∷ worlds) = if w == world then count else patterns_of world worlds

-- x or y: an empty text is false.
abbrev pub or_text : Option (List ℕ) → Option (List ℕ) → Option (List ℕ)
or_text none other = other
or_text (some []) other = other
or_text (some (c ∷ text)) other = some (c ∷ text)

abbrev pub event_text : Event → Option (List ℕ)
event_text event = or_text (or_text event.plain_text event.display_text) event.canonical_text

unfoldable pub evaluate : Engine → List (ℕ × ℕ) → Event → Trials → Bool × (Trials × List Diagnostic)
evaluate e patterns event t =
    let searched = search_from e event.world 0 (patterns_of event.world patterns) t in
    if not event.is_inbound then (true, (t, [])) else elim (event_text event) [
      | none ↦ (true, (t, []))
      | some text ↦ if ltb max_gag_input_characters (length text) then (true, (t, [])) else searched
    ]

unfoldable pub get : ℕ → List (ℕ × Bool) → Option Bool
get id [] = none
get id ((x, decision) ∷ decisions) =
    let rest = get id decisions in if x == id then some decision else rest

unfoldable pub remove : ℕ → List (ℕ × Bool) → List (ℕ × Bool)
remove id [] = []
remove id ((x, decision) ∷ decisions) =
    let rest = remove id decisions in if x == id then rest else (x, decision) ∷ rest

unfoldable pub remember : ℕ → Bool → List (ℕ × Bool) → List (ℕ × Bool)
remember id decision decisions =
    let longer = decisions ++ (id, decision) ∷ [] in
    if ltb gag_decision_cache_size (length longer) then drop 1 longer else longer

-- allows, with what the cache has for the event.
unfoldable pub decide :
    Engine → GagPolicy → Event → Option Bool → Bool × GagPolicy × List Diagnostic
decide e p event (some decision) = (
  decision,
  record p { decisions = remove event.event_id p.decisions ++ (event.event_id, decision) ∷ [] },
  [],
)
decide e p event none =
    let (decision, (t, reports)) = evaluate e p.patterns event p.trials in
    (
      decision,
      record p { trials = t; decisions = remember event.event_id decision p.decisions },
      reports,
    )

unfoldable pub allows : Engine → GagPolicy → Event → Bool × GagPolicy × List Diagnostic
allows e p event = decide e p event (get event.event_id p.decisions)
