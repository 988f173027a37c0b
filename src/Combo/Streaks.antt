-- ===== src/Combo/Streaks.antt =====
-- ComboTracker.observe of src/tfr/combo.py over a row of lines.
use tfr.Base.{
  ℕ, suc, ◌+◌, ◌≡◌, ◌≤◌, refl, sym, ap, ◌∙◌, true, Option, none, some, List, [], ◌∷◌, leb,
  if◌then◌else◌, arith, length,
}
use mathlib.Core.Path.{subst}
use tfr.Json.Lookup.{text_eq_refl}
use tfr.Dict.{lookup}
use tfr.Dict.Laws.{lookup-insert}
use tfr.Events.{Event}
use tfr.Spoofing.{Alphabet}
use tfr.Combo.{
  Reader, Combo, ComboTracker, Streak, Identity, Heard, dbref, named, same_identity, counted,
  reported, note, heard, observe,
}

-- What observe is called with.
pub record Line : Type 0 where
  pub event : Event
  pub shown : List ℕ
  pub now : ℕ
  pub character : Option (List ℕ)

same_identity_refl : (i : Identity) → same_identity i i ≡ true
unfolding same_identity
same_identity_refl (dbref n) = ground arith
same_identity_refl (named t) = text_eq_refl t

counted-next :
    (timeout : ℕ) (o : Option Streak) (s : Streak) (i : Identity) (now : ℕ)
    → o ≡ some s
    → s.identity ≡ i
    → now ≤ s.last_at + timeout
    → counted timeout o i now ≡ suc s.count
unfolding counted
counted-next timeout o s i now h e n =
    let early : leb now (s.last_at + timeout) ≡ true = ground arith in
    rw (h, e, same_identity_refl i, early) refl

module _ (a : Alphabet) (r : Reader) where
  -- A line of a world that its speaker says in time after a last one.
  pub record InTime (timeout : ℕ) (world : List ℕ) (i : Identity) (last : ℕ) (h : Heard) (x : Line)
      : Type 0 where
    pub of_world : x.event.world ≡ world
    pub is_heard : heard a r x.event x.shown x.character ≡ some h
    pub by : h.identity ≡ i
    pub soon : x.now ≤ last + timeout

  abbrev pub observe_line : ComboTracker → Line → ComboTracker × Option Combo
  observe_line t x = observe a r t x.event x.shown x.now x.character

  abbrev pub observe_all : ComboTracker → List Line → ComboTracker
  observe_all t [] = t
  observe_all t (x ∷ xs) = observe_all (observe_line t x).0 xs

  -- Lines of one speaker, each in time after the one before it.
  abbrev pub IsRow : ℕ → List ℕ → Identity → ℕ → List Line → Type 0
  IsRow timeout world i last [] = Unit
  IsRow timeout world i last (x ∷ xs) =
      ((h : Heard) × InTime timeout world i last h x) × IsRow timeout world i x.now xs

  abbrev pub last_time : ℕ → List Line → ℕ
  last_time last [] = last
  last_time last (x ∷ xs) = last_time x.now xs

  -- The streak of a world in a tracker.
  pub record Holds (t : ComboTracker) (world : List ℕ) (i : Identity) (count last : ℕ)
      : Type 0 where
    pub streak : Streak
    pub found : lookup world t.streaks ≡ some streak
    pub by : streak.identity ≡ i
    pub count_is : streak.count ≡ count
    pub last_is : streak.last_at ≡ last

  observe-Holds :
      (t : ComboTracker) (world : List ℕ) (i : Identity) (count last : ℕ) (h : Heard) (x : Line)
      → Holds t world i count last
      → InTime t.timeout_seconds world i last h x
      → Holds (observe_line t x).0 world i (suc count) x.now
        × ((observe_line t x).0.timeout_seconds ≡ t.timeout_seconds)
        × ((observe_line t x).1 ≡ reported (suc count) h)
  unfolding observe note
  observe-Holds t world i count last h x s m =
      let next : counted t.timeout_seconds (lookup x.event.world t.streaks) h.identity x.now
          ≡ suc count =
        counted-next t.timeout_seconds (lookup x.event.world t.streaks) s.streak h.identity x.now
          (ap (λ w. lookup w t.streaks) m.of_world ∙ s.found) (s.by ∙ sym m.by)
          (omega (arith, m.soon, s.last_is))
        ∙ ap suc s.count_is in
      rw (m.is_heard, next)
        (
          record {
            streak = record {
              speaker = h.speaker;
              identity = h.identity;
              count = suc count;
              last_at = x.now;
            };
            found =
                rw
                  (
                    m.of_world,
                    lookup-insert world world
                        (record {
                          speaker = h.speaker;
                          identity = h.identity;
                          count = suc count;
                          last_at = x.now;
                        })
                        t.streaks,
                    text_eq_refl world,
                  )
                  refl;
            by = m.by;
            count_is = refl;
            last_is = refl;
          },
          refl,
          refl,
        )

  same_count :
      (t : ComboTracker) (world : List ℕ) (i : Identity) (m n last : ℕ)
      → m ≡ n
      → Holds t world i m last
      → Holds t world i n last
  same_count t world i m n last e s = record {
    streak = s.streak;
    found = s.found;
    by = s.by;
    count_is = s.count_is ∙ e;
    last_is = s.last_is;
  }

  observe_all-Holds :
      (t : ComboTracker) (world : List ℕ) (i : Identity) (count last : ℕ) (xs : List Line)
      → Holds t world i count last
      → IsRow t.timeout_seconds world i last xs
      → Holds (observe_all t xs) world i (count + length xs) (last_time last xs)
        × ((observe_all t xs).timeout_seconds ≡ t.timeout_seconds)
  observe_all-Holds t world i count last [] s row =
      (same_count t world i count (count + 0) last (omega arith) s, refl)
  observe_all-Holds t world i count last (x ∷ xs) s row =
      let step = observe-Holds t world i count last row.0.0 x s row.0.1 in
      let rest =
        observe_all-Holds (observe_line t x).0 world i (suc count) x.now xs step.0
          (subst (λ n. IsRow n world i x.now xs) (sym step.1) row.1) in
      (
        same_count (observe_all t (x ∷ xs)) world i (suc count + length xs)
            (count + suc (length xs)) (last_time x.now xs) (omega arith) rest.0,
        rest.1 ∙ step.1,
      )

  -- From a streak of a speaker on, each line of that speaker in that world that comes in time after the
  -- one before it adds one to the count, and the last one is reported with the count and its own body
  -- from three lines on, and otherwise not at all.
  pub row_reported :
      (t : ComboTracker) (world : List ℕ) (i : Identity) (count last : ℕ) (xs : List Line)
      (x : Line) (h : Heard)
      → Holds t world i count last
      → IsRow t.timeout_seconds world i last xs
      → InTime t.timeout_seconds world i (last_time last xs) h x
      → (observe_line (observe_all t xs) x).1 ≡ (
          if leb 3 (suc (count + length xs))
          then some (record {
            count = suc (count + length xs);
            speaker = h.speaker;
            body_start = h.start;
            body_end = h.stop;
          })
          else none)
  unfolding reported
  row_reported t world i count last xs x h s row m =
      let all = observe_all-Holds t world i count last xs s row in
      (observe-Holds (observe_all t xs) world i (count + length xs) (last_time last xs) h x all.0
        (subst (λ n. InTime n world i (last_time last xs) h x) (sym all.1) m)).2
