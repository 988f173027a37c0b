-- ===== src/Combo.antt =====
-- src/tfr/combo.py: the count of a speaker's lines in a row. A time is a number of units, and the
-- places of _SAY_BODY's body and the text before it, as a speaker, are parameters.
pub mod Streaks
pub mod Examples
use tfr.Base.{
  ℕ, suc, Bool, true, false, ◌&&◌, ◌||◌, Option, none, some, List, [], ◌∷◌, ◌+◌, ◌-◌, max, ltb, leb,
  ◌==◌, if◌then◌else◌, length, take, drop, drop_while, text_eq, codes,
}
use mathlib.Core.List.{reverse}
use tfr.Dict.{lookup, insert}
use tfr.Events.{Event, EventKind, say, pose, speech, raw_output, Provenance}
use tfr.Spoofing.{Alphabet, non_empty}

-- What the code takes from the terminal library and from its patterns.
pub record Reader : Type 0 where
  pub terminal_plain_text : List ℕ → List ℕ
  -- the body's place in a match of _SAY_BODY
  pub say_body : List ℕ → Option (ℕ × ℕ)
  -- the text before the body without the "says", stripped
  pub say_speaker : List ℕ → List ℕ

pub record Combo : Type 0 where
  pub count : ℕ
  pub speaker : List ℕ
  pub body_start : ℕ
  pub body_end : ℕ

pub data Identity : Type 0 where
  dbref : ℕ → Identity
  named : List ℕ → Identity

pub record Streak : Type 0 where
  pub speaker : List ℕ
  pub identity : Identity
  pub count : ℕ
  pub last_at : ℕ

pub record ComboTracker : Type 0 where
  pub timeout_seconds : ℕ
  pub streaks : List (List ℕ × Streak)

-- Combo.multiplier
unfoldable pub multiplier : Combo → ℕ
multiplier c = max 1 (c.count - 6)

unfoldable pub same_identity : Identity → Identity → Bool
same_identity (dbref m) (dbref n) = m == n
same_identity (named s) (named t) = text_eq s t
same_identity _ _ = false

abbrev pub is_spoken : EventKind → Bool
is_spoken say = true
is_spoken pose = true
is_spoken speech = true
is_spoken raw_output = true
is_spoken _ = false

abbrev pub is_quoted : EventKind → Bool
is_quoted say = true
is_quoted speech = true
is_quoted _ = false

-- A line that counts: who spoke it, and where its body is.
pub record Heard : Type 0 where
  pub speaker : List ℕ
  pub identity : Identity
  pub start : ℕ
  pub stop : ℕ

abbrev pub sender_of : Option Provenance → Option (List ℕ)
sender_of none = none
sender_of (some p) = p.sender_name

abbrev pub dbref_of : Option Provenance → Option ℕ
dbref_of none = none
dbref_of (some p) = p.sender_dbref

-- The count of a line behind the streak before it.
unfoldable pub counted : ℕ → Option Streak → Identity → ℕ → ℕ
counted timeout none identity now = 1
counted timeout (some previous) identity now =
    if same_identity previous.identity identity && leb now (previous.last_at + timeout)
    then suc previous.count
    else 1

unfoldable pub reported : ℕ → Heard → Option Combo
reported count h =
    if leb 3 count
    then some
        (record { count = count; speaker = h.speaker; body_start = h.start; body_end = h.stop })
    else none

-- observe, from the identity on.
unfoldable pub note : ComboTracker → List ℕ → Option Heard → ℕ → ComboTracker × Option Combo
unfolding counted reported
note t world none now = (t, none)
note t world (some h) now =
    let count = counted t.timeout_seconds (lookup world t.streaks) h.identity now in
    (
      record t {
        streaks =
            insert world
              (record { speaker = h.speaker; identity = h.identity; count = count; last_at = now })
              t.streaks;
      },
      reported count h,
    )

module _ (a : Alphabet) (r : Reader) where
  -- text[:2].casefold() in {"'s", "’s"}
  is_possessive : List ℕ → Bool
  is_possessive t =
      text_eq (a.casefold (take 2 t)) (codes "'s")
      || text_eq (a.casefold (take 2 t)) (0x2019 ∷ b's' ∷ [])

  follows_speaker : List ℕ → Bool
  unfolding is_possessive
  follows_speaker [] = false
  follows_speaker (c ∷ t) = a.is_space c || is_possessive (c ∷ t)

  starts_with_speaker : List ℕ → List ℕ → Bool
  unfolding follows_speaker
  starts_with_speaker text speaker =
      text_eq (a.casefold (take (length speaker) text)) (a.casefold speaker)
      && follows_speaker (drop (length speaker) text)

  -- plain.split(maxsplit=1)[0], the text having no white space before it
  abbrev first_token : List ℕ → List ℕ
  first_token [] = []
  first_token (c ∷ t) = let rest = first_token t in if a.is_space c then [] else c ∷ rest

  -- token[:-2] of a token whose casefold ends in 's
  without_possessive : List ℕ → List ℕ
  without_possessive token =
      let folded = reverse (a.casefold token) in
      if text_eq (take 2 folded) (b's' ∷ 0x27 ∷ []) || text_eq (take 2 folded) (b's' ∷ 0x2019 ∷ [])
      then take (length token - 2) token
      else token

  of_parser : Option (List ℕ) → List ℕ → Option (List ℕ)
  unfolding without_possessive
  of_parser none plain = none
  of_parser (some parser) plain =
      if text_eq parser (codes "bare") || text_eq parser (codes "generic")
      then non_empty (without_possessive (first_token plain))
      else none

  of_character : Option (List ℕ) → Option (List ℕ) → List ℕ → Option (List ℕ)
  unfolding of_parser starts_with_speaker
  of_character none parser plain = of_parser parser plain
  of_character (some name) parser plain =
      if starts_with_speaker plain name then some name else of_parser parser plain

  -- The speaker of a line that says something.
  of_say : Option (List ℕ) → List ℕ → Option (List ℕ)
  of_say none visible = non_empty visible
  of_say (some name) visible =
      if text_eq (a.casefold visible) (codes "you") then some name else non_empty visible

  of_text : Option (ℕ × ℕ) → Option (List ℕ) → Option (List ℕ) → List ℕ → Option (List ℕ)
  unfolding of_say of_character
  of_text (some (start, end)) character parser plain =
      of_say character (r.say_speaker (take start plain))
  of_text none character parser plain = of_character character parser plain

  of_sender : Option (List ℕ) → Option (List ℕ) → Option (List ℕ) → List ℕ → Option (List ℕ)
  unfolding of_text
  of_sender (some (c ∷ name)) character parser plain = some (c ∷ name)
  of_sender _ character parser plain = of_text (r.say_body plain) character parser plain

  unfoldable pub speaker_of : Event → List ℕ → Option (List ℕ) → Option (List ℕ)
  unfolding of_sender
  speaker_of event line character =
      of_sender (sender_of event.provenance) character event.parser_name
        (drop_while a.is_space (r.terminal_plain_text line))

  -- The body behind a prefix: behind a possessive, if any, and white space.
  after_speaker : ℕ → List ℕ → Option (ℕ × ℕ)
  after_speaker size rest =
      let body = drop_while a.is_space rest in
      if ltb 0 (length body) then some (size - length body, size) else none

  body_of : List ℕ → List ℕ → Option (ℕ × ℕ)
  unfolding after_speaker is_possessive
  body_of plain speaker =
      let rest = drop (length speaker) plain in
      if text_eq (a.casefold (take (length speaker) plain)) (a.casefold speaker)
      then after_speaker (length plain) (if is_possessive rest then drop 2 rest else rest)
      else none

  or_body : Option (ℕ × ℕ) → List ℕ → List ℕ → Option (ℕ × ℕ)
  unfolding body_of
  or_body (some span) plain speaker = some span
  or_body none plain speaker = body_of plain speaker

  unfoldable pub message_body_span : Event → List ℕ → List ℕ → Option (ℕ × ℕ)
  unfolding or_body
  message_body_span event line speaker =
      let plain =
        reverse (drop_while (λ c. c == 13 || c == 10) (reverse (r.terminal_plain_text line))) in
      or_body (if is_quoted event.kind then r.say_body plain else none) plain speaker

  identity_of : Option ℕ → List ℕ → Identity
  identity_of (some n) speaker = dbref n
  identity_of none speaker = named (a.casefold speaker)

  heard_span : Event → List ℕ → Option (ℕ × ℕ) → Option Heard
  unfolding identity_of
  heard_span event speaker none = none
  heard_span event speaker (some (start, end)) =
      if leb end start
      then none
      else some (record {
        speaker = speaker;
        identity = identity_of (dbref_of event.provenance) speaker;
        start = start;
        stop = end;
      })

  heard_speaker : Event → List ℕ → Option (List ℕ) → Option Heard
  unfolding heard_span
  heard_speaker event line none = none
  heard_speaker event line (some speaker) =
      if is_spoken event.kind
      then heard_span event speaker (message_body_span event line speaker)
      else none

  unfoldable pub heard : Event → List ℕ → Option (List ℕ) → Option Heard
  unfolding heard_speaker
  heard event line character = heard_speaker event line (speaker_of event line character)

  unfoldable pub observe :
      ComboTracker → Event → List ℕ → ℕ → Option (List ℕ) → ComboTracker × Option Combo
  unfolding heard note
  observe t event line now character = note t event.world (heard event line character) now
