-- ===== src/Spoofing.antt =====
-- src/tfr/spoofing.py: whether a line claims a speaker that its verified sender is not. The one
-- regular expression, _SAY_SPEAKER, is written out: its first group is the shortest text without a
-- line feed that white space, a form of "say", a comma, white space and a quotation mark follow.
pub mod Verdicts
pub mod Examples
use tfr.Base.{
  ℕ, suc, Bool, true, false, ◌&&◌, ◌||◌, not, Option, none, some, List, [], ◌∷◌, ltb, ◌==◌,
  if◌then◌else◌, Result, ok, err, ◌>>=◌, length, take, drop, drop_while, strip, text_eq, codes,
}
use tfr.Events.{
  EventKind, pose, Confidence, authoritative, high, Provenance, SpoofStatus, SpoofReason,
  SpoofAssessment, not_spoofed, spoofed, speaker_mismatch, missing_nospoof_prefix, Error,
  new_assessment, is_empty,
}

-- What the code takes from Python's strings: white space, and casefold.
pub record Alphabet : Type 0 where
  pub is_space : ℕ → Bool
  pub casefold : List ℕ → List ℕ

-- provenance.confidence in {AUTHORITATIVE, HIGH}
abbrev pub is_verified : Confidence → Bool
is_verified authoritative = true
is_verified high = true
is_verified _ = false

abbrev pub is_pose : EventKind → Bool
is_pose pose = true
is_pose _ = false

-- text or None
abbrev pub non_empty : List ℕ → Option (List ℕ)
non_empty [] = none
non_empty (c ∷ t) = some (c ∷ t)

-- SpoofAssessment as an answer.
unfoldable pub assessed :
    SpoofStatus → List ℕ → ℕ × ℕ → Option SpoofReason → Result Error (Option SpoofAssessment)
assessed status speaker span reason = new_assessment status speaker span reason >>= λ a. ok (some a)

-- ["“]
is_quote : ℕ → Bool
is_quote c = c == 0x22 || c == 0x201c

-- The longest sender of the list, the first of those.
abbrev pub longest : Option (List ℕ) → List (List ℕ) → Option (List ℕ)
longest best [] = best
longest none (s ∷ senders) = longest (some s) senders
longest (some best) (s ∷ senders) =
    longest (some (if ltb (length best) (length s) then s else best)) senders

module _ (a : Alphabet) where
  -- \s+["“]
  ends_say : List ℕ → Bool
  unfolding is_quote
  ends_say [] = false
  ends_say (c ∷ t) =
      a.is_space c && elim (drop_while a.is_space t) [ [] ↦ false | (q ∷ rest) ↦ is_quote q ]

  -- ,\s+["“]
  after_say : List ℕ → Bool
  unfolding ends_say
  after_say [] = false
  after_say (c ∷ t) = c == b',' && ends_say t

  -- s?,\s+["“]. Without regard to case, U+017F is an s too.
  is_s : ℕ → Bool
  is_s c = c == b's' || (c == b'S' || c == 0x17f)

  after_stem : List ℕ → Bool
  unfolding after_say is_s
  after_stem [] = false
  after_stem (c ∷ t) = if is_s c then after_say t else after_say (c ∷ t)

  -- says?,\s+["“]
  has_say : List ℕ → Bool
  unfolding after_stem
  has_say (s ∷ x ∷ y ∷ t) =
      is_s s && ((x == b'a' || x == b'A') && ((y == b'y' || y == b'Y') && after_stem t))
  has_say _ = false

  -- \s+says?,\s+["“]
  begins_say : List ℕ → Bool
  unfolding has_say
  begins_say [] = false
  begins_say (c ∷ t) = a.is_space c && has_say (drop_while a.is_space t)

  -- Where the speaker ends, with the characters behind the place that is tried.
  speaker_end : ℕ → List ℕ → Option ℕ
  unfolding begins_say
  speaker_end n [] = none
  speaker_end n (c ∷ t) =
      let rest = speaker_end (suc n) t in
      if begins_say (c ∷ t) then some n else if c == 0x0a then none else rest

  -- The end of the first group of _SAY_SPEAKER.match(text).
  unfoldable pub match_say : List ℕ → Option ℕ
  unfolding speaker_end
  match_say [] = none
  match_say (c ∷ t) = if c == 0x0a then none else speaker_end 1 t

  unfoldable pub verified_name : Option (List ℕ) → Option (List ℕ)
  verified_name none = none
  verified_name (some name) = non_empty (strip a.is_space name)

  unfoldable pub verified_sender : Option Provenance → Option (List ℕ)
  unfolding verified_name
  verified_sender none = none
  verified_sender (some p) = if is_verified p.confidence then verified_name p.sender_name else none

  possessive_boundary : List ℕ → Bool
  possessive_boundary suffix =
      not (ltb (length suffix) 2)
      && ((text_eq (a.casefold (take 2 suffix)) (codes "'s")
            || text_eq (a.casefold (take 2 suffix)) (0x2019 ∷ b's' ∷ []))
          && elim (drop 2 suffix) [ [] ↦ true | (c ∷ t) ↦ a.is_space c ])

  prefix_ends : List ℕ → Bool
  unfolding possessive_boundary
  prefix_ends [] = true
  prefix_ends (c ∷ t) = a.is_space c || possessive_boundary (c ∷ t)

  unfoldable pub speaker_prefix : List ℕ → List ℕ → Bool
  unfolding prefix_ends
  speaker_prefix text sender =
      text_eq (a.casefold (take (length sender) text)) (a.casefold sender)
      && prefix_ends (drop (length sender) text)

  matching : List ℕ → List (List ℕ) → List (List ℕ)
  unfolding speaker_prefix
  matching text [] = []
  matching text (s ∷ senders) =
      let rest = matching text senders in if speaker_prefix text s then s ∷ rest else rest

  unfoldable pub known_pose_speaker : List ℕ → List (List ℕ) → Option (List ℕ)
  unfolding matching
  known_pose_speaker text known_senders = longest none (matching text known_senders)

  -- The answer for a line that says something, by its verified sender.
  unfoldable pub judge_say :
      Option (List ℕ) → Bool → List ℕ → ℕ × ℕ → Result Error (Option SpoofAssessment)
  unfolding assessed
  judge_say (some sender) missing speaker span =
      if text_eq (a.casefold speaker) (a.casefold sender)
      then assessed not_spoofed speaker span none
      else assessed spoofed speaker span (some speaker_mismatch)
  judge_say none missing speaker span =
      if missing then assessed spoofed speaker span (some missing_nospoof_prefix) else ok none

  unfoldable pub assess_say :
      List ℕ → ℕ → Option (List ℕ) → Bool → Result Error (Option SpoofAssessment)
  unfolding judge_say
  assess_say text end sender missing =
      if text_eq (a.casefold (strip a.is_space (take end text))) (codes "you")
      then ok none
      else judge_say sender missing (strip a.is_space (take end text)) (0, end)

  -- A pose under the name of another sender that is known.
  unfoldable pub judge_pose :
      List ℕ → Option (List ℕ) → SpoofReason → Result Error (Option SpoofAssessment)
  unfolding assessed
  judge_pose text none reason = ok none
  judge_pose text (some speaker) reason =
      assessed spoofed (take (length speaker) text) (0, length speaker) (some reason)

  unfoldable pub assess_pose :
      List ℕ → Option (List ℕ) → Option (List ℕ) → Bool → Result Error (Option SpoofAssessment)
  unfolding judge_pose
  assess_pose text (some sender) apparent missing =
      if speaker_prefix text sender
      then assessed not_spoofed (take (length sender) text) (0, length sender) none
      else judge_pose text apparent speaker_mismatch
  assess_pose text none apparent missing =
      if missing then judge_pose text apparent missing_nospoof_prefix else ok none

  unfoldable pub assess :
      Option ℕ
      → List ℕ
      → EventKind
      → Option (List ℕ)
      → List (List ℕ)
      → Bool
      → Result Error (Option SpoofAssessment)
  unfolding assess_say assess_pose known_pose_speaker
  assess (some end) text kind sender known_senders missing = assess_say text end sender missing
  assess none text kind sender known_senders missing =
      if is_pose kind
      then assess_pose text sender (known_pose_speaker text known_senders) missing
      else ok none

  unfoldable pub assess_spoofing :
      List ℕ
      → EventKind
      → Option Provenance
      → List (List ℕ)
      → Bool
      → Result Error (Option SpoofAssessment)
  unfolding assess match_say verified_sender
  assess_spoofing text kind provenance known_senders missing =
      assess (match_say text) text kind (verified_sender provenance) known_senders missing
