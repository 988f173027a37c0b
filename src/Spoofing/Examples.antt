-- ===== src/Spoofing/Examples.antt =====
-- Tests of the model of src/tfr/spoofing.py, and its theorems at concrete lines. The alphabet of the
-- tests has the space and the letters of ASCII.
use tfr.Base.{
  ℕ, ◌+◌, ◌≡◌, refl, false, ◌&&◌, Option, none, some, List, [], ◌∷◌, map, leb, ◌==◌, if◌then◌else◌,
  ok, err, codes, text_eq,
}
use tfr.Events.{
  say, pose, Provenance, high, SpoofAssessment, not_spoofed, spoofed, speaker_mismatch,
  invalid_speaker_span, new_assessment,
}
use tfr.Spoofing.{Alphabet, match_say, verified_sender, assess_spoofing}
use tfr.Spoofing.Verdicts.{IsSender, not_spoofed-IsSender, blank_speaker_raises}

abbrev fold : ℕ → ℕ
fold c = if leb b'A' c && leb c b'Z' then c + 32 else c

abbrev ascii : Alphabet
ascii = record { is_space = λ c. c == 0x20; casefold = map fold }

abbrev from_ann : Option Provenance
from_ann = some (record {
  sender_name = some (codes " Ann ");
  sender_dbref = none;
  owner_name = none;
  owner_dbref = none;
  enactor_dbref = none;
  server_source = none;
  prefix_span = none;
  adapter = none;
  confidence = high;
})

abbrev greeting : List ℕ
greeting = codes "ANN says, \"hi\""

abbrev blank : List ℕ
blank = codes "  says, \"hi\""

abbrev cleared : SpoofAssessment
cleared = record {
  status = not_spoofed;
  speaker = codes "ANN";
  speaker_span = (0, 3);
  reason = none;
}

assess_spoofing-match_say : assess_spoofing ascii greeting say from_ann [] false ≡ ok (some cleared)
unfolding assess_spoofing text_eq new_assessment
assess_spoofing-match_say = refl

assess_spoofing-speaker_mismatch :
    assess_spoofing ascii (codes "Bob waves.") pose from_ann (codes "Bo" ∷ codes "bob" ∷ []) false
    ≡ ok (
        some (record {
          status = spoofed;
          speaker = codes "Bob";
          speaker_span = (0, 3);
          reason = some speaker_mismatch;
        }))
unfolding assess_spoofing text_eq new_assessment
assess_spoofing-speaker_mismatch = refl

match_say-none : match_say ascii (codes "Ann saying, \"hi\"") ≡ none
unfolding match_say
match_say-none = refl

not_spoofed-IsSender_example : IsSender ascii (verified_sender ascii from_ann) (codes "ANN")
unfolding assess_spoofing text_eq new_assessment
not_spoofed-IsSender_example =
    not_spoofed-IsSender ascii greeting say from_ann [] false cleared refl refl

blank_speaker_raises_example :
    assess_spoofing ascii blank say from_ann [] false ≡ err invalid_speaker_span
unfolding match_say verified_sender text_eq
blank_speaker_raises_example =
    blank_speaker_raises ascii blank say from_ann [] false 1 (codes "Ann") refl refl refl refl
