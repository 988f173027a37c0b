-- ===== src/Adapters/Examples.antt =====
-- Tests of the model of src/tfr/adapters.py, and its theorem at a concrete line.
use tfr.Base.{
  ℕ, ◌≡◌, refl, false, none, some, List, leb, if◌then◌else◌, arith, ok, codes, text_eq, take,
}
use tfr.Ansi.{plain, tokens, tokens_from, control_rest}
use tfr.Events.{pose, page, high}
use tfr.Spoofing.{Alphabet, speaker_prefix}
use tfr.Adapters.{
  Patterns, Prefix, ParsedInbound, tinymux, generic, classify_message, find_prefix, parse,
  adapter_for, bare, starts_with_speaker,
}
use tfr.Adapters.Prefixes.{Tells, parse-Tells}

abbrev exact : Alphabet
exact = record { is_space = λ c. leb c 0x20; casefold = λ t. t }

abbrev from_ann : Prefix
from_ann = record {
  sender = some (codes "Ann");
  sender_dbref = 5;
  owner = none;
  enactor_dbref = none;
  source = none;
  stop = 10;
}

abbrev patterns : Patterns
patterns = record {
  tinymux_full = λ t. if text_eq (take 10 t) (codes "[Ann(#5)] ") then some from_ann else none;
  tinymux_terse = λ t. none;
  rhost_full = λ t. none;
  has_say = λ t. false;
  has_page = λ t. text_eq (take 10 t) (codes "You paged ");
}

abbrev line : List ℕ
line = codes "[Ann(#5)] Ann hops."

classify_message-find_prefix :
    ((classify_message exact patterns (codes "Ann hops.") none (some (codes "Ann"))).kind ≡ pose)
    × ((classify_message exact patterns (codes "You paged Bob.") none none).kind ≡ page)
    × ((classify_message exact patterns (codes "Hi.") (some (codes "page")) none).confidence ≡ high)
unfolding classify_message text_eq starts_with_speaker speaker_prefix
classify_message-find_prefix = (refl, refl, refl)

adapter_for-codes : (adapter_for (codes "bare") ≡ bare) × (adapter_for (codes "moo") ≡ generic)
unfolding adapter_for text_eq
adapter_for-codes = (refl, refl)

parse-Tells_example :
    (x : ParsedInbound) × (parse exact patterns tinymux line false ≡ ok x)
    × Tells exact patterns from_ann line false x
unfolding find_prefix plain tokens tokens_from control_rest text_eq
parse-Tells_example = parse-Tells exact patterns tinymux line false from_ann refl (omega arith)
