-- ===== src/Adapters.antt =====
-- src/tfr/adapters.py: what a line of a world is, and who sent it. The six regular expressions are
-- parameters; a prefix that one of them finds is its groups and its end.
pub mod Prefixes
pub mod Examples
use mathlib.Core.List.{reverse}
use tfr.Base.{
  ℕ, zero, suc, Bool, true, false, ◌||◌, Option, none, some, List, [], ◌∷◌, ◌==◌, if◌then◌else◌,
  Result, ok, err, ◌>>=◌, require, get_elem?, drop, drop_while, text_eq, codes,
}
use tfr.Ansi as Ansi
use tfr.Ansi.{plain, raw_boundaries, remove_visible_prefix}
use tfr.Events.{
  EventKind, raw_output, speech, say, pose, page, channel, system, Confidence, high, inferred,
  unknown, Provenance,
}
use tfr.Spoofing.{Alphabet, speaker_prefix}

pub record Prefix : Type 0 where
  pub sender : Option (List ℕ)
  pub sender_dbref : ℕ
  pub owner : Option (List ℕ)
  pub enactor_dbref : Option ℕ
  pub source : Option (List ℕ)
  pub stop : ℕ

-- The matches of the patterns: the prefixes of _TINYMUX_FULL, _TINYMUX_TERSE and _RHOST_FULL, and
-- whether _SAY or _OWN_SAY, and _PAGE, are found.
pub record Patterns : Type 0 where
  pub tinymux_full : List ℕ → Option Prefix
  pub tinymux_terse : List ℕ → Option Prefix
  pub rhost_full : List ℕ → Option Prefix
  pub has_say : List ℕ → Bool
  pub has_page : List ℕ → Bool

pub record Classification : Type 0 where
  pub kind : EventKind
  pub confidence : Confidence

pub record ParsedInbound : Type 0 where
  pub canonical_text : List ℕ
  pub plain_text : List ℕ
  pub display_text : List ℕ
  pub message_text : List ℕ
  pub kind : EventKind
  pub provenance : Option Provenance
  pub parser_name : List ℕ
  pub parser_version : List ℕ
  pub confidence : Confidence

-- The faults of the projection that the adapters call.
pub data Error : Type 0 where
  no_boundary : Error
  no_prefix : Ansi.Error → Error

-- message.rstrip("\r\n")
unfoldable pub rstrip_newlines : List ℕ → List ℕ
rstrip_newlines t = reverse (drop_while (λ c. c == 13 || c == 10) (reverse t))

abbrev classified : EventKind → Confidence → Classification
classified kind confidence = record { kind = kind; confidence = confidence }

-- The confidence of raw output with a prefix.
abbrev pub raised : EventKind → Confidence → Confidence
raised raw_output confidence = high
raised _ confidence = confidence

abbrev pub version : List ℕ
version = codes "1"

provenance_of : List ℕ → Prefix → ℕ → Provenance
provenance_of adapter prefix boundary = record {
  sender_name = prefix.sender;
  sender_dbref = some prefix.sender_dbref;
  owner_name = prefix.owner;
  owner_dbref = none;
  enactor_dbref = prefix.enactor_dbref;
  server_source = prefix.source;
  prefix_span = some (0, boundary);
  adapter = some adapter;
  confidence = high;
}

abbrev pub or_no_prefix : Result Ansi.Error (List ℕ) → Result Error (List ℕ)
or_no_prefix (ok raw) = ok raw
or_no_prefix (err e) = err (no_prefix e)

-- What is shown of a line with a prefix.
unfoldable pub shown : Bool → List ℕ → ℕ → Result Error (List ℕ)
shown true text stop = ok text
shown false text stop = or_no_prefix (remove_visible_prefix text stop)

-- The prefix of a line for each kind of server: the longer form of a TinyMUX first.
or_terse : Option Prefix → Option Prefix → Option Prefix
or_terse (some prefix) terse = some prefix
or_terse none terse = terse

pub data Adapter : Type 0 where
  generic bare tinymux rhost tinymush : Adapter

abbrev pub name : Adapter → List ℕ
name generic = codes "generic"
name bare = codes "bare"
name tinymux = codes "tinymux"
name rhost = codes "rhost"
name tinymush = codes "tinymush"

unfoldable pub adapter_for : List ℕ → Adapter
adapter_for server =
    if text_eq server (codes "bare")
    then bare
    else if text_eq server (codes "tinymux")
    then tinymux
    else if text_eq server (codes "tinymush")
    then tinymush
    else if text_eq server (codes "rhost")
    then rhost
    else generic

module _ (a : Alphabet) (p : Patterns) where
  unfoldable pub starts_with_speaker : List ℕ → Option (List ℕ) → Bool
  starts_with_speaker message none = false
  starts_with_speaker message (some []) = false
  starts_with_speaker message (some (c ∷ name)) = speaker_prefix a message (c ∷ name)

  classify_speech : List ℕ → Option (List ℕ) → Classification
  unfolding starts_with_speaker
  classify_speech visible sender =
      if p.has_say visible
      then classified say inferred
      else if starts_with_speaker visible sender
      then classified pose inferred
      else classified speech high

  classify_other : List ℕ → Option (List ℕ) → Classification
  unfolding starts_with_speaker
  classify_other visible sender =
      if p.has_page visible
      then classified page inferred
      else if p.has_say visible
      then classified say inferred
      else if starts_with_speaker visible sender
      then classified pose inferred
      else classified raw_output unknown

  classify_visible : List ℕ → Option (List ℕ) → Option (List ℕ) → Classification
  unfolding classify_speech classify_other
  classify_visible visible none sender = classify_other visible sender
  classify_visible visible (some source) sender =
      if text_eq source (codes "page")
      then classified page high
      else if text_eq source (codes "comsys")
      then classified channel high
      else if text_eq source (codes "kill") || text_eq source (codes "give")
      then classified system high
      else if text_eq source (codes "saypose")
      then classify_speech visible sender
      else classify_other visible sender

  unfoldable pub classify_message : List ℕ → Option (List ℕ) → Option (List ℕ) → Classification
  unfolding classify_visible rstrip_newlines
  classify_message message source sender = classify_visible (rstrip_newlines message) source sender

  -- _parsed, without a prefix and with one.
  unfoldable pub parsed_plain : List ℕ → List ℕ → ParsedInbound
  unfolding classify_message
  parsed_plain adapter text =
      let c = classify_message (plain text) none none in
      record {
        canonical_text = text;
        plain_text = plain text;
        display_text = text;
        message_text = plain text;
        kind = c.kind;
        provenance = none;
        parser_name = adapter;
        parser_version = version;
        confidence = c.confidence;
      }

  prefixed : List ℕ → List ℕ → Prefix → ℕ → List ℕ → ParsedInbound
  unfolding classify_message provenance_of
  prefixed adapter text prefix boundary display =
      let message = drop prefix.stop (plain text) in
      let c = classify_message message prefix.source prefix.sender in
      record {
        canonical_text = text;
        plain_text = plain text;
        display_text = display;
        message_text = message;
        kind = c.kind;
        provenance = some (provenance_of adapter prefix boundary);
        parser_name = adapter;
        parser_version = version;
        confidence = raised c.kind c.confidence;
      }

  unfoldable pub parsed_prefix : List ℕ → List ℕ → Prefix → Bool → Result Error ParsedInbound
  unfolding shown prefixed
  parsed_prefix adapter text prefix show_prefix = do
    boundary ← require no_boundary (get_elem? (raw_boundaries text) prefix.stop)
    display ← shown show_prefix text prefix.stop
    ok (prefixed adapter text prefix boundary display)

  unfoldable pub parsed : List ℕ → List ℕ → Option Prefix → Bool → Result Error ParsedInbound
  unfolding parsed_plain parsed_prefix
  parsed adapter text none show_prefix = ok (parsed_plain adapter text)
  parsed adapter text (some prefix) show_prefix = parsed_prefix adapter text prefix show_prefix

  unfoldable pub find_prefix : Adapter → List ℕ → Option Prefix
  unfolding or_terse
  find_prefix generic line = none
  find_prefix bare line = none
  find_prefix tinymux line = or_terse (p.tinymux_full line) (p.tinymux_terse line)
  find_prefix rhost line = p.rhost_full line
  find_prefix tinymush line = p.rhost_full line

  unfoldable pub parse : Adapter → List ℕ → Bool → Result Error ParsedInbound
  unfolding parsed find_prefix
  parse adapter text show_prefix =
      parsed (name adapter) text (find_prefix adapter (plain text)) show_prefix
