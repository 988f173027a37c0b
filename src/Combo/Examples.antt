-- ===== src/Combo/Examples.antt =====
-- Tests of the model of src/tfr/combo.py, and its theorem at a concrete row of lines.
use tfr.Base.{ℕ, ◌+◌, ◌≡◌, ◌≤◌, refl, false, none, some, [], ◌∷◌, leb, arith, codes, text_eq}
use tfr.Json.{end}
use tfr.Dict.{lookup}
use tfr.Events.{Event, inbound, pose, unknown, high}
use tfr.Spoofing.{Alphabet}
use tfr.Combo.{Reader, ComboTracker, Heard, dbref, heard, message_body_span, speaker_of}
use tfr.Combo.Streaks.{Line, InTime, observe_line, observe_all, row_reported}

abbrev exact : Alphabet
exact = record { is_space = λ c. leb c 0x20; casefold = λ t. t }

abbrev reader : Reader
reader = record { terminal_plain_text = λ t. t; say_body = λ t. none; say_speaker = λ t. t }

abbrev posed : Event
posed = record {
  session_id = 1;
  world = codes "mush";
  connection_generation = 1;
  sequence = 1;
  direction = inbound;
  kind = pose;
  monotonic_ns = 0;
  canonical_text = none;
  plain_text = none;
  display_text = none;
  provenance = some (record {
    sender_name = some (codes "Ann");
    sender_dbref = some 5;
    owner_name = none;
    owner_dbref = none;
    enactor_dbref = none;
    server_source = none;
    prefix_span = none;
    adapter = none;
    confidence = high;
  });
  spoof = none;
  parser_name = none;
  parser_version = none;
  confidence = unknown;
  actor = none;
  correlation_id = none;
  causation_id = none;
  redacted = false;
  metadata = end;
}

abbrev hop : ℕ → Line
hop now = record { event = posed; shown = codes "Ann's hat falls."; now = now; character = none }

abbrev hat : Heard
hat = record { speaker = codes "Ann"; identity = dbref 5; start = 6; stop = 16 }

abbrev tracker : ComboTracker
tracker = record {
  timeout_seconds = 300;
  streaks =
      (codes "mush", record { speaker = codes "Ann"; identity = dbref 5; count = 1; last_at = 0 })
      ∷ [];
}

hop-heard : heard exact reader posed (codes "Ann's hat falls.") none ≡ some hat
unfolding heard message_body_span speaker_of text_eq
hop-heard = refl

hop-InTime :
    (last now : ℕ)
    → now ≤ last + 300
    → InTime exact reader 300 (codes "mush") (dbref 5) last hat (hop now)
hop-InTime last now h = record { of_world = refl; is_heard = hop-heard; by = refl; soon = h }

row_reported_example :
    (observe_line exact reader (observe_all exact reader tracker (hop 300 ∷ [])) (hop 500)).1
    ≡ some (record { count = 3; speaker = codes "Ann"; body_start = 6; body_end = 16 })
unfolding lookup text_eq
row_reported_example =
    row_reported exact reader tracker (codes "mush") (dbref 5) 1 0 (hop 300 ∷ []) (hop 500) hat
      (record {
        streak = record { speaker = codes "Ann"; identity = dbref 5; count = 1; last_at = 0 };
        found = refl;
        by = refl;
        count_is = refl;
        last_is = refl;
      })
      ((hat, hop-InTime 0 300 (omega arith)), tt) (hop-InTime 300 500 (omega arith))
