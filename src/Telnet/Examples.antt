-- ===== src/Telnet/Examples.antt =====
-- Runs of the Telnet codec, and the theorems at concrete inputs.
use tfr.Base.{ℕ, ◌≡◌, refl, some, List, [], ◌∷◌, ◌++◌, arith, codes, ok, contains, text_eq}
use tfr.Telnet.{
  Codec, TelnetResult, codec, feed, receive, negotiate, escape_iac, subnegotiation_message,
  command_message, enable_local, announce, local_option, handle_subnegotiation, in_data, event,
  negotiation, window_size_message,
}
use tfr.Telnet.Code.{iac, will, do_it, naws, charset, echo}
use tfr.Telnet.Chunks.{feed-append, then_feed}
use tfr.Telnet.Roundtrip.{feed-escape_iac, feed-subnegotiation_message, just, finished}
use tfr.Telnet.Safety.{IsValid, feed_total, codec-IsValid}
use tfr.Telnet.Negotiation.{responses_silent}

abbrev client : Codec
client = codec (codes "TFR") 80 24 (codes "utf-8")

-- A peer asks for the window size between two halves of a line.
abbrev chunk : List ℕ
chunk = codes "hel" ++ (iac ∷ do_it ∷ naws ∷ codes "lo")

feed_example :
    feed client chunk
    ≡ ok (
      record client { enabled_local = naws ∷ [] },
      record {
        bytes = codes "hello";
        responses =
            command_message will naws ∷ subnegotiation_message naws (0 ∷ 80 ∷ 0 ∷ 24 ∷ []) ∷ [];
        events = event negotiation do_it (some naws) [] ∷ [];
      },
    )
unfolding feed receive negotiate enable_local announce local_option contains window_size_message
    codec
feed_example = refl

charset_example :
    handle_subnegotiation client charset (1 ∷ codes ";LATIN-1;UTF-8")
    ≡ some (subnegotiation_message charset (2 ∷ codes "UTF-8"))
unfolding handle_subnegotiation text_eq codec
charset_example = refl

client-IsValid : IsValid client
client-IsValid = codec-IsValid (codes "TFR") (codes "utf-8") 80 24 (omega arith) (omega arith)

feed-append_example :
    feed client (codes "a" ++ chunk) ≡ then_feed (feed client (codes "a")) (λ c. feed c chunk)
feed-append_example = feed-append client (codes "a") chunk

feed-escape_iac_example : feed client (escape_iac (1 ∷ iac ∷ [])) ≡ ok (client, just (1 ∷ iac ∷ []))
unfolding codec
feed-escape_iac_example = feed-escape_iac client (1 ∷ iac ∷ []) refl

feed-subnegotiation_message_example :
    feed client (subnegotiation_message charset (1 ∷ iac ∷ []))
    ≡ ok (finished client charset (1 ∷ iac ∷ []))
unfolding codec
feed-subnegotiation_message_example = feed-subnegotiation_message client charset (1 ∷ iac ∷ []) refl

feed_total_example : (c : Codec) × (r : TelnetResult) × (feed client chunk ≡ ok (c, r)) × IsValid c
feed_total_example = feed_total client chunk client-IsValid

abbrev wide : Codec
wide = record client { columns = 300 }

abbrev echoing : Codec
echoing = record client { enabled_remote = echo ∷ [] }

abbrev charset_agreed : Codec
charset_agreed = record client { enabled_local = charset ∷ [] }

responses_silent_example :
    (peer : Codec) × (s : TelnetResult) × (feed client (command_message will naws) ≡ ok (peer, s))
    × (s.bytes ≡ [])
    × (peer.state ≡ in_data)
unfolding codec
responses_silent_example =
    responses_silent client (record client { enabled_local = naws ∷ [] }) chunk _ 0
      (command_message will naws) client feed_example refl client-IsValid refl
