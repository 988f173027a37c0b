-- ===== src/Session/Reading.antt =====
-- _publish_inbound, _publish_telnet and _read_loop of src/tfr/sessions.py.
use tfr.Base.{
  ℕ, pos, Bool, true, false, ◌&&◌, ◌||◌, ◌+◌, ◌/◌, ◌%◌, Option, none, some, List, [], ◌∷◌, ◌++◌,
  ltb, if◌then◌else◌, Result, ok, err, text_eq, codes, concat, length, take,
}
use tfr.Json.{Value, null, int, text, field, end}
use tfr.Events.{EventKind, say, telnet, Provenance, SpoofAssessment, inbound, invalid_speaker_span}
use tfr.Events as Events
use tfr.Spoofing.{assess_spoofing}
use tfr.Telnet.{
  Codec, TelnetEvent, TelnetResult, NegotiationKind, Fault, assertion_failed, overflow, value_error,
}
use tfr.Adapters.{ParsedInbound, parse, adapter_for}
use tfr.Adapters as Adapters
use tfr.Telnet as Telnet
use tfr.Framer.{TextFramer}
use tfr.Framer as Framer
use tfr.Session.{
  Runtime, WorldSession, Exception, Progress, goes_on, returned, raised, Content, internal_content,
  publish, remember_nospoof_sender,
}

-- config.server in {"rhost", "tinymush", "tinymux"}
unfoldable pub has_nospoof : List ℕ → Bool
has_nospoof server =
    text_eq server (codes "rhost")
    || (text_eq server (codes "tinymush") || text_eq server (codes "tinymux"))

abbrev is_say : EventKind → Bool
is_say say = true
is_say _ = false

abbrev you_say : List ℕ
you_say = codes "you say,"

abbrev kind_value : NegotiationKind → List ℕ
kind_value Telnet.negotiation = codes "negotiation"
kind_value Telnet.command = codes "command"
kind_value Telnet.subnegotiation = codes "subnegotiation"

-- bytes.hex()
abbrev hex_digit : ℕ → ℕ
hex_digit n = if ltb n 10 then b'0' + n else 87 + n

abbrev hex : List ℕ → List ℕ
hex [] = []
hex (b ∷ bs) = hex_digit (b / 16) ∷ hex_digit (b % 16) ∷ hex bs

abbrev option_value : Option ℕ → Value
option_value none = null
option_value (some n) = int (pos n)

abbrev payload_value : List ℕ → Value
payload_value [] = null
payload_value (b ∷ bs) = text (hex (b ∷ bs))

-- The exceptions of the codec and of SpoofAssessment.
abbrev codec_exception : Fault → Exception
codec_exception assertion_failed = record { type = codes "AssertionError"; message = [] }
codec_exception overflow = record {
  type = codes "OverflowError";
  message = codes "int too big to convert";
}
codec_exception value_error = record { type = codes "ValueError"; message = [] }

abbrev projection_exception : Adapters.Error → Exception
projection_exception Adapters.no_boundary = record {
  type = codes "ValueError";
  message = codes "visible offset is outside the projected text";
}
projection_exception (Adapters.no_prefix e) = record {
  type = codes "ValueError";
  message = codes "visible prefix length is outside the projected text";
}

abbrev pub span_exception : Exception
span_exception = record {
  type = codes "ValueError";
  message = codes "spoof assessment speaker span is invalid";
}

-- What comes next, unless the loop ends.
abbrev pub and_then :
    WorldSession × Progress → (WorldSession → WorldSession × Progress) → WorldSession × Progress
and_then (s, goes_on) next = next s
and_then (s, p) next = (s, p)

abbrev pub returns : WorldSession × Progress → WorldSession × Progress
returns (s, goes_on) = (s, returned)
returns (s, p) = (s, p)

module _ (r : Runtime) where
  -- What a line does to the marks of the session before it is published.
  unfoldable pub remember_sender : Option (List ℕ) → WorldSession → WorldSession
  remember_sender none s = s
  remember_sender (some []) s = s
  remember_sender (some (c ∷ name)) s = remember_nospoof_sender r (c ∷ name) s

  unfoldable pub is_own_say : WorldSession → ParsedInbound → Bool
  is_own_say s parsed =
      s.config.nospoof
      && (has_nospoof s.config.server
          && (is_say parsed.kind
              && text_eq (take (length you_say) (r.alphabet.casefold parsed.message_text)) you_say))

  unfoldable pub expects : Option Provenance → ParsedInbound → WorldSession → WorldSession
  unfolding remember_sender is_own_say
  expects (some p) parsed s =
      remember_sender p.sender_name (record s { expect_nospoof_continuation = true })
  expects none parsed s = record s {
    expect_nospoof_continuation = is_own_say s parsed || s.expect_nospoof_continuation;
  }

  inbound_content : ParsedInbound → Option SpoofAssessment → Content
  inbound_content parsed spoof = record {
    direction = inbound;
    kind = parsed.kind;
    canonical_text = some parsed.canonical_text;
    plain_text = some parsed.plain_text;
    display_text = some parsed.display_text;
    actor = none;
    provenance = parsed.provenance;
    spoof = spoof;
    parser_name = some parsed.parser_name;
    parser_version = some parsed.parser_version;
    confidence = parsed.confidence;
    metadata = field (codes "message_text") (text parsed.message_text) end;
  }

  unfoldable pub publish_assessed :
      WorldSession
      → ParsedInbound
      → Result Events.Error (Option SpoofAssessment)
      → WorldSession × Progress
  unfolding inbound_content
  publish_assessed s parsed (err e) = (s, raised span_exception)
  publish_assessed s parsed (ok spoof) = (publish r s (inbound_content parsed spoof), goes_on)

  unfoldable pub publish_parsed : WorldSession → ParsedInbound → WorldSession × Progress
  unfolding expects publish_assessed
  publish_parsed s parsed =
      let missing = s.expect_nospoof_continuation in
      let t = expects parsed.provenance parsed s in
      publish_assessed t parsed (
        assess_spoofing r.alphabet parsed.message_text parsed.kind parsed.provenance
          t.nospoof_senders missing)

  unfoldable pub publish_result :
      WorldSession → Result Adapters.Error ParsedInbound → WorldSession × Progress
  unfolding publish_parsed
  publish_result s (err e) = (s, raised (projection_exception e))
  publish_result s (ok parsed) = publish_parsed s parsed

  unfoldable pub publish_inbound : List ℕ → WorldSession → WorldSession × Progress
  unfolding publish_result
  publish_inbound line s =
      publish_result s
        (parse r.alphabet r.patterns (adapter_for s.config.server) line s.config.show_prefix)

  unfoldable pub publish_telnet : TelnetEvent → WorldSession → WorldSession
  publish_telnet event s = publish r s (
      internal_content telnet none (
        field (codes "telnet_kind") (text (kind_value event.kind)) (
          field (codes "command") (int (pos event.command)) (
            field (codes "option") (option_value event.option)
              (field (codes "payload_hex") (payload_value event.payload) end)))))

  unfoldable pub publish_events : List TelnetEvent → WorldSession → WorldSession
  unfolding publish_telnet
  publish_events [] s = s
  publish_events (event ∷ events) s = publish_events events (publish_telnet event s)

  unfoldable pub publish_frames : List (List ℕ) → WorldSession → WorldSession × Progress
  unfolding publish_inbound
  publish_frames [] s = (s, goes_on)
  publish_frames (frame ∷ frames) s = and_then (publish_inbound frame s) (publish_frames frames)

  unfoldable pub publish_pending : Option (List ℕ) → WorldSession → WorldSession × Progress
  unfolding publish_inbound
  publish_pending none s = (s, goes_on)
  publish_pending (some line) s = publish_inbound line s

  -- The variables of _read_loop.
  pub record Reader : Type 0 where
    pub codec : Codec
    pub decoder : r.Decoder
    pub framer : TextFramer

  -- What read() gives: nothing in time, the end of the stream, bytes, or an exception; and bytes to
  -- which an answer, if there is one, is written but drain() raises.
  pub data Chunk : Type 0 where
    timed_out end_of_stream : Chunk
    bytes : List ℕ → Chunk
    broken : Exception → Chunk
    undrained : List ℕ → Exception → Chunk

  unfoldable pub decoded : Reader → List ℕ → WorldSession → WorldSession × Reader × Progress
  unfolding publish_frames
  decoded reader [] s = (s, reader, goes_on)
  decoded reader (b ∷ bs) s =
      let (decoder, decoded_text) = r.decode reader.decoder (b ∷ bs) false in
      let (framer, frames) = Framer.feed reader.framer decoded_text in
      let (t, p) = publish_frames frames s in
      (t, record reader { decoder = decoder; framer = framer }, p)

  unfoldable pub received :
      Reader → Result Fault (Codec × TelnetResult) → WorldSession → WorldSession × Reader × Progress
  unfolding decoded publish_events
  received reader (err fault) s = (s, reader, raised (codec_exception fault))
  received reader (ok (codec, result)) s =
      decoded (record reader { codec = codec }) result.bytes
        (publish_events result.events (record s { written = s.written ++ concat result.responses }))

  -- The same when drain() raises.
  unfoldable pub answered :
      List (List ℕ)
      → Exception
      → Reader
      → Codec
      → WorldSession
      → WorldSession × Reader × Progress
      → WorldSession × Reader × Progress
  answered [] e reader codec s without = without
  answered (response ∷ responses) e reader codec s without = (
    record s { written = s.written ++ concat (response ∷ responses) },
    record reader { codec = codec },
    raised e,
  )

  unfoldable pub received_undrained :
      Exception
      → Reader
      → Result Fault (Codec × TelnetResult)
      → WorldSession
      → WorldSession × Reader × Progress
  unfolding received answered
  received_undrained e reader (err fault) s = received reader (err fault) s
  received_undrained e reader (ok (codec, result)) s =
      answered result.responses e reader codec s (received reader (ok (codec, result)) s)

  unfoldable pub finished : Reader → WorldSession → WorldSession × Progress
  unfolding publish_frames publish_pending
  finished reader s =
      let (decoder, decoded_text) = r.decode reader.decoder [] true in
      let (framer, frames) = Framer.feed reader.framer decoded_text in
      let (framer', pending) = Framer.flush framer in
      returns (and_then (publish_frames frames s) (publish_pending pending))

  -- One round of _read_loop.
  unfoldable pub read : Reader → Chunk → WorldSession → WorldSession × Reader × Progress
  unfolding publish_pending received received_undrained finished
  read reader timed_out s =
      let (framer, pending) = Framer.flush reader.framer in
      let (t, p) = publish_pending pending s in (t, record reader { framer = framer }, p)
  read reader end_of_stream s = let (t, p) = finished reader s in (t, reader, p)
  read reader (broken e) s = (s, reader, raised e)
  read reader (undrained chunk e) s = received_undrained e reader (Telnet.feed reader.codec chunk) s
  read reader (bytes chunk) s = received reader (Telnet.feed reader.codec chunk) s
