-- ===== src/Lib.antt =====
-- tfr, a terminal and web client for text worlds (MUDs and MUCKs): a model of its Python code under
-- src/tfr/. Bytes arrive from a world's connection, the Telnet codec takes the protocol out of
-- them, the decoded text is framed into lines, and the lines go to the display buffer of a screen,
-- which wraps them into rows and keeps them with a pager that stops output at a screenful. Text is
-- filtered for terminal control sequences before it is shown.
--
-- Parts, each with child modules for its proofs and its tests:
--   Base       names shared by all modules: native numbers, lists, tests, results.
--   Telnet     src/tfr/telnet.py: TelnetCodec, byte by byte (`receive`), its negotiation
--              (`negotiate`), subnegotiations (`handle_subnegotiation`) and encoders.
--   Framer     src/tfr/sessions.py: TextFramer, `feed` and `flush`.
--   Ansi       src/tfr/ansi.py: project_ansi (`tokens`), the methods of AnsiProjection, and the filter of
--              safe_ansi_formatted_text (`safe_raw`).
--   Pager      src/tfr/pager.py: PagerState; append_rows is `append_rows` and, once its argument is
--              known to be no negative number, `grow`; trim_rows and reflow are split alike.
--   Display    src/tfr/pager.py: DisplayBuffer over a PagerState.
--   WorldText  src/tfr/world_text.py: escape_world_text.
--   Multiline  src/tfr/multiline.py: prepare_emit_lines and prepare_multiline_text over WorldText.
--   Gag        src/tfr/gag.py: GagPolicy, whose `allows` decides if output is shown.
--   Events     src/tfr/events.py: events, command requests and the redaction of secret commands.
--              Events.Patterns has the patterns of these commands, part by part.
--   Spoofing   src/tfr/spoofing.py: assess_spoofing.
--   Adapters   src/tfr/adapters.py: the adapters, `parse`, over Ansi.
--   Combo      src/tfr/combo.py: ComboTracker.observe.
--   Session    src/tfr/sessions.py: WorldSession, its events and commands; Session.Reading has the read
--              loop over Telnet, Framer and Spoofing, and Session.Running the start-up of a connection
--              and the loop of connections (`run`), with what a cancelled runner leaves at work
--              (`linger`). Session.Connector has the sessions of a world connector and their bridge.
--   Bus        src/tfr/core.py: EventBus and CommandBus.
--   Json, Dict values of JSON files, and dictionaries with text keys.
--   Device     src/tfr/gateway_devices.py: DeviceRecord, read and written.
--   DeviceStore  src/tfr/gateway_devices.py: DeviceStore, pairing, redemption, use and revocation.
--
-- A session joins the parts: what a connection receives goes through Telnet.feed, the decoder and
-- Framer.feed; each line is parsed by Adapters, assessed by Spoofing and becomes an event of
-- Events, and each command leaves an audit event and is written with Telnet.escape_iac.
--
-- State is a record; a method that changes it is a function to a new record, with what it returns
-- beside it. An exception is an `err` of the module's Error type; where the code has changed the
-- state before it raises, as in DeviceStore and Session, the changed state comes with the error.
-- Bytes and characters are natural numbers: bytes below 256, and code points.
--
-- Loops: the codec, the framer and the pager recurse on their input. `tokens_from` recurses on fuel
-- and is given the length of the text, which is enough since each round takes a character. The
-- 16-bit window sizes and the bytes keep their bounds, as hypotheses or tests.
--
-- Interleaving: a handler of a session runs to its end before another begins, which its locks and
-- the single thread give for the state that the model keeps; the order of chunks, timeouts,
-- commands and cancellation is any list (Session.Running.Activity). A call of the device store
-- holds its lock, so it is one step; a save fails or not as the call's Surroundings say.
--
-- Parameters: the rounding of a floating-point product in PagerState.reflow is a function `scaled`;
-- wrap_ansi_text and find_urls are the record Display.Wrapping, of which the buffer relies only on
-- one start offset for each row; the codec of a world's encoding is a function to the size of what
-- it encodes; the regular-expression engine and the clock are the record Gag.Engine of each call;
-- Device.Runtime is Python's isprintable, isspace, str(), ISO times, UUIDs, SHA-256 and quote, with
-- what is documented of them in Device.Documented; Spoofing.Alphabet is isspace and casefold;
-- Session.Runtime has that alphabet, by whose isspace the patterns of Events.Patterns go, the
-- codecs, the clocks and ids by the number of an event; Adapters.Patterns is the matches of the adapters' patterns,
-- and Combo.Reader those of the combo's, with the terminal library's plain text; a sink of the
-- event bus is a function that writes an event.
--
-- Not modelled: the other modules of src/tfr/, among them the gateway and its clients,
-- configuration, plug-ins, updates, effects and the user interface; of sessions.py the idle loop,
-- TLS, a drain that raises or a cancellation during the start-up commands, the calls of the
-- connector's client and the session manager; of gateway_devices.py the private file and its directory; in ansi.py the conversion to styled fragments, which is the
-- terminal library's; in DisplayBuffer the drawing of animated entries, the search for a URL under
-- the mouse and the recall of whole entries.
pub mod Adapters
pub mod Ansi
pub mod Base
pub mod Bus
pub mod Combo
pub mod Device
pub mod DeviceStore
pub mod Dict
pub mod Display
pub mod Events
pub mod Framer
pub mod Gag
pub mod Json
pub mod Multiline
pub mod Pager
pub mod Session
pub mod Spoofing
pub mod Telnet
pub mod WorldText
