-- ===== src/Session/ReadingKeeps.antt =====
-- The read loop of src/tfr/sessions.py: what it keeps of a session, if the single changes keep it.
use tfr.Base.{ℕ, Option, none, some, List, [], ◌∷◌, Result, ok, err}
use tfr.Telnet.{Codec, TelnetEvent, TelnetResult, Fault}
use tfr.Telnet as Telnet
use tfr.Session.{Exception, Runtime, WorldSession, Progress, goes_on, returned, raised}
use tfr.Session.Reading.{
  Reader, Chunk, read, returns, publish_inbound, publish_telnet, publish_events, publish_frames,
  publish_pending, decoded, received, finished, timed_out, end_of_stream, bytes, broken, undrained,
  answered, received_undrained,
}
use tfr.Session.Stable.{IsStable, publish-keeps, and_then-keeps, publish_inbound-keeps}

module _ (r : Runtime) {P : WorldSession → Type 0} (stable : IsStable r P) where
  publish_events-keeps :
      (events : List TelnetEvent) (s : WorldSession) → P s → P (publish_events r events s)
  unfolding publish_events publish_telnet
  publish_events-keeps [] s v = v
  publish_events-keeps (event ∷ events) s v =
      publish_events-keeps events (publish_telnet r event s) (publish-keeps r stable s _ v)

  publish_frames-keeps :
      (frames : List (List ℕ)) (s : WorldSession) → P s → P (publish_frames r frames s).0
  unfolding publish_frames
  publish_frames-keeps [] s v = v
  publish_frames-keeps (frame ∷ frames) s v =
      and_then-keeps r stable (publish_inbound r frame s) (publish_frames r frames)
        (publish_inbound-keeps r stable frame s v) (publish_frames-keeps frames)

  publish_pending-keeps :
      (o : Option (List ℕ)) (s : WorldSession) → P s → P (publish_pending r o s).0
  unfolding publish_pending
  publish_pending-keeps none s v = v
  publish_pending-keeps (some line) s v = publish_inbound-keeps r stable line s v

  decoded-keeps :
      (reader : Reader r) (read_bytes : List ℕ) (s : WorldSession)
      → P s
      → P (decoded r reader read_bytes s).0
  unfolding decoded
  decoded-keeps reader [] s v = v
  decoded-keeps reader (b ∷ bs) s v = publish_frames-keeps _ s v

  received-keeps :
      (reader : Reader r) (o : Result Fault (Codec × TelnetResult)) (s : WorldSession)
      → P s
      → P (received r reader o s).0
  unfolding received
  received-keeps reader (err fault) s v = v
  received-keeps reader (ok (codec, result)) s v =
      decoded-keeps _ result.bytes _
        (publish_events-keeps result.events (record s { written = _ }) (stable.on_written s _ v))

  answered-keeps :
      (responses : List (List ℕ)) (e : Exception) (reader : Reader r) (codec : Codec)
      (s : WorldSession) (without : WorldSession × Reader r × Progress)
      → P s
      → P without.0
      → P (answered r responses e reader codec s without).0
  unfolding answered
  answered-keeps [] e reader codec s without v h = h
  answered-keeps (response ∷ responses) e reader codec s without v h = stable.on_written s _ v

  received_undrained-keeps :
      (e : Exception) (reader : Reader r) (o : Result Fault (Codec × TelnetResult))
      (s : WorldSession)
      → P s
      → P (received_undrained r e reader o s).0
  unfolding received_undrained
  received_undrained-keeps e reader (err fault) s v = received-keeps reader (err fault) s v
  received_undrained-keeps e reader (ok (codec, result)) s v =
      answered-keeps result.responses e reader codec s _ v
        (received-keeps reader (ok (codec, result)) s v)

  returns-keeps : (o : WorldSession × Progress) → P o.0 → P (returns o).0
  returns-keeps (s, goes_on) v = v
  returns-keeps (s, returned) v = v
  returns-keeps (s, raised e) v = v

  finished-keeps : (reader : Reader r) (s : WorldSession) → P s → P (finished r reader s).0
  unfolding finished
  finished-keeps reader s v = returns-keeps _ (
      and_then-keeps r stable (publish_frames r _ s) _ (publish_frames-keeps _ s v)
        (publish_pending-keeps _))

  pub read-keeps :
      (reader : Reader r) (chunk : Chunk r) (s : WorldSession) → P s → P (read r reader chunk s).0
  unfolding read
  read-keeps reader timed_out s v = publish_pending-keeps _ s v
  read-keeps reader end_of_stream s v = finished-keeps reader s v
  read-keeps reader (broken e) s v = v
  read-keeps reader (undrained read_bytes e) s v =
      received_undrained-keeps e reader (Telnet.feed reader.codec read_bytes) s v
  read-keeps reader (bytes read_bytes) s v =
      received-keeps reader (Telnet.feed reader.codec read_bytes) s v
