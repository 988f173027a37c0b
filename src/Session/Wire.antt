-- ===== src/Session/Wire.antt =====
-- _send_command of src/tfr/sessions.py with the codec of src/tfr/telnet.py at the other end.
use tfr.Base.{
  ℕ, ◌≡◌, refl, sym, ap, ◌∙◌, true, List, [], ◌∷◌, ◌++◌, ◌==◌, arith, Result, ok, Bool-cases, inl,
  inr, text_eq,
}
use tfr.Json.Lookup.{text_eq_refl}
use tfr.Events.{CommandRequest}
use tfr.Telnet.{Codec, in_data, feed, escape_iac}
use tfr.Telnet.Code.{iac}
use tfr.Telnet.Roundtrip.{just, feed-escape_iac}
use tfr.Session.{Runtime, WorldSession, Exception, goes_on, write, audited, send_command}

abbrev pub line_end : List ℕ
line_end = 13 ∷ 10 ∷ []

escape_iac-line : (bs : List ℕ) → escape_iac (bs ++ line_end) ≡ escape_iac bs ++ line_end
unfolding escape_iac
escape_iac-line [] = refl
escape_iac-line (b ∷ bs) = elim (Bool-cases (b == iac)) [
  | inl e ↦ rw (e, escape_iac-line bs) refl
  | inr e ↦ rw (e, escape_iac-line bs) refl
]

module _ (r : Runtime) where
  write-ok :
      (s : WorldSession) (o : Result Exception (List ℕ)) (encoded : List ℕ)
      → o ≡ ok encoded
      → ((write r s o).1 ≡ goes_on)
        × ((write r s o).0.written ≡ s.written ++ (escape_iac encoded ++ line_end))
  unfolding write
  write-ok s o encoded h = rw h (refl, refl)

  send_command-write :
      (s : WorldSession) (request : CommandRequest)
      → request.session_id ≡ s.session_id
      → request.world ≡ s.world
      → send_command r s request
        ≡ write r (audited r s request) (r.encode s.config.encoding request.text)
  unfolding send_command
  send_command-write s request i w =
      let own : (request.session_id == s.session_id) ≡ true = ground arith in
      let same : text_eq request.world s.world ≡ true =
        ap (λ t. text_eq t s.world) w ∙ text_eq_refl s.world in
      rw (own, same) refl

  -- A request of the session whose text can be encoded is sent: its bytes go behind what was written,
  -- and a Telnet peer that is between commands reads from them the encoded text with CR LF, without a
  -- response or an event, and is between commands again.
  pub send_command-read :
      (s : WorldSession) (request : CommandRequest) (encoded : List ℕ) (peer : Codec)
      → request.session_id ≡ s.session_id
      → request.world ≡ s.world
      → r.encode s.config.encoding request.text ≡ ok encoded
      → peer.state ≡ in_data
      → ((send_command r s request).1 ≡ goes_on)
        × ((sent : List ℕ) × ((send_command r s request).0.written ≡ s.written ++ sent)
            × (feed peer sent ≡ ok (peer, just (encoded ++ line_end))))
  unfolding audited
  send_command-read s request encoded peer i w e h =
      let (goes, wrote) =
        write-ok (audited r s request) (r.encode s.config.encoding request.text) encoded e in
      let whole = send_command-write s request i w in
      (
        ap (λ p. p.1) whole ∙ goes,
        (
          escape_iac encoded ++ line_end,
          ap (λ p. p.0.written) whole ∙ wrote,
          ap (feed peer) (sym (escape_iac-line encoded))
              ∙ feed-escape_iac peer (encoded ++ line_end) h,
        ),
      )
