-- ===== src/Session/Secrecy.antt =====
-- _send_startup of src/tfr/sessions.py: the password of the automatic login.
use tfr.Base.{
  ℕ, ◌≡◌, refl, ap, ◌∙◌, true, false, ◌||◌, some, List, [], ◌∷◌, ◌++◌, ◌==◌, append_assoc, codes,
  Result, ok, err, text_eq, arith, Bool-cases, inl, inr,
}
use tfr.Json.Lookup.{text_eq_refl}
use tfr.Events.{
  CommandRequest, Event, audit_event, outbound_audit_event, redact_command, redact_login,
}
use tfr.Events.Patterns.{login_prefix, name}
use tfr.Session.{Runtime, WorldSession, Login, Exception, write, audited, send_command, hand_over}
use tfr.Session.Running.{send_login, own_request, login_name, has_space, quoted}
use tfr.Session.LoginName.{
  AsciiSpaces, begins_visibly, begins_bare, login_prefix_lem, quoted_name_lem, bare_name_lem,
}

module _ (r : Runtime) where
  write-published :
      (s : WorldSession) (o : Result Exception (List ℕ)) → (write r s o).0.published ≡ s.published
  unfolding write
  write-published s (ok encoded) = refl
  write-published s (err e) = refl

  -- The events that are published with a request do not depend on how its text is encoded.
  send_command-published :
      (s : WorldSession) (request : CommandRequest) (event : Event)
      → request.session_id ≡ s.session_id
      → text_eq request.world s.world ≡ true
      → outbound_audit_event r.alphabet.is_space request s.connection_generation s.sequence
          (r.monotonic_ns s.sequence)
        ≡ event
      → (send_command r s request).0.published ≡ s.published ++ event ∷ []
  unfolding send_command audited hand_over
  send_command-published s request event i w e =
      let own : (request.session_id == s.session_id) ≡ true = ground arith in
      rw (own, w)
        (write-published (audited r s request) (r.encode s.config.encoding request.text)
          ∙ ap (λ x. s.published ++ x ∷ []) e)

  module _ (a : AsciiSpaces r.alphabet.is_space) where
    login_prefix-quoted :
        (character password : List ℕ)
        → begins_visibly r.alphabet.is_space password ≡ true
        → login_prefix r.alphabet.is_space
            (codes "connect " ++ ((0x22 ∷ (quoted character ++ 0x22 ∷ [])) ++ 0x20 ∷ password))
          ≡ some (codes "connect " ++ ((0x22 ∷ (quoted character ++ 0x22 ∷ [])) ++ 0x20 ∷ []))
    login_prefix-quoted character password h =
        let whole = append_assoc (quoted character) (0x22 ∷ []) (0x20 ∷ password) in
        login_prefix_lem r.alphabet.is_space a 0x22
          ((quoted character ++ 0x22 ∷ []) ++ 0x20 ∷ password) _ a.quote
          (ap (λ t. name r.alphabet.is_space (0x22 ∷ t)) whole
            ∙ quoted_name_lem r.alphabet.is_space a character password h)

    login_prefix-bare :
        (character password : List ℕ)
        → has_space r.alphabet.is_space character ≡ false
        → begins_bare character ≡ true
        → begins_visibly r.alphabet.is_space password ≡ true
        → login_prefix r.alphabet.is_space (codes "connect " ++ (character ++ 0x20 ∷ password))
          ≡ some (codes "connect " ++ (character ++ 0x20 ∷ []))
    login_prefix-bare [] password n q h = absurd (ground arith)
    login_prefix-bare (c ∷ t) password n q h =
        login_prefix_lem r.alphabet.is_space a c (t ++ 0x20 ∷ password) _ (ground arith)
          (bare_name_lem r.alphabet.is_space a c t password n (ground arith) h)

    login_prefix-login_name :
        (character password : List ℕ)
        → (has_space r.alphabet.is_space character || begins_bare character) ≡ true
        → begins_visibly r.alphabet.is_space password ≡ true
        → login_prefix r.alphabet.is_space
            (codes "connect " ++ (login_name r character ++ 0x20 ∷ password))
          ≡ some (codes "connect " ++ (login_name r character ++ 0x20 ∷ []))
    login_prefix-login_name character password q h =
        elim (Bool-cases (has_space r.alphabet.is_space character)) [
          | inl e ↦ rw e (login_prefix-quoted character password h)
          | inr e ↦ rw e (login_prefix-bare character password e (ground arith) h)
        ]

    -- If the password of the automatic login is not empty and does not begin with white space, and the
    -- character's name has white space in it, or is not empty and does not begin with a quote, then the
    -- login publishes one event more, in which [REDACTED] stands in the place of the whole password:
    -- the event is that of a request that never had the password.
    pub login_hides_password :
        (login : Login) (s : WorldSession)
        → (has_space r.alphabet.is_space login.character || begins_bare login.character) ≡ true
        → begins_visibly r.alphabet.is_space login.password ≡ true
        → (send_login r login s).0.published
          ≡ s.published
            ++ audit_event
                (own_request r s (codes "automatic-login") [] true)
                (record {
                  text = codes "connect " ++ (login_name r login.character ++ codes " [REDACTED]");
                  redacted = true;
                })
                s.connection_generation
                s.sequence
                (r.monotonic_ns s.sequence)
              ∷ []
    unfolding send_login own_request outbound_audit_event redact_command redact_login
    login_hides_password login s q h =
        let found = login_prefix-login_name login.character login.password q h in
        let joined : (codes "connect " ++ (login_name r login.character ++ 0x20 ∷ []))
              ++ codes "[REDACTED]"
            ≡ codes "connect " ++ (login_name r login.character ++ codes " [REDACTED]") =
          ap (codes "connect " ++◌)
            (append_assoc (login_name r login.character) (0x20 ∷ []) (codes "[REDACTED]")) in
        send_command-published s _ _ refl (text_eq_refl s.world) (rw (found, joined) refl)
