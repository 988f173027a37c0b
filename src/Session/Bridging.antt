-- ===== src/Session/Bridging.antt =====
-- The read loop of ConnectorSessionBridge of src/tfr/sessions.py over a list of messages.
use tfr.Base.{
  ℕ, ℤ, ◌≡◌, refl, sym, ap, ◌∙◌, Option, none, some, List, [], ◌∷◌, ◌++◌, map, append_assoc,
  append-nil, if◌then◌else◌, codes, concat, Bool-cases, inl, inr,
}
use tfr.Json.{Value, Fields, null, get_or}
use tfr.Dict.{lookup}
use tfr.Session.{Runtime, WorldSession, Progress, goes_on, returned, raised}
use tfr.Session.Connector.{
  Bridge, Sent, acknowledges, acknowledges_overflow, as_int, as_text, is_text,
  handle_connector_event, handle_connector_overflow, settle, pass_on, on_world_event, on_overflow,
  receive,
}

-- The messages in turn, up to one that ends the loop.
abbrev pub next : Bridge × Progress → (Bridge → Bridge × Progress) → Bridge × Progress
next (b, goes_on) more = more b
next (b, p) more = (b, p)

module _ (r : Runtime) (show : Value → List ℕ) where
  abbrev pub receive_all : List Fields → Bridge → Bridge × Progress
  receive_all [] b = (b, goes_on)
  receive_all (message ∷ messages) b = next (receive r show message b) (receive_all messages)

-- The acknowledgement that a message asks for.
abbrev pub world_notice : Option (List ℕ) → Option ℤ → List Sent
world_notice (some world) (some sequence) = acknowledges world sequence ∷ []
world_notice _ _ = []

abbrev pub overflow_notice : Option ℤ → List Sent
overflow_notice (some notice_id) = acknowledges_overflow notice_id ∷ []
overflow_notice none = []

abbrev pub notice : Fields → List Sent
notice message =
    if is_text (codes "world_event") (get_or (codes "type") null message)
    then world_notice (as_text (get_or (codes "world") null message))
        (as_int (get_or (codes "sequence") null message))
    else overflow_notice (as_int (get_or (codes "notice_id") null message))

-- A bridge that goes on has sent these behind what it had sent.
abbrev Sends : List Sent → Bridge → Bridge × Progress → Type 0
Sends sent b (c, goes_on) = c.sent ≡ b.sent ++ sent
Sends sent b (c, returned) = Unit
Sends sent b (c, raised e) = Unit

pass_on-Sends :
    (world : List ℕ) (x : Sent) (handle : WorldSession → WorldSession × Progress)
    (o : Option WorldSession) (b : Bridge)
    → Sends (x ∷ []) b (pass_on world x handle o b)
unfolding pass_on
pass_on-Sends world x handle none b = refl
pass_on-Sends world x handle (some s) b = settled (handle s)
  where
    settled : (o : WorldSession × Progress) → Sends (x ∷ []) b (settle world x b o)
    settled (t, goes_on) = unfold settle in refl
    settled (t, returned) = unfold settle in tt
    settled (t, raised e) = unfold settle in tt

module _ (r : Runtime) (show : Value → List ℕ) where
  on_world_event-Sends :
      (world : Option (List ℕ)) (sequence : Option ℤ) (message : Fields) (b : Bridge)
      → Sends (world_notice world sequence) b (on_world_event r world sequence message b)
  unfolding on_world_event
  on_world_event-Sends (some world) (some n) message b =
      pass_on-Sends world (acknowledges world n) (handle_connector_event r message)
        (lookup world b.sessions) b
  on_world_event-Sends (some world) none message b = tt
  on_world_event-Sends none (some n) message b = tt
  on_world_event-Sends none none message b = tt

  on_overflow-Sends :
      (world : Option (List ℕ)) (id : Option ℤ) (message : Fields) (b : Bridge)
      → Sends (overflow_notice id) b (on_overflow r show world id message b)
  unfolding on_overflow
  on_overflow-Sends (some world) (some n) message b =
      pass_on-Sends world (acknowledges_overflow n)
        (λ x. (handle_connector_overflow r show message x, goes_on)) (lookup world b.sessions) b
  on_overflow-Sends (some world) none message b = tt
  on_overflow-Sends none (some n) message b = tt
  on_overflow-Sends none none message b = tt

  receive-Sends :
      (message : Fields) (b : Bridge) → Sends (notice message) b (receive r show message b)
  unfolding receive
  receive-Sends message b =
      elim (Bool-cases (is_text (codes "world_event") (get_or (codes "type") null message))) [
        | inl e ↦ rw e (on_world_event-Sends _ _ message b)
        | inr e ↦
            elim (Bool-cases (is_text (codes "overflow") (get_or (codes "type") null message))) [
              | inl f ↦ rw (e, f) (on_overflow-Sends _ _ message b)
              | inr f ↦ rw (e, f) tt
            ]
      ]

  receive_all-Sends :
      (messages : List Fields) (b : Bridge)
      → Sends (concat (map notice messages)) b (receive_all r show messages b)
  receive_all-Sends [] b = sym (append-nil b.sent)
  receive_all-Sends (message ∷ messages) b =
      joined (receive r show message b) (receive-Sends message b) (receive_all-Sends messages)
    where
      behind :
          (c : Bridge) (o : Bridge × Progress)
          → c.sent ≡ b.sent ++ notice message
          → Sends (concat (map notice messages)) c o
          → Sends (notice message ++ concat (map notice messages)) b o
      behind c (d, goes_on) e h =
          h
          ∙ ap (λ l. l ++ concat (map notice messages)) e
          ∙ append_assoc b.sent (notice message) (concat (map notice messages))
      behind c (d, returned) e h = tt
      behind c (d, raised x) e h = tt

      joined :
          (o : Bridge × Progress)
          → Sends (notice message) b o
          → ((c : Bridge) → Sends (concat (map notice messages)) c (receive_all r show messages c))
          → Sends
              (notice message ++ concat (map notice messages))
              b
              (next o (receive_all r show messages))
      joined (c, goes_on) e h = behind c (receive_all r show messages c) e (h c)
      joined (c, returned) e h = tt
      joined (c, raised x) e h = tt

  went_on :
      (sent : List Sent) (b : Bridge) (o : Bridge × Progress)
      → Sends sent b o
      → o.1 ≡ goes_on
      → o.0.sent ≡ b.sent ++ sent
  went_on sent b (c, goes_on) h e = h
  went_on sent b (c, returned) h e = cc
  went_on sent b (c, raised x) h e = cc

  -- Messages from the connector that the bridge takes without an error are acknowledged, each exactly
  -- once and in their order, those for worlds without a session too, and nothing else is sent.
  pub receive_all-notice :
      (messages : List Fields) (b : Bridge)
      → (receive_all r show messages b).1 ≡ goes_on
      → (receive_all r show messages b).0.sent ≡ b.sent ++ concat (map notice messages)
  receive_all-notice messages b h =
      went_on (concat (map notice messages)) b (receive_all r show messages b)
        (receive_all-Sends messages b) h
