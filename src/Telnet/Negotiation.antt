-- ===== src/Telnet/Negotiation.antt =====
-- What the codec of src/tfr/telnet.py answers, and what a peer makes of the answers.
use mathlib.Core.Path.{subst}
use tfr.Base.{
  get_elem?, zero, suc, ℕ, ◌≡◌, refl, ◌∙◌, List, [], ◌∷◌, ◌++◌, arith, some, none, Option, Result,
  ok, err, ◌>>=◌, inl, inr, true, false, All, All-append, contains, discard, ◌||◌, ◌/◌, ◌%◌,
  if◌then◌else◌, ◌==◌, Bool-cases, Option-cases,
}
use tfr.Telnet.{
  Codec, TelnetResult, State, Fault, in_data, in_iac, in_negotiation, in_subnegotiation_option,
  in_subnegotiation, in_subnegotiation_iac, feed, receive, negotiate, enable_local, announce,
  remote_option, local_option, command_message, subnegotiation_message, window_size_message,
  no_result, negotiated, idle_codec, on_iac, on_negotiation, on_subnegotiation_iac,
  end_subnegotiation, dispatch, handle_subnegotiation, to_list, charset_reply, select_charset,
  ascii_replace,
}
use tfr.Telnet.Code.{will, wont, do_it, dont, iac, naws, charset}
use tfr.Telnet.Chunks.{Run, after, then_feed, feed-cons}
use tfr.Telnet.Roundtrip.{between, between_self, feed_quiet, feed-subnegotiation_message}
use tfr.Telnet.Safety.{IsValid, Succeeds, negotiate-Succeeds}

contains-discard : (o : ℕ) (xs : List ℕ) → contains o (discard o xs) ≡ false
unfolding contains discard
contains-discard o [] = refl
contains-discard o (x ∷ xs) = ground (arith, contains-discard o xs)

-- An offer of a wanted option is agreed to once: after any answer to WILL the option is enabled, the
-- same offer again changes nothing and gets no answer, and once the peer has withdrawn it by WONT,
-- which gets no answer either, the next offer is agreed to again.
will_once :
    (c c' : Codec) (o : ℕ) (answers : List (List ℕ))
    → remote_option o ≡ true
    → negotiate c will o ≡ ok (c', answers)
    → (contains o c'.enabled_remote ≡ true)
      × (negotiate c' will o ≡ ok (c', []))
      × (d : Codec) × (negotiate c' wont o ≡ ok (d, []))
      × (negotiate d will o
          ≡ ok (record d { enabled_remote = o ∷ d.enabled_remote }, command_message do_it o ∷ []))
unfolding negotiate contains
will_once c c' o answers h e = (
  ground arith,
  ground arith,
  record c' { enabled_remote = discard o c'.enabled_remote },
  ground arith,
  ground (arith, contains-discard o c'.enabled_remote),
)

abbrev size_bytes : ℕ → List ℕ
size_bytes n = n / 256 ∷ n % 256 ∷ []

-- A request for an offered option is granted once: after any answer to DO the option is enabled, and
-- the same request again changes nothing and is answered by the window size for NAWS, and by nothing
-- for any other option.
do_once :
    (c c' : Codec) (o : ℕ) (answers : List (List ℕ))
    → local_option o ≡ true
    → negotiate c do_it o ≡ ok (c', answers)
    → (contains o c'.enabled_local ≡ true)
      × (negotiate c' do_it o
          ≡ ok (
            c',
            if o == naws
                then subnegotiation_message naws (size_bytes c'.columns ++ size_bytes c'.rows) ∷ []
                else [],
          ))
unfolding negotiate announce enable_local contains window_size_message
do_once c c' o answers h e = (ground arith, ground arith)

-- A peer that is between commands reads the message without a fault, sees no application byte in
-- it, and is between commands again.
abbrev IsSilent : List ℕ → Type 0
IsSilent m =
    (peer : Codec)
    → IsValid peer
    → peer.state ≡ in_data
    → (peer' : Codec) × (r : TelnetResult) × (feed peer m ≡ ok (peer', r))
      × (r.bytes ≡ [])
      × (peer'.state ≡ in_data)

subnegotiation_message-IsSilent : (o : ℕ) (p : List ℕ) → IsSilent (subnegotiation_message o p)
subnegotiation_message-IsSilent o p peer v h =
    (_, _, feed-subnegotiation_message peer o p h, refl, refl)

abbrev IsVerb : ℕ → Type 0
IsVerb v = v == will || (v == wont || (v == do_it || v == dont)) ≡ true

armed_codec : Codec → ℕ → Codec
armed_codec c verb = record c { negotiation_command = some verb; state = in_negotiation }

receive_verb :
    (c : Codec) (verb : ℕ)
    → IsVerb verb
    → receive (record c { state = in_iac }) verb ≡ ok (armed_codec c verb, no_result)
unfolding receive armed_codec
receive_verb c verb h = ground arith

feed_command :
    (c : Codec) (verb o : ℕ)
    → IsVerb verb
    → feed (between c) (command_message verb o) ≡ feed (armed_codec c verb) (o ∷ [])
unfolding command_message
feed_command c verb o h =
    feed_quiet (between c) iac (verb ∷ o ∷ []) (record c { state = in_iac })
      (unfold receive in refl)
    ∙ feed_quiet (record c { state = in_iac }) verb (o ∷ []) (armed_codec c verb)
        (receive_verb c verb h)

-- A feed that ends between commands with no byte for the application.
abbrev IsQuiet : Run → Type 0
IsQuiet (ok (c, r)) = (r.bytes ≡ []) × (c.state ≡ in_data)
IsQuiet (err e) = ⊥

abbrev answer_run : ℕ → ℕ → Result Fault (Codec × List (List ℕ)) → Run
answer_run verb o (ok (c, rs)) = ok (idle_codec c, negotiated verb o rs)
answer_run verb o (err e) = err e

receive_option :
    (c : Codec) (verb o : ℕ)
    → receive (armed_codec c verb) o ≡ answer_run verb o (negotiate (armed_codec c verb) verb o)
unfolding receive armed_codec on_negotiation
receive_option c verb o =
    elim (negotiate (armed_codec c verb) verb o)
      as (λ r.
        (◌>>=◌ {A = Codec × List (List ℕ)} r (λ (d, rs). ok (idle_codec d, negotiated verb o rs)))
        ≡ answer_run verb o r) [ ok q ↦ refl | err e ↦ refl ]

answer-IsQuiet :
    (verb o : ℕ) (r : Result Fault (Codec × List (List ℕ)))
    → Succeeds r
    → IsQuiet (then_feed (answer_run verb o r) (λ c. feed c []))
unfolding feed
answer-IsQuiet verb o (ok q) h = (refl, refl)
answer-IsQuiet verb o (err e) h = h

quiet_run :
    (q : Run)
    → IsQuiet q
    → (c : Codec) × (r : TelnetResult) × (q ≡ ok (c, r)) × (r.bytes ≡ []) × (c.state ≡ in_data)
quiet_run (ok (c, r)) h = (c, r, refl, h.0, h.1)
quiet_run (err e) h = absurd h

armed-IsValid : (c : Codec) (verb : ℕ) → IsValid c → IsValid (armed_codec c verb)
unfolding armed_codec
armed-IsValid c verb v = ground arith

command_message-IsSilent : (verb o : ℕ) → IsVerb verb → IsSilent (command_message verb o)
command_message-IsSilent verb o h peer v e = quiet_run (feed peer (command_message verb o)) (
    subst (λ p. IsQuiet (feed p (command_message verb o))) (between_self peer e)
      (rw (feed_command peer verb o h, feed-cons, receive_option)
        (answer-IsQuiet verb o _ (negotiate-Succeeds _ verb o (armed-IsValid peer verb v)))))

-- Every response of a run is silent.
abbrev Answers : Result Fault (Codec × List (List ℕ)) → Type 0
Answers (ok (c, rs)) = All IsSilent rs
Answers (err e) = Unit

window_size_message-IsSilent : (c : Codec) (m : List ℕ) → window_size_message c ≡ ok m → IsSilent m
unfolding window_size_message
window_size_message-IsSilent c m h =
    subst IsSilent {x = subnegotiation_message naws (size_bytes c.columns ++ size_bytes c.rows)}
      (ground arith)
      (subnegotiation_message-IsSilent naws (size_bytes c.columns ++ size_bytes c.rows))

announce-Answers : (o : ℕ) (q : Codec × List (List ℕ)) → All IsSilent q.1 → Answers (announce o q)
unfolding announce
announce-Answers o (c, granted) h = elim (Bool-cases (o == naws)) [
  | inl e ↦ rw e (go (window_size_message c) refl)
  | inr e ↦ rw e h
]
  where
    go :
        (r : Result Fault (List ℕ))
        → window_size_message c ≡ r
        → Answers (
            ◌>>=◌ {A = List ℕ} {B = Codec × List (List ℕ)} r (λ size. ok (c, granted ++ size ∷ [])))
    go (ok m) e = All-append IsSilent granted (m ∷ []) h (window_size_message-IsSilent c m e, tt)
    go (err f) e = tt

enable_local-IsSilent : (c : Codec) (o : ℕ) → All IsSilent (enable_local c o).1
unfolding enable_local
enable_local-IsSilent c o = ground (arith, command_message-IsSilent will o refl)

negotiate-Answers : (c : Codec) (verb o : ℕ) → Answers (negotiate c verb o)
unfolding negotiate
negotiate-Answers c verb o = ground (
  arith,
  command_message-IsSilent do_it o refl,
  command_message-IsSilent dont o refl,
  command_message-IsSilent wont o refl,
  announce-Answers o (enable_local c o) (enable_local-IsSilent c o),
)

abbrev RunAnswers : Run → Type 0
RunAnswers (ok (c, r)) = All IsSilent r.responses
RunAnswers (err e) = Unit

charset_reply-IsSilent :
    (c : Codec) (payload : List ℕ) → All IsSilent (to_list (charset_reply c payload))
unfolding charset_reply
charset_reply-IsSilent c [] = tt
charset_reply-IsSilent c (verb ∷ request) = elim (Bool-cases (verb == 1)) [
  | inl e ↦ rw e (go (select_charset c request))
  | inr e ↦ rw e tt
]
  where
    go :
        (o : Option (List ℕ))
        → All IsSilent (
            to_list
              (elim o [ none ↦ none | some s ↦ some (subnegotiation_message charset (2 ∷ s)) ]))
    go none = tt
    go (some s) = (subnegotiation_message-IsSilent charset (2 ∷ s), tt)

reply-IsSilent :
    (c : Codec) (o : ℕ) (payload : List ℕ)
    → All IsSilent (to_list (handle_subnegotiation c o payload))
unfolding handle_subnegotiation
reply-IsSilent c o payload = ground (
  arith,
  subnegotiation_message-IsSilent o (0 ∷ ascii_replace c.terminal_type),
  charset_reply-IsSilent c payload,
)

on_negotiation-RunAnswers :
    (c : Codec) (verb : Option ℕ) (o : ℕ) → RunAnswers (on_negotiation c verb o)
unfolding on_negotiation
on_negotiation-RunAnswers c none o = tt
on_negotiation-RunAnswers c (some verb) o = go (negotiate c verb o) (negotiate-Answers c verb o)
  where
    go :
        (r : Result Fault (Codec × List (List ℕ)))
        → Answers r
        → RunAnswers (
            ◌>>=◌ {A = Codec × List (List ℕ)} r
              (λ (d, rs). ok (idle_codec d, negotiated verb o rs)))
    go (ok q) h = h
    go (err e) h = tt

dispatch-RunAnswers : (s : State) (c : Codec) (value : ℕ) → RunAnswers (dispatch s c value)
unfolding dispatch on_iac on_subnegotiation_iac end_subnegotiation
dispatch-RunAnswers in_data c value = ground arith
dispatch-RunAnswers in_iac c value = ground arith
dispatch-RunAnswers in_negotiation c value = on_negotiation-RunAnswers c c.negotiation_command value
dispatch-RunAnswers in_subnegotiation_option c value = tt
dispatch-RunAnswers in_subnegotiation c value = ground arith
dispatch-RunAnswers in_subnegotiation_iac c value = elim (Option-cases c.subnegotiation_option) [
  | inl e ↦ ground arith
  | inr (o, e) ↦ ground (arith, reply-IsSilent c o c.subnegotiation_data)
]

then_feed-RunAnswers :
    (r : Run) (k : Codec → Run)
    → RunAnswers r
    → ((c : Codec) → RunAnswers (k c))
    → RunAnswers (then_feed r k)
then_feed-RunAnswers (err e) k h hk = tt
then_feed-RunAnswers (ok (c, r)) k h hk = go (k c) (hk c)
  where
    go : (q : Run) → RunAnswers q → RunAnswers (after r q)
    go (ok (d, s)) w = All-append IsSilent r.responses s.responses h w
    go (err e) w = tt

feed-RunAnswers : (c : Codec) (chunk : List ℕ) → RunAnswers (feed c chunk)
feed-RunAnswers c [] = unfold feed in tt
feed-RunAnswers c (x ∷ chunk) = rw feed-cons (
    then_feed-RunAnswers (receive c x) (λ d. feed d chunk)
      (unfold receive in dispatch-RunAnswers c.state c x) (λ d. feed-RunAnswers d chunk))

All-get_elem? {ℓ} :
    {A : Type 0} (P : A → Type ℓ) (xs : List A) (i : ℕ) (x : A)
    → All P xs
    → get_elem? xs i ≡ some x
    → P x
All-get_elem? P [] i x h e = cc
All-get_elem? P (y ∷ xs) zero x h e = subst P (cc) h.0
All-get_elem? P (y ∷ xs) (suc i) x h e = All-get_elem? P xs i x h.1 e

-- Whatever a peer sends, each response of the codec is Telnet control traffic and nothing else: any
-- valid codec that is between commands reads it without a fault and without an application byte, and
-- is between commands again.
pub responses_silent :
    (c c' : Codec) (chunk : List ℕ) (r : TelnetResult) (i : ℕ) (m : List ℕ) (peer : Codec)
    → feed c chunk ≡ ok (c', r)
    → get_elem? r.responses i ≡ some m
    → IsValid peer
    → peer.state ≡ in_data
    → (peer' : Codec) × (s : TelnetResult) × (feed peer m ≡ ok (peer', s))
      × (s.bytes ≡ [])
      × (peer'.state ≡ in_data)
responses_silent c c' chunk r i m peer e g v h =
    All-get_elem? IsSilent r.responses i m (subst RunAnswers e (feed-RunAnswers c chunk)) g peer v h
