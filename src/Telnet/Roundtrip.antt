-- ===== src/Telnet/Roundtrip.antt =====
-- Sent frames read back: escape_iac and _subnegotiation against feed, src/tfr/telnet.py.
use mathlib.Core.Path.{subst}
use tfr.Base.{
  ℕ, ◌+◌, ◌*◌, ◌/◌, ◌%◌, ◌≤◌, ◌≡◌, refl, sym, ◌∙◌, List, [], ◌∷◌, ◌++◌, append_assoc, append-nil,
  arith, ◌==◌, ==_iff, Bool-cases, inl, inr, some, none, ok, false,
}
use tfr.Telnet.{
  Codec, TelnetResult, in_data, in_iac, in_subnegotiation_option, in_subnegotiation,
  in_subnegotiation_iac, subnegotiation, feed, receive, escape_iac, subnegotiation_message,
  handle_subnegotiation, no_result, event, to_list, window_size_message,
}
use tfr.Telnet.Code.{iac, sb, se, naws}
use tfr.Telnet.Chunks.{feed-cons, after, after-no_result}

-- The codec with its state machine between commands.
abbrev pub between : Codec → Codec
between c = record c { state = in_data }

pub between_self : (c : Codec) → c.state ≡ in_data → between c ≡ c
between_self c h = λ i. record c { state = sym h i }

abbrev pub just : List ℕ → TelnetResult
just bs = record no_result { bytes = bs }

-- A byte whose step is known.
pub feed_step :
    (c : Codec) (x : ℕ) (xs : List ℕ) (c' : Codec) (r : TelnetResult)
    → receive c x ≡ ok (c', r)
    → feed c (x ∷ xs) ≡ after r (feed c' xs)
feed_step c x xs c' r p = rw (feed-cons, p)

pub feed_quiet :
    (c : Codec) (x : ℕ) (xs : List ℕ) (c' : Codec)
    → receive c x ≡ ok (c', no_result)
    → feed c (x ∷ xs) ≡ feed c' xs
feed_quiet c x xs c' p = feed_step c x xs c' no_result p ∙ after-no_result (feed c' xs)

escape_cons :
    (b : ℕ) (bs rest : List ℕ)
    → (P : List ℕ → Type 0) → (b ≡ iac → P (iac ∷ iac ∷ escape_iac bs ++ rest))
    → (b == iac ≡ false → P (b ∷ escape_iac bs ++ rest))
    → P (escape_iac (b ∷ bs) ++ rest)
unfolding escape_iac
escape_cons b bs rest P f g = elim (Bool-cases (b == iac)) [
  | inl e ↦ rw e (f ((==_iff b iac).0 e))
  | inr e ↦ rw e (g e)
]

feed_plain :
    (c : Codec) (b : ℕ) (bs : List ℕ)
    → b == iac ≡ false
    → feed (between c) (b ∷ bs) ≡ after (just (b ∷ [])) (feed (between c) bs)
unfolding receive
feed_plain c b bs e = feed_step (between c) b bs (between c) (just (b ∷ [])) (rw e)

feed_quoted :
    (c : Codec) (bs : List ℕ)
    → feed (between c) (iac ∷ iac ∷ bs) ≡ after (just (iac ∷ [])) (feed (between c) bs)
unfolding receive
feed_quoted c bs =
    feed_quiet (between c) iac (iac ∷ bs) (record c { state = in_iac }) refl
    ∙ feed_step (record c { state = in_iac }) iac bs (between c) (just (iac ∷ [])) refl

feed_escaped :
    (c : Codec) (bs : List ℕ) → feed (between c) (escape_iac bs ++ []) ≡ ok (between c, just bs)
feed_escaped c [] = unfold feed escape_iac in refl
feed_escaped c (b ∷ bs) =
    escape_cons b bs [] (λ l. feed (between c) l ≡ ok (between c, just (b ∷ bs)))
      (λ e. rw (feed_quoted, feed_escaped c bs, e))
      (λ e. rw (feed_plain c b _ e, feed_escaped c bs))

-- Escaped bytes, fed to a codec between commands, come out as they were, with no response and no
-- event, and leave the codec as it was.
pub feed-escape_iac :
    (c : Codec) (bs : List ℕ) → c.state ≡ in_data → feed c (escape_iac bs) ≡ ok (c, just bs)
feed-escape_iac c bs h =
    subst (λ d. feed d (escape_iac bs) ≡ ok (d, just bs)) (between_self c h)
      (rw append-nil at (feed_escaped c bs))

-- Inside a subnegotiation of an option, with the payload so far.
abbrev collecting : Codec → ℕ → List ℕ → Codec
collecting c option payload = record c {
  subnegotiation_option = some option;
  subnegotiation_data = payload;
  state = in_subnegotiation;
}

collect_plain :
    (c : Codec) (option b : ℕ) (acc rest : List ℕ)
    → b == iac ≡ false
    → feed (collecting c option acc) (b ∷ rest) ≡ feed (collecting c option (acc ++ b ∷ [])) rest
unfolding receive
collect_plain c option b acc rest e =
    feed_quiet (collecting c option acc) b rest (collecting c option (acc ++ b ∷ [])) (rw e)

collect_quoted :
    (c : Codec) (option : ℕ) (acc rest : List ℕ)
    → feed (collecting c option acc) (iac ∷ iac ∷ rest)
      ≡ feed (collecting c option (acc ++ iac ∷ [])) rest
unfolding receive
collect_quoted c option acc rest =
    feed_quiet (collecting c option acc) iac (iac ∷ rest)
      (record (collecting c option acc) { state = in_subnegotiation_iac }) refl
    ∙ feed_quiet (record (collecting c option acc) { state = in_subnegotiation_iac }) iac rest
        (collecting c option (acc ++ iac ∷ [])) refl

collect_payload :
    (c : Codec) (option : ℕ) (acc payload rest : List ℕ)
    → feed (collecting c option acc) (escape_iac payload ++ rest)
      ≡ feed (collecting c option (acc ++ payload)) rest
collect_payload c option acc [] rest = unfold escape_iac in rw append-nil
collect_payload c option acc (b ∷ payload) rest =
    escape_cons b payload rest
      (λ l. feed (collecting c option acc) l ≡ feed (collecting c option (acc ++ b ∷ payload)) rest)
      (λ e.
        rw (
          collect_quoted,
          collect_payload c option (acc ++ iac ∷ []) payload rest,
          e,
          append_assoc,
        ))
      (λ e. rw (
        collect_plain c option b acc _ e,
        collect_payload c option (acc ++ b ∷ []) payload rest,
        append_assoc,
      ))

-- The codec after a whole subnegotiation, and what it yields.
abbrev pub finished : Codec → ℕ → List ℕ → Codec × TelnetResult
finished c option payload = (
  record c { subnegotiation_option = none; subnegotiation_data = []; state = in_data },
  record {
    bytes = [];
    responses = to_list (handle_subnegotiation c option payload);
    events = event subnegotiation sb (some option) payload ∷ [];
  },
)

feed_end :
    (c : Codec) (option : ℕ) (payload : List ℕ)
    → feed (collecting c option payload) (iac ∷ se ∷ []) ≡ ok (finished c option payload)
unfolding feed receive handle_subnegotiation
feed_end c option payload = ground arith

feed_subnegotiation :
    (c : Codec) (option : ℕ) (payload : List ℕ)
    → feed (between c) (subnegotiation_message option payload) ≡ ok (finished c option payload)
unfolding subnegotiation_message receive
feed_subnegotiation c option payload =
    feed_quiet (between c) iac _ (record c { state = in_iac }) refl
    ∙ feed_quiet (record c { state = in_iac }) sb _ (record c { state = in_subnegotiation_option })
        refl
    ∙ feed_quiet (record c { state = in_subnegotiation_option }) option _ (collecting c option [])
        refl
    ∙ collect_payload c option [] payload (iac ∷ se ∷ [])
    ∙ feed_end c option payload

-- A subnegotiation that the codec's own encoder wrote, for any option and payload, quoted bytes
-- included, is read back as one event with that option and payload; nothing of it reaches the
-- application, and the codec is between commands again.
pub feed-subnegotiation_message :
    (c : Codec) (option : ℕ) (payload : List ℕ)
    → c.state ≡ in_data
    → feed c (subnegotiation_message option payload) ≡ ok (finished c option payload)
feed-subnegotiation_message c option payload h =
    subst (λ d. feed d (subnegotiation_message option payload) ≡ ok (finished c option payload))
      (between_self c h) (feed_subnegotiation c option payload)

-- The big-endian number that two bytes stand for.
abbrev pub from_two_bytes : ℕ → ℕ → ℕ
from_two_bytes high low = high * 256 + low

-- A window of at most 65535 columns and rows is announced by a message which a peer between commands
-- reads as one NAWS subnegotiation of four bytes: the columns and the rows, big-endian, also where a
-- byte of them is IAC.
window_size_message-read :
    (c peer : Codec)
    → c.columns ≤ 65535
    → c.rows ≤ 65535
    → peer.state ≡ in_data
    → (message : List ℕ) × (a b d e : ℕ) × (window_size_message c ≡ ok message)
      × (feed peer message ≡ ok (finished peer naws (a ∷ b ∷ d ∷ e ∷ [])))
      × (from_two_bytes a b ≡ c.columns)
      × (from_two_bytes d e ≡ c.rows)
unfolding window_size_message
window_size_message-read c peer hc hr h = (
  subnegotiation_message naws
      (c.columns / 256 ∷ c.columns % 256 ∷ c.rows / 256 ∷ c.rows % 256 ∷ []),
  c.columns / 256,
  c.columns % 256,
  c.rows / 256,
  c.rows % 256,
  ground arith,
  feed-subnegotiation_message peer naws _ h,
  omega arith,
  omega arith,
)
