-- ===== src/Adapters/Prefixes.antt =====
-- The adapters of src/tfr/adapters.py on a line with a NOSPOOF prefix, over the projection of
-- src/tfr/ansi.py.
use tfr.Base.{
  ℕ, zero, suc, ◌+◌, ◌≡◌, ◌≤◌, ◌<◌, refl, ap, Bool, true, false, some, List, [], ◌∷◌, if◌then◌else◌,
  arith, ok, Bool-cases, inl, inr, length, drop, get_elem?, All, length-append,
}
use tfr.Ansi.{AnsiToken, plain, plain_of, boundaries, raw_boundaries, tokens}
use tfr.Ansi.Visible.{Single, tokens_from-Single, remove_visible_prefix-plain}
use tfr.Events.{Provenance}
use tfr.Spoofing.{Alphabet}
use tfr.Adapters.{
  Patterns, Prefix, ParsedInbound, Adapter, name, find_prefix, shown, or_no_prefix, prefixed,
  provenance_of, parsed, parsed_prefix, parse,
}

-- There is a boundary before each plain character, and one behind the last.
length-boundaries :
    (i : ℕ) (ts : List AnsiToken)
    → All Single ts
    → length (boundaries i ts) ≡ suc (length (plain_of ts))
unfolding boundaries Single
length-boundaries i [] s = refl
length-boundaries i (t ∷ ts) s = elim (Bool-cases t.control) [
  | inl e ↦ simp (e, length-boundaries (i + length t.text) ts s.1)
  | inr e ↦ simp e (
      omega (
        arith,
        length-boundaries (i + length t.text) ts s.1,
        length-append t.text (plain_of ts),
        s.0 e,
      ))
]

length-raw_boundaries : (text : List ℕ) → length (raw_boundaries text) ≡ suc (length (plain text))
unfolding raw_boundaries plain tokens
length-raw_boundaries text =
    length-boundaries 0 (tokens text) (tokens_from-Single (length text) text)

get_elem?-within : (xs : List ℕ) (i : ℕ) → i < length xs → (x : ℕ) × (get_elem? xs i ≡ some x)
get_elem?-within [] i h = absurd (omega arith)
get_elem?-within (x ∷ xs) zero h = (x, refl)
get_elem?-within (x ∷ xs) (suc i) h = get_elem?-within xs i (omega arith)

module _ (a : Alphabet) (p : Patterns) where
  shown-plain :
      (show_prefix : Bool) (text : List ℕ) (stop : ℕ)
      → stop ≤ length (plain text)
      → (display : List ℕ) × (shown show_prefix text stop ≡ ok display)
        × (plain display ≡ (if show_prefix then plain text else drop stop (plain text)))
  unfolding shown
  shown-plain true text stop h = (text, refl, refl)
  shown-plain false text stop h =
      let (raw, (done, rest)) = remove_visible_prefix-plain text stop h in
      (raw, ap or_no_prefix done, rest)

  -- What is told of a line with a prefix.
  pub record Tells (prefix : Prefix) (text : List ℕ) (show_prefix : Bool) (x : ParsedInbound)
      : Type 0 where
    pub canonical : x.canonical_text ≡ text
    pub message : x.message_text ≡ drop prefix.stop (plain text)
    pub display : plain x.display_text ≡ (if show_prefix then plain text else x.message_text)
    pub sender : (q : Provenance) × (x.provenance ≡ some q) × (q.sender_name ≡ prefix.sender)

  -- A line with a prefix that ends inside of its plain text is parsed without an error, by every
  -- adapter that looks for the prefix: the message is the plain text behind the prefix, the sender is
  -- the prefix's, and what is shown reads, without its controls, as the message, or as the whole line if
  -- prefixes are shown.
  pub parse-Tells :
      (adapter : Adapter) (text : List ℕ) (show_prefix : Bool) (prefix : Prefix)
      → find_prefix a p adapter (plain text) ≡ some prefix
      → prefix.stop ≤ length (plain text)
      → (x : ParsedInbound) × (parse a p adapter text show_prefix ≡ ok x)
        × Tells prefix text show_prefix x
  unfolding parse parsed parsed_prefix prefixed provenance_of
  parse-Tells adapter text show_prefix prefix f h =
      let (boundary, found) =
        get_elem?-within (raw_boundaries text) prefix.stop
          (omega (arith, length-raw_boundaries text)) in
      let (display, done, read) = shown-plain show_prefix text prefix.stop h in
      (
        prefixed a p (name adapter) text prefix boundary display,
        rw (f, found, done) refl,
        record {
          canonical = refl;
          message = refl;
          display = read;
          sender = (provenance_of (name adapter) prefix boundary, refl, refl);
        },
      )
