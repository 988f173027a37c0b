-- ===== src/Session/Senders.antt =====
-- _remember_nospoof_sender of src/tfr/sessions.py: the senders that a connection has named.
use tfr.Base.{
  ℕ, ◌-◌, ◌≡◌, ◌≤◌, refl, ◌∙◌, Bool, false, ◌||◌, List, [], ◌∷◌, ◌++◌, arith, length, drop,
  length-drop, zero, suc, text_eq, Bool-cases, inl, inr,
}
use tfr.Dict.Laws.{text_eq_sym}
use tfr.Session.{
  Runtime, WorldSession, hand_over, remember_nospoof_sender, retained, newest, max_nospoof_senders,
}
use tfr.Session.Running.{Attempt, start}
use tfr.Session.Stable.{IsStable}
use tfr.Session.Invariants.{start-keeps}

module _ (r : Runtime) where
  -- Some name of the list is the same without regard to case.
  abbrev pub is_known : List ℕ → List (List ℕ) → Bool
  is_known normalized [] = false
  is_known normalized (x ∷ xs) =
      text_eq (r.alphabet.casefold x) normalized || is_known normalized xs

  abbrev pub AreDistinct : List (List ℕ) → Type 0
  AreDistinct [] = Unit
  AreDistinct (x ∷ xs) = (is_known (r.alphabet.casefold x) xs ≡ false) × AreDistinct xs

  pub record HasSenders (s : WorldSession) : Type 0 where
    pub few : length s.nospoof_senders ≤ max_nospoof_senders
    pub distinct : AreDistinct s.nospoof_senders

  is_known-retained : (n : List ℕ) (xs : List (List ℕ)) → is_known n (retained r n xs) ≡ false
  unfolding retained
  is_known-retained n [] = refl
  is_known-retained n (x ∷ xs) = elim (Bool-cases (text_eq (r.alphabet.casefold x) n)) [
    | inl e ↦ rw e (is_known-retained n xs)
    | inr e ↦ rw (e, e) (is_known-retained n xs)
  ]

  still_unknown :
      (k n : List ℕ) (xs : List (List ℕ))
      → is_known k xs ≡ false
      → is_known k (retained r n xs) ≡ false
  unfolding retained
  still_unknown k n [] h = refl
  still_unknown k n (x ∷ xs) h =
      let rest : is_known k (retained r n xs) ≡ false = still_unknown k n xs (ground arith) in
      ground (arith, rest)

  retained-AreDistinct :
      (n : List ℕ) (xs : List (List ℕ)) → AreDistinct xs → AreDistinct (retained r n xs)
  unfolding retained
  retained-AreDistinct n [] h = tt
  retained-AreDistinct n (x ∷ xs) h = elim (Bool-cases (text_eq (r.alphabet.casefold x) n)) [
    | inl e ↦ rw e (retained-AreDistinct n xs h.1)
    | inr e ↦ rw e (still_unknown (r.alphabet.casefold x) n xs h.0, retained-AreDistinct n xs h.1)
  ]

  is_known-append :
      (k x : List ℕ) (xs : List (List ℕ))
      → is_known k xs ≡ false
      → text_eq (r.alphabet.casefold x) k ≡ false
      → is_known k (xs ++ x ∷ []) ≡ false
  is_known-append k x [] h e = rw e refl
  is_known-append k x (y ∷ ys) h e = ground (arith, is_known-append k x ys)

  AreDistinct-append :
      (x : List ℕ) (xs : List (List ℕ))
      → AreDistinct xs
      → is_known (r.alphabet.casefold x) xs ≡ false
      → AreDistinct (xs ++ x ∷ [])
  AreDistinct-append x [] h k = (refl, tt)
  AreDistinct-append x (y ∷ ys) h k = (
    is_known-append (r.alphabet.casefold y) x ys h.0
        (text_eq_sym (r.alphabet.casefold x) (r.alphabet.casefold y) ∙ ground arith),
    AreDistinct-append x ys h.1 (ground arith),
  )

  drop-AreDistinct : (n : ℕ) (xs : List (List ℕ)) → AreDistinct xs → AreDistinct (drop n xs)
  drop-AreDistinct zero xs h = h
  drop-AreDistinct (suc n) [] h = h
  drop-AreDistinct (suc n) (x ∷ xs) h = drop-AreDistinct n xs h.1

  remember-HasSenders :
      (s : WorldSession) (sender : List ℕ)
      → HasSenders s
      → HasSenders (remember_nospoof_sender r sender s)
  unfolding remember_nospoof_sender newest
  remember-HasSenders s sender v =
      let n : List ℕ = r.alphabet.casefold sender in
      let kept : List (List ℕ) = retained r n s.nospoof_senders ++ sender ∷ [] in
      record {
        few = omega (arith, length-drop (length kept - max_nospoof_senders) kept);
        distinct = drop-AreDistinct (length kept - max_nospoof_senders) kept (
            AreDistinct-append sender (retained r n s.nospoof_senders)
              (retained-AreDistinct n s.nospoof_senders v.distinct)
              (is_known-retained n s.nospoof_senders));
      }

  copy : (s t : WorldSession) → t.nospoof_senders ≡ s.nospoof_senders → HasSenders s → HasSenders t
  copy s t e v = record { few = rw e v.few; distinct = rw e v.distinct }

  HasSenders-IsStable : IsStable r HasSenders
  unfolding hand_over
  HasSenders-IsStable = record {
    on_state = λ s x v. copy s _ refl v;
    on_generation = λ s x v. copy s _ refl v;
    on_connected = λ s x v. copy s _ refl v;
    on_activity = λ s x v. copy s _ refl v;
    on_quit = λ s x v. copy s _ refl v;
    on_expect = λ s x v. copy s _ refl v;
    on_written = λ s x v. copy s _ refl v;
    on_forget = λ s v. record { few = omega arith; distinct = tt };
    on_remember = remember-HasSenders;
    on_event = λ s e v p q w. copy s _ refl v;
  }

  -- Whatever happens to a session, it knows at most 256 senders, no two of which are the same without
  -- regard to case, if this was so before.
  pub start-HasSenders :
      (attempts : List (Attempt r)) (s : WorldSession)
      → HasSenders s
      → HasSenders (start r attempts s).0
  start-HasSenders attempts s v = start-keeps r HasSenders-IsStable attempts s v
