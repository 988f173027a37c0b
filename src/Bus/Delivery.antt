-- ===== src/Bus/Delivery.antt =====
-- EventBus.publish of src/tfr/core.py: what a subscriber finds in its queue.
use tfr.Base.{
  ◌≡◌, refl, sym, ap, ◌∙◌, Option, none, some, List, [], ◌∷◌, ◌++◌, map, append_assoc, append-nil,
  Result, ok, err, Bool-cases, inl, inr, All, ◌>>=◌,
}
use mathlib.Core.Path.{subst}
use tfr.Bus.{
  Subscriber, EventBus, Error, deliver, deliver_all, cons_option, process, publish, published,
}
use tfr.Bus.Windows.{window, window-room, Fits, Follows, deliver-Follows, Follows-trans}

module _ {E : Type 0} where
  -- Each subscriber of the second list follows the one at its place in the first, with the events
  -- behind what that one had.
  abbrev pub AllFollow : List E → List (Subscriber E) → List (Subscriber E) → Type 0
  AllFollow es [] [] = Unit
  AllFollow es [] (t ∷ ts) = ⊥
  AllFollow es (s ∷ ss) [] = ⊥
  AllFollow es (s ∷ ss) (t ∷ ts) = Follows s t (s.queue.items ++ es) × AllFollow es ss ts

  deliver_all-Follow :
      (e : E) (ss ts : List (Subscriber E))
      → All Fits ss
      → deliver_all e ss ≡ some ts
      → AllFollow (e ∷ []) ss ts
  unfolding deliver_all
  deliver_all-Follow e [] [] f h = tt
  deliver_all-Follow e [] (t ∷ ts) f h = cc
  deliver_all-Follow e (s ∷ ss) ts f h =
      joined (deliver e s) (deliver_all e ss) ts (λ t. deliver-Follows e s t f.0)
        (λ us. deliver_all-Follow e ss us f.1) h
    where
      joined :
          (o : Option (Subscriber E)) (os : Option (List (Subscriber E))) (us : List (Subscriber E))
          → ((t : Subscriber E) → o ≡ some t → Follows s t (s.queue.items ++ e ∷ []))
          → ((vs : List (Subscriber E)) → os ≡ some vs → AllFollow (e ∷ []) ss vs)
          → cons_option o os ≡ some us
          → AllFollow (e ∷ []) (s ∷ ss) us
      joined none os us a b h = cc
      joined (some t) none us a b h = cc
      joined (some t) (some vs) us a b h =
          let same : t ∷ vs ≡ us = cc in
          subst (AllFollow (e ∷ []) (s ∷ ss)) same (a t refl, b vs refl)

  AllFollow-trans :
      (xs ys : List E) (ss ts us : List (Subscriber E))
      → AllFollow xs ss ts
      → AllFollow ys ts us
      → AllFollow (xs ++ ys) ss us
  AllFollow-trans xs ys [] [] [] a b = tt
  AllFollow-trans xs ys [] [] (u ∷ us) a b = b
  AllFollow-trans xs ys [] (t ∷ ts) us a b = absurd a
  AllFollow-trans xs ys (s ∷ ss) [] us a b = absurd a
  AllFollow-trans xs ys (s ∷ ss) (t ∷ ts) [] a b = b
  AllFollow-trans xs ys (s ∷ ss) (t ∷ ts) (u ∷ us) a b = (
    subst (Follows s u) (append_assoc s.queue.items xs ys)
        (Follows-trans s t u (s.queue.items ++ xs) ys a.0 b.0),
    AllFollow-trans xs ys ss ts us a.1 b.1,
  )

  AllFollow-Fits : (xs : List E) (ss ts : List (Subscriber E)) → AllFollow xs ss ts → All Fits ts
  AllFollow-Fits xs [] [] a = tt
  AllFollow-Fits xs [] (t ∷ ts) a = absurd a
  AllFollow-Fits xs (s ∷ ss) [] a = tt
  AllFollow-Fits xs (s ∷ ss) (t ∷ ts) a = (a.0.fits, AllFollow-Fits xs ss ts a.1)

  AllFollow-nil : (ss : List (Subscriber E)) → All Fits ss → AllFollow [] ss ss
  AllFollow-nil [] f = tt
  AllFollow-nil (s ∷ ss) f = (
    record {
      same_pressure = refl;
      same_bound = refl;
      holds =
          window-room s s.queue.items f.0.bounded ∙ ap (window s) (sym (append-nil s.queue.items));
      fits = f.0;
    },
    AllFollow-nil ss f.1,
  )

module _ {E S : Type 0} (write : S → E → S) where
  -- A list of events, published in turn.
  abbrev pub publish_all : List E → EventBus E S → Result Error (EventBus E S)
  publish_all [] b = ok b
  publish_all (e ∷ es) b = publish write e b >>= publish_all es

  -- What a bus that comes out of these events has, if one does.
  Delivers : List E → EventBus E S → Result Error (EventBus E S) → Type 0
  Delivers es b (err e) = Unit
  Delivers es b (ok c) =
      (c.processors ≡ b.processors)
      × AllFollow (map (process b.processors) es) b.subscribers c.subscribers

  published-Delivers :
      (e : E) (b : EventBus E S) (o : Option (List (Subscriber E)))
      → ((ts : List (Subscriber E))
          → o ≡ some ts
          → AllFollow (process b.processors e ∷ []) b.subscribers ts)
      → Delivers (e ∷ []) b (published write (process b.processors e) b o)
  unfolding published Delivers
  published-Delivers e b none h = tt
  published-Delivers e b (some ts) h = (refl, h ts refl)

  publish-Delivers :
      (e : E) (b : EventBus E S) → All Fits b.subscribers → Delivers (e ∷ []) b (publish write e b)
  unfolding publish Delivers
  publish-Delivers e b f = elim (Bool-cases b.closed) [
    | inl c ↦ simp c tt
    | inr c ↦ simp c (
        published-Delivers e b (deliver_all (process b.processors e) b.subscribers)
          (λ ts. deliver_all-Follow (process b.processors e) b.subscribers ts f))
  ]

  then-Delivers :
      (e : E) (es : List E) (b : EventBus E S) (o : Result Error (EventBus E S))
      → Delivers (e ∷ []) b o
      → ((c : EventBus E S) → All Fits c.subscribers → Delivers es c (publish_all es c))
      → Delivers (e ∷ es) b (o >>= publish_all es)
  unfolding Delivers
  then-Delivers e es b (err x) d h = tt
  then-Delivers e es b (ok c) d h =
      rest (publish_all es c)
        (h c (AllFollow-Fits (process b.processors e ∷ []) b.subscribers c.subscribers d.1))
    where
      rest : (o : Result Error (EventBus E S)) → Delivers es c o → Delivers (e ∷ es) b o
      rest (err x) k = tt
      rest (ok z) k = (
        k.0 ∙ d.0,
        AllFollow-trans (process b.processors e ∷ []) (map (process b.processors) es) b.subscribers
            c.subscribers z.subscribers d.1
            (subst (λ p. AllFollow (map (process p) es) c.subscribers z.subscribers) d.0 k.1),
      )

  publish_all-Delivers :
      (es : List E) (b : EventBus E S) → All Fits b.subscribers → Delivers es b (publish_all es b)
  unfolding Delivers
  publish_all-Delivers [] b f = (refl, AllFollow-nil b.subscribers f)
  publish_all-Delivers (e ∷ es) b f =
      then-Delivers e es b (publish write e b) (publish-Delivers e b f)
        (λ c g. publish_all-Delivers es c g)

  -- Events that are published without an error or a wait reach each subscriber in order, as the
  -- processors made them: behind what its queue had, a queue without a bound or with back-pressure has
  -- all of them, and any other the newest that fit in its bound.
  pub publish_all-AllFollow :
      (es : List E) (b c : EventBus E S)
      → All Fits b.subscribers
      → publish_all es b ≡ ok c
      → AllFollow (map (process b.processors) es) b.subscribers c.subscribers
  unfolding Delivers
  publish_all-AllFollow es b c f h = (subst (Delivers es b) h (publish_all-Delivers es b f)).1
