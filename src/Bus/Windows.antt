-- ===== src/Bus/Windows.antt =====
-- EventBus.publish of src/tfr/core.py: what one subscriber keeps of the events that it is given.
use tfr.Base.{
  ℕ, zero, suc, ◌+◌, ◌-◌, ◌≡◌, ◌≤◌, ◌<◌, refl, sym, ap, ◌∙◌, Bool, true, false, none, some, List,
  [], ◌∷◌, ◌++◌, ◌==◌, if◌then◌else◌, arith, Bool-cases, inl, inr, length, drop, length-append,
  length-drop, drop-append_left, drop_eq,
}
use mathlib.Core.Path.{subst}
use tfr.Bus.{Queue, Subscriber, is_full, put, forget, deliver}

module _ {ℓ} {A : Type ℓ} where
  drop-nil : (n : ℕ) → drop {A = A} n [] ≡ []
  drop-nil zero = refl
  drop-nil (suc n) = refl

  drop-drop : (j k : ℕ) (xs : List A) → drop j (drop k xs) ≡ drop (k + j) xs
  drop-drop j zero xs = drop_eq j (0 + j) xs (omega arith)
  drop-drop j (suc k) [] = drop-nil j ∙ sym (drop-nil (suc k + j))
  drop-drop j (suc k) (x ∷ xs) =
      drop-drop j k xs ∙ drop_eq (suc (k + j)) (suc k + j) (x ∷ xs) (omega arith)

  -- The last items, at most a number of them.
  abbrev pub newest : ℕ → List A → List A
  newest m xs = drop (length xs - m) xs

  newest-newest : (m : ℕ) (xs ys : List A) → newest m (newest m xs ++ ys) ≡ newest m (xs ++ ys)
  newest-newest m xs ys =
      let k = length xs - m in
      let joined : drop k (xs ++ ys) ≡ drop k xs ++ ys = drop-append_left xs ys k (omega arith) in
      let j = length (drop k xs ++ ys) - m in
      ap (drop j) (sym joined)
      ∙ drop-drop j k (xs ++ ys)
      ∙ drop_eq (k + j) (length (xs ++ ys) - m) (xs ++ ys)
          (omega (arith, length-append (drop k xs) ys, length-drop k xs, length-append xs ys))

module _ {E : Type 0} where
  -- What the queue of a subscriber keeps of a list of events: all, or with a bound and without
  -- back-pressure the newest ones.
  abbrev pub window : Subscriber E → List E → List E
  window s es =
      if s.backpressure then es else if s.queue.maxsize == 0 then es else newest s.queue.maxsize es

  pub record Fits (s : Subscriber E) : Type 0 where
    pub bounded : 0 < s.queue.maxsize → length s.queue.items ≤ s.queue.maxsize

  -- A subscriber behind an earlier state of it, with what it then holds.
  pub record Follows (s t : Subscriber E) (items : List E) : Type 0 where
    pub same_pressure : t.backpressure ≡ s.backpressure
    pub same_bound : t.queue.maxsize ≡ s.queue.maxsize
    pub holds : t.queue.items ≡ window s items
    pub fits : Fits t

  pub full_off : (q : Queue E) → is_full q ≡ false → 0 < q.maxsize → length q.items < q.maxsize
  unfolding is_full
  full_off q h p = ground arith

  full_on : (q : Queue E) → is_full q ≡ true → (0 < q.maxsize) × (q.maxsize ≤ length q.items)
  unfolding is_full
  full_on q h = (ground arith, ground arith)

  pub window-room :
      (s : Subscriber E) (xs : List E)
      → (0 < s.queue.maxsize → length xs ≤ s.queue.maxsize)
      → xs ≡ window s xs
  window-room s xs h = elim (Bool-cases s.backpressure) [
    | inl b ↦ rw b refl
    | inr b ↦ elim (Bool-cases (s.queue.maxsize == 0)) [
      | inl z ↦ rw (b, z) refl
      | inr z ↦
          rw (b, z) (drop_eq 0 (length xs - s.queue.maxsize) xs (omega (arith, h (ground arith))))
    ]
  ]

  put-Follows :
      (e : E) (s : Subscriber E)
      → is_full s.queue ≡ false
      → Fits s
      → Follows s (record s { queue = put e s.queue }) (s.queue.items ++ e ∷ [])
  put-Follows e s h f =
      let room : 0 < s.queue.maxsize → length (s.queue.items ++ e ∷ []) ≤ s.queue.maxsize =
        λ p. omega (arith, length-append s.queue.items (e ∷ []), full_off s.queue h p) in
      record {
        same_pressure = refl;
        same_bound = refl;
        holds = window-room s (s.queue.items ++ e ∷ []) room;
        fits = record { bounded = room };
      }

  shift-Follows :
      (e : E) (s : Subscriber E)
      → s.backpressure ≡ false
      → is_full s.queue ≡ true
      → Fits s
      → Follows s (record s { queue = put e (forget s.queue) }) (s.queue.items ++ e ∷ [])
  shift-Follows e s b h f =
      let (some_bound, many) = full_on s.queue h in
      let exact : length s.queue.items ≡ s.queue.maxsize = omega (arith, f.bounded some_bound) in
      let bound : (s.queue.maxsize == 0) ≡ false = ground arith in
      record {
        same_pressure = refl;
        same_bound = refl;
        holds =
            rw (b, bound)
              (sym (drop-append_left s.queue.items (e ∷ []) 1 (omega arith))
                ∙ drop_eq 1 (length (s.queue.items ++ e ∷ []) - s.queue.maxsize)
                    (s.queue.items ++ e ∷ [])
                    (omega (arith, exact, length-append s.queue.items (e ∷ []))));
        fits = record {
          bounded = λ p.
              omega
                (arith, length-append (drop 1 s.queue.items) (e ∷ []), length-drop 1 s.queue.items);
        };
      }

  some-Follows :
      (s t u : Subscriber E) (xs : List E) → some t ≡ some u → Follows s t xs → Follows s u xs
  some-Follows s t u xs h a = let same : t ≡ u = cc in subst (λ x. Follows s x xs) same a

  choice-Follows :
      (e : E) (s t : Subscriber E) (pressure full : Bool)
      → Fits s
      → s.backpressure ≡ pressure
      → is_full s.queue ≡ full
      → (if pressure
          then (if full then none else some (record s { queue = put e s.queue }))
          else if full
          then some (record s { queue = put e (forget s.queue) })
          else some (record s { queue = put e s.queue }))
        ≡ some t
      → Follows s t (s.queue.items ++ e ∷ [])
  choice-Follows e s t true true f b q h = cc
  choice-Follows e s t true false f b q h = some-Follows s _ t _ h (put-Follows e s q f)
  choice-Follows e s t false true f b q h = some-Follows s _ t _ h (shift-Follows e s b q f)
  choice-Follows e s t false false f b q h = some-Follows s _ t _ h (put-Follows e s q f)

  pub deliver-Follows :
      (e : E) (s t : Subscriber E)
      → Fits s
      → deliver e s ≡ some t
      → Follows s t (s.queue.items ++ e ∷ [])
  unfolding deliver
  deliver-Follows e s t f = choice-Follows e s t s.backpressure (is_full s.queue) f refl refl

  window-window :
      (s : Subscriber E) (xs ys : List E) → window s (window s xs ++ ys) ≡ window s (xs ++ ys)
  window-window s xs ys = elim (Bool-cases s.backpressure) [
    | inl b ↦ rw b refl
    | inr b ↦ elim (Bool-cases (s.queue.maxsize == 0)) [
      | inl z ↦ rw (b, z) refl
      | inr z ↦ rw (b, z) (newest-newest s.queue.maxsize xs ys)
    ]
  ]

  pub Follows-trans :
      (s t u : Subscriber E) (xs ys : List E)
      → Follows s t xs
      → Follows t u (t.queue.items ++ ys)
      → Follows s u (xs ++ ys)
  Follows-trans s t u xs ys a b = record {
    same_pressure = b.same_pressure ∙ a.same_pressure;
    same_bound = b.same_bound ∙ a.same_bound;
    holds = b.holds ∙ rw (a.same_pressure, a.same_bound, a.holds) (window-window s xs ys);
    fits = b.fits;
  }
