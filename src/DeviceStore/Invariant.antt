-- ===== src/DeviceStore/Invariant.antt =====
-- DeviceStore of src/tfr/gateway_devices.py: its records are valid, whatever is called.
use tfr.Base.{
  ℕ, ◌+◌, ◌≡◌, refl, true, ◌||◌, not, Option, none, some, List, [], ◌∷◌, leb, ltb, arith, Result,
  ok, err, Bool-cases, inl, inr, text_eq, All, length, strip,
}
use tfr.Dict.{lookup, insert, remove, select}
use tfr.Dict.Laws.{remove-All, insert-All, select-All, lookup-All}
use tfr.Device.{
  Runtime, Documented, DeviceRecord, is_label, is_digest, is_login, are_worlds, all_named,
}
use tfr.Device.Codec.{IsValid}
use tfr.DeviceStore.{
  DeviceStore, PairingChallenge, RedeemedPairing, Surroundings, Error, unique, clear_redemption,
  create_pairing_url, enrolled, enrol, use_challenge, take_challenge, redeem_known, redeem,
  pairing_ttl, is_ascii,
}
use tfr.DeviceStore.Worlds.{are_worlds-unique}

-- What is left by a call that may raise.
abbrev pub after : {A : Type 0} → DeviceStore → Result Error (DeviceStore × A) → DeviceStore
after s (ok (t, a)) = t
after s (err e) = s

module _ (r : Runtime) (doc : Documented r) where
  -- A device is kept by its token's digest.
  abbrev pub DeviceHolds : List ℕ × DeviceRecord → Type 0
  DeviceHolds (k, d) = (k ≡ d.token_digest) × IsValid r d

  abbrev pub ChallengeHolds : List ℕ × PairingChallenge → Type 0
  ChallengeHolds (k, c) = (is_label r c.label ≡ true) × (are_worlds r c.allowed_worlds ≡ true)

  pub record IsSound (s : DeviceStore) : Type 0 where
    pub devices_hold : All DeviceHolds s.devices
    pub pairings_hold : All ChallengeHolds s.pairings

  pub create_pairing_url-IsSound :
      (s : DeviceStore) (label : List ℕ) (worlds : List (List ℕ)) (now : ℕ) (code : List ℕ)
      → IsSound s
      → IsSound (after s (create_pairing_url r s label worlds now code))
  unfolding create_pairing_url
  create_pairing_url-IsSound s label [] now code h =
      elim (Bool-cases (is_label r (strip r.is_space label))) [ inr l ↦ rw l h | inl l ↦ rw l h ]
  create_pairing_url-IsSound s label (w ∷ ws) now code h =
      elim (Bool-cases (is_label r (strip r.is_space label))) [
        | inr l ↦ rw l h
        | inl l ↦ elim (Bool-cases (all_named (w ∷ ws))) [
          | inr n ↦ rw (l, n) h
          | inl n ↦
              let live =
                select (λ (k : List ℕ) (c : PairingChallenge). ltb now c.expires_at) s.pairings in
              let c : PairingChallenge = record {
                label = strip r.is_space label;
                expires_at = now + pairing_ttl;
                allowed_worlds = unique (w ∷ ws);
              } in
              rw (l, n)
                (record {
                  devices_hold = h.devices_hold;
                  pairings_hold =
                      insert-All ChallengeHolds (r.sha256 code) c live
                        (l, are_worlds-unique r w ws n)
                        (select-All ChallengeHolds (λ k x. ltb now x.expires_at) s.pairings
                          h.pairings_hold);
                })
        ]
      ]

  enrolled-IsValid :
      (k login : List ℕ) (c : PairingChallenge) (e : Surroundings)
      → ChallengeHolds (k, c)
      → is_login r login ≡ true
      → IsValid r (enrolled r c login e)
  unfolding is_digest
  enrolled-IsValid k login c e h l =
      let shape = doc.digest_hex e.token in
      record {
        labelled = h.0;
        digest = ground arith;
        login = l;
        worlds = h.1;
        chat = refl;
        used_after = omega arith;
        used_before = omega arith;
      }

  enrol-IsSound :
      (s : DeviceStore) (code_digest : List ℕ) (c : PairingChallenge) (login : List ℕ)
      (e : Surroundings)
      → IsSound s
      → ChallengeHolds (code_digest, c)
      → is_login r login ≡ true
      → IsSound (enrol r s code_digest c login e).0
  unfolding enrol
  enrol-IsSound s code_digest c login e h known l =
      let d = enrolled r c login e in
      let holds : DeviceHolds (d.token_digest, d) =
        (refl, enrolled-IsValid code_digest login c e known l) in
      let added = insert-All DeviceHolds d.token_digest d s.devices holds h.devices_hold in
      elim (Bool-cases e.saved) [
        | inl b ↦ rw b (record { devices_hold = added; pairings_hold = h.pairings_hold })
        | inr b ↦ rw b (record {
          devices_hold =
              remove-All DeviceHolds d.token_digest (insert d.token_digest d s.devices) added;
          pairings_hold = insert-All ChallengeHolds code_digest c s.pairings known h.pairings_hold;
        })
      ]

  use_challenge-IsSound :
      (s : DeviceStore) (code_digest : List ℕ) (o : Option PairingChallenge) (login : List ℕ)
      (e : Surroundings)
      → IsSound s
      → ((c : PairingChallenge) → o ≡ some c → ChallengeHolds (code_digest, c))
      → is_login r login ≡ true
      → IsSound (use_challenge r s code_digest o login e).0
  unfolding use_challenge
  use_challenge-IsSound s code_digest none login e h known l = h
  use_challenge-IsSound s code_digest (some c) login e h known l =
      elim (Bool-cases (leb c.expires_at e.now)) [
        | inl b ↦ rw b h
        | inr b ↦ rw b (enrol-IsSound s code_digest c login e h (known c refl) l)
      ]

  take_challenge-IsSound :
      (s : DeviceStore) (code_digest login : List ℕ) (e : Surroundings)
      → IsSound s
      → is_login r login ≡ true
      → IsSound (take_challenge r s code_digest login e).0
  unfolding take_challenge
  take_challenge-IsSound s code_digest login e h l =
      use_challenge-IsSound (record s { pairings = remove code_digest s.pairings }) code_digest
        (lookup code_digest s.pairings) login e
        (record {
          devices_hold = h.devices_hold;
          pairings_hold = remove-All ChallengeHolds code_digest s.pairings h.pairings_hold;
        })
        (λ c found. lookup-All ChallengeHolds code_digest s.pairings c h.pairings_hold found) l

  redeem_known-IsSound :
      (s : DeviceStore) (code_digest : List ℕ) (o : Option RedeemedPairing) (login : List ℕ)
      (e : Surroundings)
      → IsSound s
      → is_login r login ≡ true
      → IsSound (redeem_known r s code_digest o login e).0
  unfolding redeem_known clear_redemption
  redeem_known-IsSound s code_digest none login e h l =
      take_challenge-IsSound s code_digest login e h l
  redeem_known-IsSound s code_digest (some red) login e h l =
      elim (Bool-cases (leb red.expires_at e.now)) [
        | inl b ↦ rw b (
            take_challenge-IsSound (clear_redemption code_digest s) code_digest login e
              (record { devices_hold = h.devices_hold; pairings_hold = h.pairings_hold }) l)
        | inr b ↦ elim (Bool-cases (text_eq red.tailscale_login login)) [
          | inl t ↦ rw (b, t) h
          | inr t ↦ rw (b, t) h
        ]
      ]

  pub redeem-IsSound :
      (s : DeviceStore) (code login : List ℕ) (e : Surroundings)
      → IsSound s
      → IsSound (redeem r s code login e).0
  unfolding redeem
  redeem-IsSound s code login e h =
      elim (Bool-cases (ltb 128 (length code) || not (is_ascii code))) [
        | inl b ↦ rw b h
        | inr b ↦ elim (Bool-cases (is_login r login)) [
          | inr l ↦ rw (b, l) h
          | inl l ↦
              rw (b, l)
                (redeem_known-IsSound s (r.sha256 code) (lookup (r.sha256 code) s.redeemed_pairings)
                  login e h l)
        ]
      ]
