-- ===== src/DeviceStore/Rollback.antt =====
-- DeviceStore.redeem of src/tfr/gateway_devices.py where the state file cannot be written.
use tfr.Base.{
  ℕ, ◌<◌, ◌≡◌, refl, sym, ap, ◌∙◌, true, false, Option, none, some, List, leb, arith, err,
  Bool-cases, inl, inr, text_eq,
}
use tfr.Json.Lookup.{text_eq_sound}
use tfr.Dict.{lookup, insert, remove}
use tfr.Dict.Laws.{lookup-insert, lookup-remove}
use tfr.Device.{Runtime, DeviceRecord, is_login}
use tfr.DeviceStore.{
  DeviceStore, PairingChallenge, RedeemedPairing, Surroundings, clear_redemption, enrolled, enrol,
  use_challenge, take_challenge, redeem_known, redeem, save_failed,
}
use tfr.DeviceStore.Pairing.{is_code, redeem-take}

module _ (r : Runtime) where
  lookup-remove-insert :
      (key k : List ℕ) (d : DeviceRecord) (devices : List (List ℕ × DeviceRecord))
      → lookup key devices ≡ none
      → lookup k (remove key (insert key d devices)) ≡ lookup k devices
  lookup-remove-insert key k d devices h =
      lookup-remove key k (insert key d devices)
      ∙ rw (lookup-insert key k d devices) (elim (Bool-cases (text_eq key k)) [
        | inl e ↦ rw e (sym h ∙ ap (λ x. lookup x devices) (text_eq_sound key k e))
        | inr e ↦ rw e refl
      ])

  lookup-insert-remove :
      (key k : List ℕ) (c : PairingChallenge) (pairings : List (List ℕ × PairingChallenge))
      → lookup key pairings ≡ some c
      → lookup k (insert key c (remove key pairings)) ≡ lookup k pairings
  lookup-insert-remove key k c pairings h =
      lookup-insert key k c (remove key pairings)
      ∙ rw (lookup-remove key k pairings) (elim (Bool-cases (text_eq key k)) [
        | inl e ↦ rw e (sym h ∙ ap (λ x. lookup x pairings) (text_eq_sound key k e))
        | inr e ↦ rw e refl
      ])

  module _ (e : Surroundings) (failing : e.saved ≡ false) where
    enrol-kept :
        (s : DeviceStore) (code_digest : List ℕ) (c : PairingChallenge) (login k : List ℕ)
        → lookup (r.sha256 e.token) s.devices ≡ none
        → lookup k (enrol r s code_digest c login e).0.devices ≡ lookup k s.devices
    unfolding enrol
    enrol-kept s code_digest c login k h =
        rw failing (lookup-remove-insert (r.sha256 e.token) k (enrolled r c login e) s.devices h)

    use_challenge-kept :
        (s : DeviceStore) (code_digest : List ℕ) (o : Option PairingChallenge) (login k : List ℕ)
        → lookup (r.sha256 e.token) s.devices ≡ none
        → lookup k (use_challenge r s code_digest o login e).0.devices ≡ lookup k s.devices
    unfolding use_challenge
    use_challenge-kept s code_digest none login k h = refl
    use_challenge-kept s code_digest (some c) login k h =
        elim (Bool-cases (leb c.expires_at e.now)) [
          | inl b ↦ rw b refl
          | inr b ↦ rw b (enrol-kept s code_digest c login k h)
        ]

    redeem_known-kept :
        (s : DeviceStore) (code_digest : List ℕ) (o : Option RedeemedPairing) (login k : List ℕ)
        → lookup (r.sha256 e.token) s.devices ≡ none
        → lookup k (redeem_known r s code_digest o login e).0.devices ≡ lookup k s.devices
    unfolding redeem_known take_challenge clear_redemption
    redeem_known-kept s code_digest none login k h =
        use_challenge-kept (record s { pairings = remove code_digest s.pairings }) code_digest
          (lookup code_digest s.pairings) login k h
    redeem_known-kept s code_digest (some red) login k h =
        elim (Bool-cases (leb red.expires_at e.now)) [
          | inl b ↦ rw b (
              use_challenge-kept
                (record (clear_redemption code_digest s) {
                  pairings = remove code_digest s.pairings;
                })
                code_digest (lookup code_digest s.pairings) login k h)
          | inr b ↦ elim (Bool-cases (text_eq red.tailscale_login login)) [
            | inl t ↦ rw (b, t) refl
            | inr t ↦ rw (b, t) refl
          ]
        ]

    redeem-kept :
        (s : DeviceStore) (code login k : List ℕ)
        → is_code r code ≡ true
        → is_login r login ≡ true
        → lookup (r.sha256 e.token) s.devices ≡ none
        → lookup k (redeem r s code login e).0.devices ≡ lookup k s.devices
    redeem-kept s code login k c l h =
        rw (redeem-take r s code login e c l) (
          redeem_known-kept s (r.sha256 code) (lookup (r.sha256 code) s.redeemed_pairings) login k
            h)

    use_challenge-restored :
        (s : DeviceStore) (code_digest : List ℕ) (o : Option PairingChallenge)
        (c : PairingChallenge) (login : List ℕ)
        → o ≡ some c
        → e.now < c.expires_at
        → ((use_challenge r s code_digest o login e).1 ≡ err save_failed)
          × ((use_challenge r s code_digest o login e).0.pairings ≡ insert code_digest c s.pairings)
    unfolding use_challenge enrol
    use_challenge-restored s code_digest o c login h live =
        let early : leb c.expires_at e.now ≡ false = ground arith in
        rw (h, early, failing) (refl, refl)

    -- If the new device cannot be saved, redeeming a code that waits raises, and leaves the store's
    -- devices as they were and the code as good as it was: the devices and challenges are the same by
    -- every digest. The digest of the token that was drawn is none of a device.
    pub redeem_failed :
        (s : DeviceStore) (code login k : List ℕ) (c : PairingChallenge)
        → is_code r code ≡ true
        → is_login r login ≡ true
        → lookup (r.sha256 e.token) s.devices ≡ none
        → lookup (r.sha256 code) s.redeemed_pairings ≡ none
        → lookup (r.sha256 code) s.pairings ≡ some c
        → e.now < c.expires_at
        → ((redeem r s code login e).1 ≡ err save_failed)
          × (lookup k (redeem r s code login e).0.devices ≡ lookup k s.devices)
          × (lookup k (redeem r s code login e).0.pairings ≡ lookup k s.pairings)
    unfolding redeem_known take_challenge
    redeem_failed s code login k c good l fresh new waits live =
        let taken = record s { pairings = remove (r.sha256 code) s.pairings } in
        let (raised, restored) =
          use_challenge-restored taken (r.sha256 code) (lookup (r.sha256 code) s.pairings) c login
            waits live in
        (
          rw (redeem-take r s code login e good l, new) raised,
          redeem-kept s code login k good l fresh,
          rw (redeem-take r s code login e good l, new)
              (ap (lookup k) restored ∙ lookup-insert-remove (r.sha256 code) k c s.pairings waits),
        )
