-- ===== src/DeviceStore/Pairing.antt =====
-- DeviceStore.redeem of src/tfr/gateway_devices.py: a code pairs one device.
use tfr.Base.{
  ℕ, ◌≡◌, refl, ap, ◌∙◌, Bool, true, false, ◌||◌, not, Option, none, some, List, leb, ltb,
  if◌then◌else◌, arith, Result, ok, err, Bool-cases, inl, inr, text_eq, length,
}
use tfr.Json.Lookup.{text_eq_refl}
use tfr.Dict.{lookup, insert, remove}
use tfr.Dict.Laws.{lookup-insert, lookup-remove}
use tfr.Device.{Runtime, DeviceRecord, is_login}
use tfr.DeviceStore.{
  DeviceStore, PairingChallenge, RedeemedPairing, Surroundings, Error, is_ascii, clear_redemption,
  enrolled, enrol, use_challenge, take_challenge, redeem_known, redeem, invalid_or_expired,
}

module _ (r : Runtime) where
  -- A code as redeem takes it.
  abbrev pub is_code : List ℕ → Bool
  is_code code = not (ltb 128 (length code) || not (is_ascii code))

  pub redeem-take :
      (s : DeviceStore) (code login : List ℕ) (e : Surroundings)
      → is_code code ≡ true
      → is_login r login ≡ true
      → redeem r s code login e
        ≡ redeem_known r s (r.sha256 code) (lookup (r.sha256 code) s.redeemed_pairings) login e
  unfolding redeem
  redeem-take s code login e h l =
      let short : (ltb 128 (length code) || not (is_ascii code)) ≡ false = ground arith in
      rw (short, l) refl

  -- The state between a code that was redeemed and its expiry.
  record Redeemed (s : DeviceStore) (code_digest : List ℕ) (red : RedeemedPairing) : Type 0 where
    pub known : lookup code_digest s.redeemed_pairings ≡ some red
    pub used : lookup code_digest s.pairings ≡ none

  lookup-insert_self :
      (k : List ℕ) (red : RedeemedPairing) (items : List (List ℕ × RedeemedPairing))
      → lookup k (insert k red items) ≡ some red
  lookup-insert_self k red items = rw (lookup-insert k k red items, text_eq_refl k) refl

  lookup-remove_self :
      (k : List ℕ) (items : List (List ℕ × PairingChallenge)) → lookup k (remove k items) ≡ none
  lookup-remove_self k items = rw (lookup-remove k k items, text_eq_refl k) refl

  -- The answers to a code that was redeemed before.
  abbrev pub answer : RedeemedPairing → List ℕ → ℕ → Result Error (DeviceRecord × List ℕ)
  answer red login now =
      if leb red.expires_at now
      then err invalid_or_expired
      else if text_eq red.tailscale_login login
      then ok (red.device, red.token)
      else err invalid_or_expired

  use_none :
      (s : DeviceStore) (code_digest : List ℕ) (o : Option PairingChallenge) (login : List ℕ)
      (e : Surroundings)
      → o ≡ none
      → use_challenge r s code_digest o login e ≡ (s, err invalid_or_expired)
  unfolding use_challenge
  use_none s code_digest none login e h = refl
  use_none s code_digest (some c) login e h = cc

  redeemed_again :
      (s : DeviceStore) (code_digest : List ℕ) (red : RedeemedPairing) (login : List ℕ)
      (e : Surroundings)
      → lookup code_digest s.pairings ≡ none
      → ((redeem_known r s code_digest (some red) login e).1 ≡ answer red login e.now)
        × ((redeem_known r s code_digest (some red) login e).0.devices ≡ s.devices)
  unfolding redeem_known take_challenge clear_redemption
  redeemed_again s code_digest red login e u = elim (Bool-cases (leb red.expires_at e.now)) [
    | inl b ↦
        rw
          (
            b,
            use_none
                (record (clear_redemption code_digest s) {
                  pairings = remove code_digest s.pairings;
                })
                code_digest (lookup code_digest s.pairings) login e u,
          )
          (refl, refl)
    | inr b ↦ elim (Bool-cases (text_eq red.tailscale_login login)) [
      | inl t ↦ rw (b, t) (refl, refl)
      | inr t ↦ rw (b, t) (refl, refl)
    ]
  ]

  -- What a redemption of a challenge that pairs a new device leaves.
  Paired : DeviceStore → List ℕ → PairingChallenge → List ℕ → DeviceRecord → List ℕ → Type 0
  Paired s code_digest c login d token =
      (red : RedeemedPairing) × (red.device ≡ d)
      × (red.token ≡ token)
      × (red.tailscale_login ≡ login)
      × (red.expires_at ≡ c.expires_at)
      × Redeemed s code_digest red

  -- The same, of the challenge that was there before, if there was one.
  PairedBy :
      DeviceStore → List ℕ → Option PairingChallenge → List ℕ → DeviceRecord → List ℕ → Type 0
  PairedBy s code_digest o login d token =
      (c : PairingChallenge) × (o ≡ some c) × Paired s code_digest c login d token

  enrol-Paired :
      (s : DeviceStore) (code_digest : List ℕ) (c : PairingChallenge) (login : List ℕ)
      (e : Surroundings) (d : DeviceRecord) (token : List ℕ)
      → lookup code_digest s.pairings ≡ none
      → (enrol r s code_digest c login e).1 ≡ ok (d, token)
      → Paired (enrol r s code_digest c login e).0 code_digest c login d token
  unfolding enrol Paired
  enrol-Paired s code_digest c login e d token u = elim (Bool-cases e.saved) [
    | inr b ↦ rw b (λ h. cc)
    | inl b ↦
        let red : RedeemedPairing = record {
          device = enrolled r c login e;
          token = e.token;
          tailscale_login = login;
          expires_at = c.expires_at;
        } in
        rw b (λ h. (
          red,
          cc,
          cc,
          refl,
          refl,
          record { known = lookup-insert_self code_digest red s.redeemed_pairings; used = u },
        ))
  ]

  use_challenge-Paired :
      (s : DeviceStore) (code_digest : List ℕ) (o : Option PairingChallenge) (login : List ℕ)
      (e : Surroundings) (d : DeviceRecord) (token : List ℕ)
      → lookup code_digest s.pairings ≡ none
      → (use_challenge r s code_digest o login e).1 ≡ ok (d, token)
      → PairedBy (use_challenge r s code_digest o login e).0 code_digest o login d token
  unfolding use_challenge PairedBy
  use_challenge-Paired s code_digest none login e d token u = λ h. cc
  use_challenge-Paired s code_digest (some c) login e d token u =
      elim (Bool-cases (leb c.expires_at e.now)) [
        | inl b ↦ rw b (λ h. cc)
        | inr b ↦ rw b (λ h. (c, refl, enrol-Paired s code_digest c login e d token u h))
      ]

  redeem-Paired :
      (s : DeviceStore) (code login : List ℕ) (e : Surroundings) (d : DeviceRecord) (token : List ℕ)
      → lookup (r.sha256 code) s.redeemed_pairings ≡ none
      → is_code code ≡ true
      → is_login r login ≡ true
      → (redeem r s code login e).1 ≡ ok (d, token)
      → PairedBy
          (redeem r s code login e).0
          (r.sha256 code)
          (lookup (r.sha256 code) s.pairings)
          login
          d
          token
  unfolding redeem_known take_challenge
  redeem-Paired s code login e d token new c l =
      rw (redeem-take s code login e c l, new)
        (use_challenge-Paired (record s { pairings = remove (r.sha256 code) s.pairings })
          (r.sha256 code) (lookup (r.sha256 code) s.pairings) login e d token
          (lookup-remove_self (r.sha256 code) s.pairings))

  -- After a code has paired a new device, the next try with it, by whomever, pairs no other one: until
  -- the expiry of the challenge the code stood for it gives the same login the same device and token
  -- once more, and from then on, and to any other login, an error. It changes no device.
  pub redeem_again :
      (s : DeviceStore) (code login other : List ℕ) (e later : Surroundings) (d : DeviceRecord)
      (token : List ℕ)
      → lookup (r.sha256 code) s.redeemed_pairings ≡ none
      → is_code code ≡ true
      → is_login r login ≡ true
      → is_login r other ≡ true
      → (redeem r s code login e).1 ≡ ok (d, token)
      → (c : PairingChallenge) × (lookup (r.sha256 code) s.pairings ≡ some c)
        × ((redeem r (redeem r s code login e).0 code other later).1 ≡ (
            if leb c.expires_at later.now
            then err invalid_or_expired
            else if text_eq login other
            then ok (d, token)
            else err invalid_or_expired))
        × ((redeem r (redeem r s code login e).0 code other later).0.devices
            ≡ (redeem r s code login e).0.devices)
  unfolding Paired PairedBy
  redeem_again s code login other e later d token new c l l' h =
      let next = (redeem r s code login e).0 in
      let (challenge, found, (red, device, token_kept, login_kept, expiry, state)) =
        redeem-Paired s code login e d token new c l h in
      let (again, devices) = redeemed_again next (r.sha256 code) red other later state.used in
      let taken : redeem r next code other later
          ≡ redeem_known r next (r.sha256 code) (some red) other later =
        redeem-take next code other later c l' ∙ rw state.known refl in
      (
        challenge,
        found,
        ap (λ x. x.1) taken ∙ again ∙ rw (device, token_kept, login_kept, expiry) refl,
        ap (λ x. x.0.devices) taken ∙ devices,
      )
