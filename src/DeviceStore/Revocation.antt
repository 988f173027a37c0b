-- ===== src/DeviceStore/Revocation.antt =====
-- DeviceStore.revoke of src/tfr/gateway_devices.py: what a revoked device can still do.
use tfr.Base.{
  ℕ, ◌≡◌, refl, ap, ◌∙◌, Bool, true, false, ◌&&◌, ◌||◌, not, none, some, List, [], ◌∷◌, ltb, ◌==◌,
  if◌then◌else◌, arith, ok, Bool-cases, inl, inr, text_eq, All, length,
}
use tfr.Json.Lookup.{text_eq_refl}
use tfr.Dict.{lookup, remove}
use tfr.Dict.Laws.{lookup-remove, text_eq_sym}
use tfr.Device.{Runtime, DeviceRecord}
use tfr.DeviceStore.{
  DeviceStore, RedeemedPairing, is_ascii, find_device, clear_redemption, clear_device, current,
  authenticate, revoke_found, revoke,
}

-- A redemption of the device is still to come in the loop of revoke, by a code's digest.
pending : ℕ → List ℕ → List (List ℕ × RedeemedPairing) → Bool
pending id k [] = false
pending id k ((c, red) ∷ redemptions) =
    (red.device.device_id == id && text_eq c k) || pending id k redemptions

-- A redemption that stays is another device's, or its code is pending.
Other : ℕ → List (List ℕ × RedeemedPairing) → List ℕ × RedeemedPairing → Type 0
Other id redemptions (k, red) =
    (red.device.device_id == id && not (pending id k redemptions)) ≡ false

remove-Other :
    (id : ℕ) (c : List ℕ) (red : RedeemedPairing)
    (redemptions items : List (List ℕ × RedeemedPairing))
    → All (Other id ((c, red) ∷ redemptions)) items
    → All (Other id redemptions) (remove c items)
unfolding remove Other pending
remove-Other id c red redemptions [] h = tt
remove-Other id c red redemptions ((k, x) ∷ items) h = elim (Bool-cases (text_eq k c)) [
  | inl e ↦ rw e (remove-Other id c red redemptions items h.1)
  | inr e ↦
      let same = text_eq_sym c k in rw e (ground arith, remove-Other id c red redemptions items h.1)
]

skip-Other :
    (id : ℕ) (c : List ℕ) (red : RedeemedPairing)
    (redemptions items : List (List ℕ × RedeemedPairing))
    → (red.device.device_id == id) ≡ false
    → All (Other id ((c, red) ∷ redemptions)) items
    → All (Other id redemptions) items
unfolding Other pending
skip-Other id c red redemptions [] d h = tt
skip-Other id c red redemptions ((k, x) ∷ items) d h =
    (ground arith, skip-Other id c red redemptions items d h.1)

clear_device-Other :
    (id : ℕ) (redemptions : List (List ℕ × RedeemedPairing)) (s : DeviceStore)
    → All (Other id redemptions) s.redeemed_pairings
    → All (Other id []) (clear_device id redemptions s).redeemed_pairings
unfolding clear_device clear_redemption
clear_device-Other id [] s h = h
clear_device-Other id ((c, red) ∷ redemptions) s h =
    elim (Bool-cases (red.device.device_id == id)) [
      | inl e ↦ rw e (
          clear_device-Other id redemptions (clear_redemption c s)
            (remove-Other id c red redemptions s.redeemed_pairings h))
      | inr e ↦ rw e (
          clear_device-Other id redemptions s
            (skip-Other id c red redemptions s.redeemed_pairings e h))
    ]

more-Other :
    (id : ℕ) (c : List ℕ) (red : RedeemedPairing)
    (redemptions items : List (List ℕ × RedeemedPairing))
    → All (Other id redemptions) items
    → All (Other id ((c, red) ∷ redemptions)) items
unfolding Other pending
more-Other id c red redemptions [] h = tt
more-Other id c red redemptions ((k, x) ∷ items) h =
    (ground arith, more-Other id c red redemptions items h.1)

redemptions_apart : (id : ℕ) (items : List (List ℕ × RedeemedPairing)) → All (Other id items) items
unfolding Other pending
redemptions_apart id [] = tt
redemptions_apart id ((c, red) ∷ items) =
    let same = text_eq_refl c in
    (ground arith, more-Other id c red items items (redemptions_apart id items))

clear_device-devices :
    (id : ℕ) (redemptions : List (List ℕ × RedeemedPairing)) (s : DeviceStore)
    → (clear_device id redemptions s).devices ≡ s.devices
unfolding clear_device clear_redemption
clear_device-devices id [] s = refl
clear_device-devices id ((c, red) ∷ redemptions) s =
    elim (Bool-cases (red.device.device_id == id)) [
      | inl e ↦ rw e (clear_device-devices id redemptions (clear_redemption c s))
      | inr e ↦ rw e (clear_device-devices id redemptions s)
    ]

-- A redemption of another device than one.
abbrev pub IsOther : ℕ → List ℕ × RedeemedPairing → Type 0
IsOther id (k, red) = (red.device.device_id == id) ≡ false

Other-IsOther :
    (id : ℕ) (items : List (List ℕ × RedeemedPairing))
    → All (Other id []) items
    → All (IsOther id) items
unfolding Other pending
Other-IsOther id [] h = tt
Other-IsOther id ((k, red) ∷ items) h = (ground arith, Other-IsOther id items h.1)

removed :
    (digest : List ℕ) (devices : List (List ℕ × DeviceRecord))
    → lookup digest (remove digest devices) ≡ none
removed digest devices = rw (lookup-remove digest digest devices, text_eq_refl digest) refl

module _ (r : Runtime) where
  authenticate-none :
      (s : DeviceStore) (token : List ℕ) (now : ℕ)
      → lookup (r.sha256 token) s.devices ≡ none
      → authenticate r s (some token) now ≡ none
  unfolding authenticate current
  authenticate-none s token now h =
      elim (Bool-cases (not (is_ascii token) || ltb 128 (length token))) [
        | inl e ↦ rw e refl
        | inr e ↦ rw (e, h) refl
      ]

  -- Revoking a device that is found under a digest, and saving: no token with that digest is accepted
  -- any more, no redeemed code hands out a token of the device, and the devices under other digests
  -- stay.
  pub revoke_ends :
      (s : DeviceStore) (id : ℕ) (digest token k : List ℕ) (d : DeviceRecord) (now : ℕ)
      → find_device id s.devices ≡ some (digest, d)
      → r.sha256 token ≡ digest
      → ((revoke r s id true).1 ≡ ok true)
        × (authenticate r (revoke r s id true).0 (some token) now ≡ none)
        × All (IsOther id) (revoke r s id true).0.redeemed_pairings
        × (lookup k (revoke r s id true).0.devices
            ≡ (if text_eq digest k then none else lookup k s.devices))
  unfolding revoke revoke_found
  revoke_ends s id digest token k d now found mine =
      let left : DeviceStore = record s { devices = remove digest s.devices } in
      let same = clear_device-devices id s.redeemed_pairings left in
      let gone : lookup (r.sha256 token) (clear_device id s.redeemed_pairings left).devices ≡ none =
        ap (lookup (r.sha256 token)) same ∙ rw mine (removed digest s.devices) in
      rw found (
        refl,
        authenticate-none (clear_device id s.redeemed_pairings left) token now gone,
        Other-IsOther id (clear_device id s.redeemed_pairings left).redeemed_pairings (
            clear_device-Other id s.redeemed_pairings left
              (redemptions_apart id s.redeemed_pairings)),
        ap (lookup k) same ∙ lookup-remove digest k s.devices,
      )
