-- ===== src/DeviceStore/Histories.antt =====
-- DeviceStore of src/tfr/gateway_devices.py after any calls.
use tfr.Base.{
  ℕ, ◌+◌, ◌≤◌, ◌≡◌, refl, Bool, Option, none, some, List, [], ◌∷◌, leb, ltb, ◌==◌, arith,
  Bool-cases, inl, inr, All,
}
use mathlib.Core.Path.{subst}
use tfr.Dict.{insert, remove}
use tfr.Dict.Laws.{remove-All, insert-All}
use tfr.Device.{Runtime, Documented, DeviceRecord}
use tfr.Device.Codec.{IsValid}
use tfr.DeviceStore.{
  DeviceStore, RedeemedPairing, Surroundings, find_device, clear_redemption, expire_redemption,
  clear_device, create, create_pairing_url, redeem, renewed, touch, mark_used, revoke_found, revoke,
  device_activity_write_interval,
}
use tfr.DeviceStore.Invariant.{
  DeviceHolds, IsSound, after, create_pairing_url-IsSound, redeem-IsSound,
}

pub data Call : Type 0 where
  pairs : List ℕ → List (List ℕ) → ℕ → List ℕ → Call
  redeems : List ℕ → List ℕ → Surroundings → Call
  marks : ℕ → ℕ → Bool → Call
  revokes : ℕ → Bool → Call
  expires : List ℕ → Call

module _ (r : Runtime) where
  unfoldable pub perform : DeviceStore → Call → DeviceStore
  perform s (pairs label worlds now code) = after s (create_pairing_url r s label worlds now code)
  perform s (redeems code login e) = (redeem r s code login e).0
  perform s (marks id now saved) = (mark_used r s id now saved).0
  perform s (revokes id saved) = (revoke r s id saved).0
  perform s (expires code_digest) = expire_redemption code_digest s

  unfoldable pub run : DeviceStore → List Call → DeviceStore
  run s [] = s
  run s (call ∷ calls) = run (perform s call) calls

module _ (r : Runtime) (doc : Documented r) where
  find_device-holds :
      (id : ℕ) (devices : List (List ℕ × DeviceRecord)) (digest : List ℕ) (d : DeviceRecord)
      → All (DeviceHolds r doc) devices
      → find_device id devices ≡ some (digest, d)
      → DeviceHolds r doc (digest, d)
  unfolding find_device
  find_device-holds id [] digest d h = λ e. cc
  find_device-holds id ((k, x) ∷ devices) digest d h = elim (Bool-cases (x.device_id == id)) [
    | inl b ↦ rw b (λ e.
        let same : ◌≡◌ {A = List ℕ × DeviceRecord} (k, x) (digest, d) = cc in
        subst (DeviceHolds r doc) same h.0)
    | inr b ↦ rw b (find_device-holds id devices digest d h.1)
  ]

  renewed-IsValid :
      (d : DeviceRecord) (now : ℕ)
      → IsValid r d
      → d.last_used_at + device_activity_write_interval ≤ now
      → IsValid r (renewed r d now)
  renewed-IsValid d now v h =
      let a = v.used_after in
      record {
        labelled = v.labelled;
        digest = v.digest;
        login = v.login;
        worlds = v.worlds;
        chat = v.chat;
        used_after = omega arith;
        used_before = omega arith;
      }

  touch-IsSound :
      (s : DeviceStore) (o : Option (List ℕ × DeviceRecord)) (now : ℕ) (saved : Bool)
      → IsSound r doc s
      → ((digest : List ℕ) (d : DeviceRecord)
          → o ≡ some (digest, d)
          → DeviceHolds r doc (digest, d))
      → IsSound r doc (touch r s o now saved).0
  unfolding touch
  touch-IsSound s none now saved h found = h
  touch-IsSound s (some (digest, d)) now saved h found =
      let holds = found digest d refl in
      elim (Bool-cases (leb d.expires_at now)) [
        | inl b ↦ rw b h
        | inr b ↦ elim (Bool-cases (ltb now (d.last_used_at + device_activity_write_interval))) [
          | inl c ↦ rw (b, c) h
          | inr c ↦
              let added =
                insert-All (DeviceHolds r doc) digest (renewed r d now) s.devices
                  (holds.0, renewed-IsValid d now holds.1 (ground arith)) h.devices_hold in
              elim (Bool-cases saved) [
                | inl w ↦
                    rw (b, c, w) (record { devices_hold = added; pairings_hold = h.pairings_hold })
                | inr w ↦
                    rw (b, c, w)
                      (record {
                        devices_hold =
                            insert-All (DeviceHolds r doc) digest d
                              (insert digest (renewed r d now) s.devices) holds added;
                        pairings_hold = h.pairings_hold;
                      })
              ]
        ]
      ]

  clear_device-IsSound :
      (id : ℕ) (redemptions : List (List ℕ × RedeemedPairing)) (s : DeviceStore)
      → IsSound r doc s
      → IsSound r doc (clear_device id redemptions s)
  unfolding clear_device clear_redemption
  clear_device-IsSound id [] s h = h
  clear_device-IsSound id ((k, red) ∷ redemptions) s h =
      elim (Bool-cases (red.device.device_id == id)) [
        | inl b ↦ rw b (
            clear_device-IsSound id redemptions (clear_redemption k s)
              (record { devices_hold = h.devices_hold; pairings_hold = h.pairings_hold }))
        | inr b ↦ rw b (clear_device-IsSound id redemptions s h)
      ]

  revoke_found-IsSound :
      (s : DeviceStore) (id : ℕ) (o : Option (List ℕ × DeviceRecord)) (saved : Bool)
      → IsSound r doc s
      → ((digest : List ℕ) (d : DeviceRecord)
          → o ≡ some (digest, d)
          → DeviceHolds r doc (digest, d))
      → IsSound r doc (revoke_found r s id o saved).0
  unfolding revoke_found
  revoke_found-IsSound s id none saved h found = h
  revoke_found-IsSound s id (some (digest, d)) saved h found =
      let left = remove-All (DeviceHolds r doc) digest s.devices h.devices_hold in
      elim (Bool-cases saved) [
        | inl w ↦ rw w (
            clear_device-IsSound id s.redeemed_pairings
              (record s { devices = remove digest s.devices })
              (record { devices_hold = left; pairings_hold = h.pairings_hold }))
        | inr w ↦ rw w (record {
          devices_hold =
              insert-All (DeviceHolds r doc) digest d (remove digest s.devices)
                (found digest d refl) left;
          pairings_hold = h.pairings_hold;
        })
      ]

  perform-IsSound :
      (s : DeviceStore) (call : Call) → IsSound r doc s → IsSound r doc (perform r s call)
  unfolding perform mark_used revoke expire_redemption
  perform-IsSound s (pairs label worlds now code) h =
      create_pairing_url-IsSound r doc s label worlds now code h
  perform-IsSound s (redeems code login e) h = redeem-IsSound r doc s code login e h
  perform-IsSound s (marks id now saved) h =
      touch-IsSound s (find_device id s.devices) now saved h
        (λ digest d. find_device-holds id s.devices digest d h.devices_hold)
  perform-IsSound s (revokes id saved) h =
      revoke_found-IsSound s id (find_device id s.devices) saved h
        (λ digest d. find_device-holds id s.devices digest d h.devices_hold)
  perform-IsSound s (expires code_digest) h = record {
    devices_hold = h.devices_hold;
    pairings_hold = h.pairings_hold;
  }

  run-IsSound :
      (s : DeviceStore) (calls : List Call) → IsSound r doc s → IsSound r doc (run r s calls)
  unfolding run
  run-IsSound s [] h = h
  run-IsSound s (call ∷ calls) h = run-IsSound (perform r s call) calls (perform-IsSound s call h)

  -- From a store with no devices, and whatever calls follow, failed saves included, each device is
  -- kept under the digest of its token, and its record is one that the state file may hold: its label,
  -- login, worlds and scope are valid, and it was last used in its lifetime.
  pub calls_keep_devices :
      (origin : List ℕ) (calls : List Call)
      → All (DeviceHolds r doc) (run r (create r origin []) calls).devices
  unfolding create
  calls_keep_devices origin calls =
      (run-IsSound (create r origin []) calls
        (record { devices_hold = tt; pairings_hold = tt })).devices_hold
