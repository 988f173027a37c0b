-- ===== src/DeviceStore.antt =====
-- DeviceStore of src/tfr/gateway_devices.py: the pairing of web devices and their tokens. Times are
-- microseconds. The state file is seen through whether a save succeeds; a save that fails raises.
pub mod Worlds
pub mod Invariant
pub mod Histories
pub mod Pairing
pub mod Rollback
pub mod Revocation
pub mod Examples
use tfr.Base.{
  ℕ, ◌+◌, ◌-◌, ◌*◌, ◌≤◌, ◌≡◌, Bool, true, false, ◌&&◌, ◌||◌, not, Option, none, some, List, [], ◌∷◌,
  ◌++◌, ltb, leb, ◌==◌, if◌then◌else◌, Result, ok, err, ◌>>=◌, ◌>>◌, guard, length, text_eq, codes,
  map, strip, drop_while,
}
use mathlib.Core.List.{reverse}
use tfr.Json.{is_among}
use tfr.Dict.{lookup, insert, remove, select}
use tfr.Device.{Runtime, DeviceRecord, is_label, is_login, all_named}

pub record PairingChallenge : Type 0 where
  pub label : List ℕ
  pub expires_at : ℕ
  pub allowed_worlds : List (List ℕ)

pub record RedeemedPairing : Type 0 where
  pub device : DeviceRecord
  pub token : List ℕ
  pub tailscale_login : List ℕ
  pub expires_at : ℕ

-- Pairings and redemptions are by the digest of their code, timers are the delays that were set.
pub record DeviceStore : Type 0 where
  pub origin : List ℕ
  pub devices : List (List ℕ × DeviceRecord)
  pub pairings : List (List ℕ × PairingChallenge)
  pub redeemed_pairings : List (List ℕ × RedeemedPairing)
  pub redemption_expirations : List (List ℕ × ℕ)

pub data Error : Type 0 where
  invalid_label no_worlds invalid_code invalid_identity invalid_or_expired save_failed : Error

-- What a call finds in its surroundings: the clock as the code reads it at first, for the record and
-- for the timer, what is drawn at random, and whether the file can be written.
pub record Surroundings : Type 0 where
  pub now : ℕ
  pub today : ℕ
  pub later : ℕ
  pub token : List ℕ
  pub device_id : ℕ
  pub ui_id : ℕ
  pub saved : Bool

abbrev pub pairing_ttl : ℕ
pairing_ttl = 600 * 1000000

abbrev pub device_lifetime : ℕ
device_lifetime = 180 * 24 * 60 * 60 * 1000000

abbrev pub device_activity_write_interval : ℕ
device_activity_write_interval = 24 * 60 * 60 * 1000000

unfoldable pub is_ascii : List ℕ → Bool
is_ascii [] = true
is_ascii (c ∷ t) = ltb c 128 && is_ascii t

-- dict.fromkeys: each world at its first place.
unfoldable pub without : List ℕ → List (List ℕ) → List (List ℕ)
without w [] = []
without w (x ∷ ws) = let rest = without w ws in if text_eq x w then rest else x ∷ rest

unfoldable pub unique : List (List ℕ) → List (List ℕ)
unfolding without
unique [] = []
unique (w ∷ ws) = w ∷ without w (unique ws)

-- The first device with an id, with its digest.
unfoldable pub find_device : ℕ → List (List ℕ × DeviceRecord) → Option (List ℕ × DeviceRecord)
find_device id [] = none
find_device id ((digest, d) ∷ devices) =
    let rest = find_device id devices in if d.device_id == id then some (digest, d) else rest

-- origin.rstrip("/")
abbrev pub rstrip_slash : List ℕ → List ℕ
rstrip_slash t = reverse (drop_while (λ c. c == b'/') (reverse t))

unfoldable pub clear_redemption : List ℕ → DeviceStore → DeviceStore
clear_redemption code_digest s = record s {
  redeemed_pairings = remove code_digest s.redeemed_pairings;
  redemption_expirations = remove code_digest s.redemption_expirations;
}

-- The timer's call.
unfoldable pub expire_redemption : List ℕ → DeviceStore → DeviceStore
expire_redemption code_digest s = record s {
  redeemed_pairings = remove code_digest s.redeemed_pairings;
  redemption_expirations = remove code_digest s.redemption_expirations;
}

-- The loop of revoke over the redemptions that there were.
unfoldable pub clear_device : ℕ → List (List ℕ × RedeemedPairing) → DeviceStore → DeviceStore
clear_device id [] s = s
clear_device id ((code_digest, redemption) ∷ redemptions) s =
    let cleared = clear_device id redemptions (clear_redemption code_digest s) in
    let kept = clear_device id redemptions s in
    if redemption.device.device_id == id then cleared else kept

module _ (r : Runtime) where
  unfoldable pub create : List ℕ → List (List ℕ × DeviceRecord) → DeviceStore
  create origin loaded = record {
    origin = rstrip_slash origin;
    devices = loaded;
    pairings = [];
    redeemed_pairings = [];
    redemption_expirations = [];
  }

  unfoldable pub create_pairing_url :
      DeviceStore → List ℕ → List (List ℕ) → ℕ → List ℕ → Result Error (DeviceStore × List ℕ)
  create_pairing_url s label [] now code =
      if not (is_label r (strip r.is_space label)) then err invalid_label else err no_worlds
  create_pairing_url s label (w ∷ ws) now code =
      if not (is_label r (strip r.is_space label))
      then err invalid_label
      else if not (all_named (w ∷ ws))
      then err no_worlds
      else ok (
        record s {
          pairings =
              insert (r.sha256 code)
                (record {
                  label = strip r.is_space label;
                  expires_at = now + pairing_ttl;
                  allowed_worlds = unique (w ∷ ws);
                })
                (select (λ k challenge. ltb now challenge.expires_at) s.pairings);
          redeemed_pairings =
              select (λ k redemption. ltb now redemption.expires_at) s.redeemed_pairings;
        },
        s.origin ++ (codes "/#pair=" ++ r.quote code),
      )

  abbrev pub enrolled : PairingChallenge → List ℕ → Surroundings → DeviceRecord
  enrolled challenge login e = record {
    device_id = e.device_id;
    ui_id = e.ui_id;
    label = challenge.label;
    token_digest = r.sha256 e.token;
    created_at = e.today;
    last_used_at = e.today;
    expires_at = e.today + device_lifetime;
    allowed_worlds = challenge.allowed_worlds;
    tailscale_login = login;
    scope = codes "chat";
  }

  -- redeem, from a challenge on that has not expired.
  unfoldable pub enrol :
      DeviceStore
      → List ℕ
      → PairingChallenge
      → List ℕ
      → Surroundings
      → DeviceStore × Result Error (DeviceRecord × List ℕ)
  enrol s code_digest challenge login e =
      let d = enrolled challenge login e in
      if e.saved
      then (
        record s {
          devices = insert d.token_digest d s.devices;
          redeemed_pairings =
              insert code_digest
                (record {
                  device = d;
                  token = e.token;
                  tailscale_login = login;
                  expires_at = challenge.expires_at;
                })
                s.redeemed_pairings;
          redemption_expirations =
              insert code_digest (challenge.expires_at - e.later) s.redemption_expirations;
        },
        ok (d, e.token),
      )
      else (
        record s {
          devices = remove d.token_digest (insert d.token_digest d s.devices);
          pairings = insert code_digest challenge s.pairings;
        },
        err save_failed,
      )

  unfoldable pub use_challenge :
      DeviceStore
      → List ℕ
      → Option PairingChallenge
      → List ℕ
      → Surroundings
      → DeviceStore × Result Error (DeviceRecord × List ℕ)
  use_challenge s code_digest none login e = (s, err invalid_or_expired)
  use_challenge s code_digest (some challenge) login e =
      if leb challenge.expires_at e.now
      then (s, err invalid_or_expired)
      else enrol s code_digest challenge login e

  -- The challenge is taken out before it is looked at.
  unfoldable pub take_challenge :
      DeviceStore
      → List ℕ
      → List ℕ
      → Surroundings
      → DeviceStore × Result Error (DeviceRecord × List ℕ)
  take_challenge s code_digest login e =
      use_challenge (record s { pairings = remove code_digest s.pairings }) code_digest
        (lookup code_digest s.pairings) login e

  unfoldable pub redeem_known :
      DeviceStore
      → List ℕ
      → Option RedeemedPairing
      → List ℕ
      → Surroundings
      → DeviceStore × Result Error (DeviceRecord × List ℕ)
  redeem_known s code_digest none login e = take_challenge s code_digest login e
  redeem_known s code_digest (some redemption) login e =
      if leb redemption.expires_at e.now
      then take_challenge (clear_redemption code_digest s) code_digest login e
      else if not (text_eq redemption.tailscale_login login)
      then (s, err invalid_or_expired)
      else (s, ok (redemption.device, redemption.token))

  unfoldable pub redeem :
      DeviceStore
      → List ℕ
      → List ℕ
      → Surroundings
      → DeviceStore × Result Error (DeviceRecord × List ℕ)
  redeem s code login e =
      if ltb 128 (length code) || not (is_ascii code)
      then (s, err invalid_code)
      else if not (is_login r login)
      then (s, err invalid_identity)
      else redeem_known s (r.sha256 code) (lookup (r.sha256 code) s.redeemed_pairings) login e

  -- A device that has not expired.
  unfoldable pub current : ℕ → Option DeviceRecord → Option DeviceRecord
  current now none = none
  current now (some d) = if leb d.expires_at now then none else some d

  unfoldable pub authenticate : DeviceStore → Option (List ℕ) → ℕ → Option DeviceRecord
  authenticate s none now = none
  authenticate s (some token) now =
      if not (is_ascii token) || ltb 128 (length token)
      then none
      else current now (lookup (r.sha256 token) s.devices)

  unfoldable authenticate_by_id : DeviceStore → ℕ → ℕ → Option DeviceRecord
  authenticate_by_id s id now = elim (find_device id s.devices) [
    | none ↦ none
    | some (digest, d) ↦ current now (some d)
  ]

  abbrev pub renewed : DeviceRecord → ℕ → DeviceRecord
  renewed d now = record d { last_used_at = now; expires_at = now + device_lifetime }

  unfoldable pub touch :
      DeviceStore
      → Option (List ℕ × DeviceRecord)
      → ℕ
      → Bool
      → DeviceStore × Result Error (Option DeviceRecord × Bool)
  touch s none now saved = (s, ok (none, false))
  touch s (some (digest, d)) now saved =
      if leb d.expires_at now
      then (s, ok (none, false))
      else if ltb now (d.last_used_at + device_activity_write_interval)
      then (s, ok (some d, false))
      else if saved
      then (
        record s { devices = insert digest (renewed d now) s.devices },
        ok (some (renewed d now), true),
      )
      else (
        record s { devices = insert digest d (insert digest (renewed d now) s.devices) },
        err save_failed,
      )

  unfoldable pub mark_used :
      DeviceStore → ℕ → ℕ → Bool → DeviceStore × Result Error (Option DeviceRecord × Bool)
  mark_used s id now saved = touch s (find_device id s.devices) now saved

  unfoldable pub revoke_found :
      DeviceStore → ℕ → Option (List ℕ × DeviceRecord) → Bool → DeviceStore × Result Error Bool
  revoke_found s id none saved = (s, ok false)
  revoke_found s id (some (digest, d)) saved =
      if saved
      then (
        clear_device id s.redeemed_pairings (record s { devices = remove digest s.devices }),
        ok true,
      )
      else (record s { devices = insert digest d (remove digest s.devices) }, err save_failed)

  unfoldable pub revoke : DeviceStore → ℕ → Bool → DeviceStore × Result Error Bool
  revoke s id saved = revoke_found s id (find_device id s.devices) saved
