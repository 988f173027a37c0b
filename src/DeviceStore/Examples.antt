-- ===== src/DeviceStore/Examples.antt =====
-- Tests of the model of src/tfr/gateway_devices.py, and its theorems at a concrete store. The runtime
-- of the tests has two digests, and writes a number as that many characters.
use tfr.Base.{
  ℕ, ◌%◌, ◌≡◌, refl, ap, Bool, true, false, ◌&&◌, none, some, List, [], ◌∷◌, leb, ◌==◌,
  if◌then◌else◌, arith, ok, err, length, replicate, length-replicate, codes, text_eq, All,
}
use tfr.Json.{Value, text, is_among}
use tfr.Dict.{lookup}
use tfr.Device.{
  Runtime, Documented, DeviceRecord, from_hex, is_label, is_login, is_digest, are_worlds,
  has_duplicates, has_length, as_dict, from_dict,
}
use tfr.Device.Codec.{IsValid, from_dict-as_dict, from_dict-IsValid}
use tfr.DeviceStore.{
  DeviceStore, PairingChallenge, Surroundings, create, redeem, redeem_known, take_challenge,
  use_challenge, enrol, find_device, revoke, authenticate, is_ascii, invalid_or_expired,
  save_failed,
}
use tfr.DeviceStore.Invariant.{DeviceHolds}
use tfr.DeviceStore.Histories.{Call, pairs, redeems, marks, revokes, run, calls_keep_devices}
use tfr.DeviceStore.Pairing.{redeem_again}
use tfr.DeviceStore.Rollback.{redeem_failed}
use tfr.DeviceStore.Revocation.{IsOther, revoke_ends}

abbrev all_printable : List ℕ → Bool
all_printable [] = true
all_printable (c ∷ t) = leb 0x20 c && all_printable t

abbrev shown : Value → List ℕ
shown (text t) = t
shown _ = []

abbrev tests : Runtime
tests = record {
  is_printable = all_printable;
  is_space = λ c. c == 0x20;
  show = shown;
  parse_time = λ t. some (some (length t));
  print_time = λ n. replicate n b'0';
  parse_uuid = λ t. some (length t);
  print_uuid = λ n. replicate n b'0';
  sha256 = λ t. replicate 64 (if length t % 2 == 0 then b'a' else b'b');
  quote = λ t. t;
}

even_hex : (b : Bool) → from_hex false (replicate 64 (if b then b'a' else b'b')) ≡ true
unfolding from_hex
even_hex true = refl
even_hex false = refl

tests-Documented : Documented tests
tests-Documented = record {
  time_read = λ t. ap (λ (n : ℕ). some (some n)) (length-replicate t b'0');
  uuid_read = λ u. ap (λ (n : ℕ). some n) (length-replicate u b'0');
  text_shown = λ t. refl;
  digest_hex = λ t. (
    length-replicate {A = ℕ} 64 (if length t % 2 == 0 then b'a' else b'b'),
    even_hex (length t % 2 == 0),
  );
}

abbrev phone : DeviceRecord
phone = record {
  device_id = 5;
  ui_id = 6;
  label = codes "phone";
  token_digest = tests.sha256 (codes "token");
  created_at = 1;
  last_used_at = 2;
  expires_at = 3;
  allowed_worlds = codes "mush" ∷ [];
  tailscale_login = codes "ann";
  scope = codes "chat";
}

phone-IsValid : IsValid tests phone
unfolding is_label is_login is_digest from_hex has_length are_worlds has_duplicates is_among
phone-IsValid = record {
  labelled = refl;
  digest = refl;
  login = refl;
  worlds = refl;
  chat = refl;
  used_after = omega arith;
  used_before = omega arith;
}

from_dict-as_dict_example : from_dict tests (as_dict tests phone) ≡ ok phone
from_dict-as_dict_example = from_dict-as_dict tests tests-Documented phone phone-IsValid

from_dict-IsValid_example : IsValid tests phone
from_dict-IsValid_example =
    from_dict-IsValid tests (as_dict tests phone) phone from_dict-as_dict_example

abbrev waiting : PairingChallenge
waiting = record { label = codes "phone"; expires_at = 600; allowed_worlds = codes "mush" ∷ [] }

abbrev code : List ℕ
code = codes "secret"

abbrev store : DeviceStore
store = record {
  origin = codes "https://host";
  devices = [];
  pairings = (tests.sha256 code, waiting) ∷ [];
  redeemed_pairings = [];
  redemption_expirations = [];
}

abbrev surroundings : Bool → Surroundings
surroundings saved = record {
  now = 10;
  today = 10;
  later = 11;
  token = codes "token";
  device_id = 5;
  ui_id = 6;
  saved = saved;
}

abbrev paired : DeviceRecord
paired = record phone { created_at = 10; last_used_at = 10; expires_at = 15552000000010 }

redeem-store :
    (redeem tests store code (codes "ann") (surroundings true)).1 ≡ ok (paired, codes "token")
unfolding redeem redeem_known take_challenge use_challenge enrol is_login has_length is_ascii lookup
    text_eq
redeem-store = refl

no_redemption : lookup (tests.sha256 code) store.redeemed_pairings ≡ none
unfolding lookup
no_redemption = refl

good_login : is_login tests (codes "ann") ≡ true
unfolding is_login has_length
good_login = refl

redeem_again_example :
    (c : PairingChallenge) × (lookup (tests.sha256 code) store.pairings ≡ some c)
    × ((redeem tests
          (redeem tests store code (codes "ann") (surroundings true)).0
          code
          (codes "ann")
          (surroundings false)).1
        ≡ (if leb c.expires_at 10
            then err invalid_or_expired
            else if text_eq (codes "ann") (codes "ann")
            then ok (paired, codes "token")
            else err invalid_or_expired))
    × ((redeem tests
          (redeem tests store code (codes "ann") (surroundings true)).0
          code
          (codes "ann")
          (surroundings false)).0.devices
        ≡ (redeem tests store code (codes "ann") (surroundings true)).0.devices)
unfolding is_ascii
redeem_again_example =
    redeem_again tests store code (codes "ann") (codes "ann") (surroundings true)
      (surroundings false) paired (codes "token") no_redemption refl good_login good_login
      redeem-store

redeem_failed_example :
    ((redeem tests store code (codes "ann") (surroundings false)).1 ≡ err save_failed)
    × (lookup code (redeem tests store code (codes "ann") (surroundings false)).0.devices
        ≡ lookup code store.devices)
    × (lookup code (redeem tests store code (codes "ann") (surroundings false)).0.pairings
        ≡ lookup code store.pairings)
unfolding is_ascii lookup text_eq
redeem_failed_example =
    redeem_failed tests (surroundings false) refl store code (codes "ann") code waiting refl
      good_login refl refl refl (omega arith)

abbrev one_device : DeviceStore
one_device = record store { devices = (phone.token_digest, phone) ∷ [] }

found_phone : find_device 5 one_device.devices ≡ some (phone.token_digest, phone)
unfolding find_device
found_phone = refl

revoke_ends_example :
    ((revoke tests one_device 5 true).1 ≡ ok true)
    × (authenticate tests (revoke tests one_device 5 true).0 (some (codes "token")) 2 ≡ none)
    × All (IsOther 5) (revoke tests one_device 5 true).0.redeemed_pairings
    × (lookup code (revoke tests one_device 5 true).0.devices
        ≡ (if text_eq phone.token_digest code then none else lookup code one_device.devices))
revoke_ends_example =
    revoke_ends tests one_device 5 phone.token_digest (codes "token") code phone 2 found_phone refl

abbrev calls : List Call
calls =
    pairs (codes "phone") (codes "mush" ∷ []) 0 code
    ∷ redeems code (codes "ann") (surroundings true)
    ∷ marks 5 100000000000 true
    ∷ revokes 5 false
    ∷ []

calls_keep_devices_example :
    All
      (DeviceHolds tests tests-Documented)
      (run tests (create tests (codes "https://host") []) calls).devices
calls_keep_devices_example = calls_keep_devices tests tests-Documented (codes "https://host") calls
