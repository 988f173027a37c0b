-- ===== src/Device.antt =====
-- DeviceRecord of src/tfr/gateway_devices.py and its form in the state file. UUIDs are numbers, a
-- time is the microseconds of an instant.
pub mod Codec
use tfr.Base.{
  ℕ, zero, suc, ◌≡◌, ◌≤◌, Bool, true, false, ◌&&◌, ◌||◌, not, Option, none, some, List, [], ◌∷◌,
  leb, ltb, ◌==◌, if◌then◌else◌, Result, ok, err, ◌>>=◌, ◌>>◌, guard, require, length, text_eq,
  codes, All,
}
use tfr.Json.{
  Value, Items, Fields, null, text, array, object, end, field, get_or, has_exactly, is_among,
  as_texts, from_texts,
}

-- What the code takes from Python's library: the test of str.isprintable, the white space of
-- str.strip, str() of a value, times in ISO 8601 with Z for UTC, UUIDs, SHA-256 in hexadecimal, and
-- urllib's quote. A time that is read may lack a time zone.
pub record Runtime : Type 0 where
  pub is_printable : List ℕ → Bool
  pub is_space : ℕ → Bool
  pub show : Value → List ℕ
  pub parse_time : List ℕ → Option (Option ℕ)
  pub print_time : ℕ → List ℕ
  pub parse_uuid : List ℕ → Option ℕ
  pub print_uuid : ℕ → List ℕ
  pub sha256 : List ℕ → List ℕ
  pub quote : List ℕ → List ℕ

pub record DeviceRecord : Type 0 where
  pub device_id : ℕ
  pub ui_id : ℕ
  pub label : List ℕ
  pub token_digest : List ℕ
  pub created_at : ℕ
  pub last_used_at : ℕ
  pub expires_at : ℕ
  pub allowed_worlds : List (List ℕ)
  pub tailscale_login : List ℕ
  pub scope : List ℕ

pub data Error : Type 0 where
  invalid_fields invalid_label invalid_digest invalid_scope invalid_time no_timezone
        outside_lifetime :
      Error
  invalid_worlds invalid_login invalid_device_id invalid_ui_id : Error

abbrev pub max_device_label_characters : ℕ
max_device_label_characters = 80

-- The keys of a record; `ui_id` and `last_used_at` may be missing in an older one.
abbrev pub required_keys : List (List ℕ)
required_keys =
    codes "device_id"
    ∷ codes "label"
    ∷ codes "token_digest"
    ∷ codes "created_at"
    ∷ codes "expires_at"
    ∷ codes "allowed_worlds"
    ∷ codes "tailscale_login"
    ∷ codes "scope"
    ∷ []

unfoldable pub has_record_keys : Fields → Bool
has_record_keys fields =
    has_exactly required_keys fields
    || (has_exactly (codes "last_used_at" ∷ required_keys) fields
        || (has_exactly (codes "ui_id" ∷ required_keys) fields
            || has_exactly (codes "ui_id" ∷ codes "last_used_at" ∷ required_keys) fields))

-- bytes.fromhex: pairs of digits, with white space between pairs.
is_hex_digit : ℕ → Bool
is_hex_digit c =
    (leb b'0' c && leb c b'9') || ((leb b'a' c && leb c b'f') || (leb b'A' c && leb c b'F'))

is_ascii_space : ℕ → Bool
is_ascii_space c = c == 0x20 || (leb 0x09 c && leb c 0x0d)

unfoldable pub from_hex : Bool → List ℕ → Bool
unfolding is_hex_digit is_ascii_space
from_hex half [] = not half
from_hex true (c ∷ digits) = is_hex_digit c && from_hex false digits
from_hex false (c ∷ digits) =
    let skipped = from_hex false digits in
    let paired = from_hex true digits in
    if is_ascii_space c then skipped else is_hex_digit c && paired

-- What is documented of these.
pub record Documented (r : Runtime) : Type 0 where
  pub time_read : (t : ℕ) → r.parse_time (r.print_time t) ≡ some (some t)
  pub uuid_read : (u : ℕ) → r.parse_uuid (r.print_uuid u) ≡ some u
  pub text_shown : (t : List ℕ) → r.show (text t) ≡ t
  pub digest_hex : (t : List ℕ) → (length (r.sha256 t) ≡ 64) × (from_hex false (r.sha256 t) ≡ true)

unfoldable pub has_length : ℕ → ℕ → List ℕ → Bool
has_length least most t = leb least (length t) && leb (length t) most

unfoldable pub has_duplicates : List (List ℕ) → Bool
has_duplicates [] = false
has_duplicates (t ∷ ts) = is_among t ts || has_duplicates ts

abbrev pub all_named : List (List ℕ) → Bool
all_named [] = true
all_named ([] ∷ ts) = false
all_named ((c ∷ t) ∷ ts) = all_named ts

module _ (r : Runtime) where
  unfoldable pub is_label : List ℕ → Bool
  is_label t = has_length 1 max_device_label_characters t && r.is_printable t

  unfoldable pub is_digest : List ℕ → Bool
  is_digest t = length t == 64 && from_hex false t

  unfoldable pub is_login : List ℕ → Bool
  is_login t = has_length 1 320 t && r.is_printable t

  unfoldable pub are_worlds : List (List ℕ) → Bool
  are_worlds [] = false
  are_worlds (w ∷ ws) = all_named (w ∷ ws) && not (has_duplicates (w ∷ ws))

  -- A text that passes a test.
  unfoldable pub read_text : (List ℕ → Bool) → Error → Value → Result Error (List ℕ)
  read_text test e (text t) = if test t then ok t else err e
  read_text test e _ = err e

  unfoldable pub checked_worlds : Option (List (List ℕ)) → Result Error (List (List ℕ))
  checked_worlds none = err invalid_worlds
  checked_worlds (some ws) = if are_worlds ws then ok ws else err invalid_worlds

  unfoldable pub read_worlds : Value → Result Error (List (List ℕ))
  read_worlds (array items) = checked_worlds (as_texts items)
  read_worlds _ = err invalid_worlds

  unfoldable pub with_timezone : Option (Option ℕ) → Result Error ℕ
  with_timezone none = err invalid_time
  with_timezone (some none) = err no_timezone
  with_timezone (some (some instant)) = ok instant

  -- _timestamp
  unfoldable pub read_time : Value → Result Error ℕ
  read_time (text t) = with_timezone (r.parse_time t)
  read_time _ = err invalid_time

  unfoldable pub read_uuid : Error → Value → Result Error ℕ
  read_uuid e v = require e (r.parse_uuid (r.show v))

  unfoldable pub as_dict : DeviceRecord → Value
  as_dict d = object (
      field (codes "device_id") (text (r.print_uuid d.device_id)) (
        field (codes "ui_id") (text (r.print_uuid d.ui_id)) (
          field (codes "label") (text d.label) (
            field (codes "token_digest") (text d.token_digest) (
              field (codes "created_at") (text (r.print_time d.created_at)) (
                field (codes "last_used_at") (text (r.print_time d.last_used_at)) (
                  field (codes "expires_at") (text (r.print_time d.expires_at)) (
                    field (codes "allowed_worlds") (array (from_texts d.allowed_worlds)) (
                      field (codes "tailscale_login") (text d.tailscale_login)
                        (field (codes "scope") (text d.scope) end))))))))))

  -- The checks of from_dict in their order, on a dictionary that has the keys of a record.
  unfoldable pub from_fields : Fields → Result Error DeviceRecord
  from_fields fields = do
    label ← read_text is_label invalid_label (get_or (codes "label") null fields)
    digest ← read_text is_digest invalid_digest (get_or (codes "token_digest") null fields)
    scope ←
        read_text (λ t. text_eq t (codes "chat")) invalid_scope (get_or (codes "scope") null fields)
    let created = get_or (codes "created_at") null fields
    created_at ← read_time created
    last_used_at ← read_time (get_or (codes "last_used_at") created fields)
    expires_at ← read_time (get_or (codes "expires_at") null fields)
    guard (leb created_at last_used_at && leb last_used_at expires_at) outside_lifetime
    worlds ← read_worlds (get_or (codes "allowed_worlds") null fields)
    login ← read_text is_login invalid_login (get_or (codes "tailscale_login") null fields)
    device_id ← read_uuid invalid_device_id (get_or (codes "device_id") null fields)
    ui_id ← read_uuid invalid_ui_id (get_or (codes "ui_id") (text (r.print_uuid device_id)) fields)
    ok (record {
      device_id = device_id;
      ui_id = ui_id;
      label = label;
      token_digest = digest;
      created_at = created_at;
      last_used_at = last_used_at;
      expires_at = expires_at;
      allowed_worlds = worlds;
      tailscale_login = login;
      scope = scope;
    })

  unfoldable pub from_dict : Value → Result Error DeviceRecord
  from_dict (object fields) =
      if has_record_keys fields then from_fields fields else err invalid_fields
  from_dict _ = err invalid_fields
