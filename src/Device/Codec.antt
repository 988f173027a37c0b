-- ===== src/Device/Codec.antt =====
-- DeviceRecord.from_dict of src/tfr/gateway_devices.py accepts what as_dict writes, and valid records only.
use tfr.Base.{
  ℕ, ◌≡◌, ◌≤◌, refl, ap, ◌∙◌, Bool, true, ◌&&◌, List, leb, arith, ok, Bool-cases, inl, inr, text_eq,
  codes,
}
use tfr.Json.{
  Value, text, array, object, Fields, get_or, has_key, has_exactly, is_among, from_texts, null,
}
use tfr.Json.Lookup.{as_texts-from_texts, text_eq_sound}
use tfr.Device.{
  Runtime, Documented, DeviceRecord, Error, is_label, is_digest, is_login, are_worlds, read_text,
  read_worlds, checked_worlds, with_timezone, read_time, read_uuid, as_dict, from_fields, from_dict,
  has_record_keys, invalid_label, invalid_digest, invalid_scope, invalid_login,
}

module _ (r : Runtime) where
  -- What the store promises of each record.
  pub record IsValid (d : DeviceRecord) : Type 0 where
    pub labelled : is_label r d.label ≡ true
    pub digest : is_digest r d.token_digest ≡ true
    pub login : is_login r d.tailscale_login ≡ true
    pub worlds : are_worlds r d.allowed_worlds ≡ true
    pub chat : d.scope ≡ codes "chat"
    pub used_after : d.created_at ≤ d.last_used_at
    pub used_before : d.last_used_at ≤ d.expires_at

  read_text-ok :
      (test : List ℕ → Bool) (e : Error) (v : Value) (t : List ℕ)
      → read_text r test e v ≡ ok t
      → test t ≡ true
  unfolding read_text
  read_text-ok test e v t h = ground arith

  read_worlds-ok :
      (v : Value) (ws : List (List ℕ)) → read_worlds r v ≡ ok ws → are_worlds r ws ≡ true
  unfolding read_worlds checked_worlds
  read_worlds-ok v ws h = ground arith

  text_read :
      (test : List ℕ → Bool) (e : Error) (t : List ℕ)
      → test t ≡ true
      → read_text r test e (text t) ≡ ok t
  unfolding read_text
  text_read test e t h = rw h refl

  worlds_read :
      (ws : List (List ℕ)) → are_worlds r ws ≡ true → read_worlds r (array (from_texts ws)) ≡ ok ws
  unfolding read_worlds checked_worlds
  worlds_read ws h = ap (checked_worlds r) (as_texts-from_texts ws) ∙ rw h refl

  module _ (doc : Documented r) where
    time_read : (t : ℕ) → read_time r (text (r.print_time t)) ≡ ok t
    unfolding read_time with_timezone
    time_read t = ap (with_timezone r) (doc.time_read t)

    uuid_read : (e : Error) (u : ℕ) → read_uuid r e (text (r.print_uuid u)) ≡ ok u
    unfolding read_uuid
    uuid_read e u = simp (doc.text_shown (r.print_uuid u), doc.uuid_read u)

    -- A valid record that is written is read back as it was.
    pub from_dict-as_dict : (d : DeviceRecord) → IsValid d → from_dict r (as_dict r d) ≡ ok d
    unfolding from_dict as_dict has_record_keys has_exactly has_key is_among text_eq from_fields
        get_or
    from_dict-as_dict d v =
        let chat : text_eq d.scope (codes "chat") ≡ true = rw v.chat refl in
        let ordered : (leb d.created_at d.last_used_at && leb d.last_used_at d.expires_at) ≡ true =
          (let a = v.used_after in let b = v.used_before in ground arith) in
        simp (
          text_read (is_label r) invalid_label d.label v.labelled,
          text_read (is_digest r) invalid_digest d.token_digest v.digest,
          text_read (λ (t : List ℕ). text_eq t (codes "chat")) invalid_scope d.scope chat,
          text_read (is_login r) invalid_login d.tailscale_login v.login,
          worlds_read d.allowed_worlds v.worlds,
          time_read,
          uuid_read,
          ordered,
        )

  chat_only : (t : List ℕ) → text_eq t (codes "chat") ≡ true → t ≡ codes "chat"
  chat_only t h = text_eq_sound t (codes "chat") h

  from_fields-IsValid :
      (fields : Fields) (d : DeviceRecord) → from_fields r fields ≡ ok d → IsValid d
  unfolding from_fields
  from_fields-IsValid fields d h = record {
    labelled = ground (
      arith,
      read_text-ok (is_label r) invalid_label (get_or (codes "label") null fields) d.label,
    );
    digest = ground (
      arith,
      read_text-ok (is_digest r) invalid_digest (get_or (codes "token_digest") null fields)
          d.token_digest,
    );
    login = ground (
      arith,
      read_text-ok (is_login r) invalid_login (get_or (codes "tailscale_login") null fields)
          d.tailscale_login,
    );
    worlds =
        ground
          (arith, read_worlds-ok (get_or (codes "allowed_worlds") null fields) d.allowed_worlds);
    chat = chat_only d.scope (
        ground (
          arith,
          read_text-ok (λ (t : List ℕ). text_eq t (codes "chat")) invalid_scope
              (get_or (codes "scope") null fields) d.scope,
        ));
    used_after = ground arith;
    used_before = ground arith;
  }

  -- What is read is a valid record.
  pub from_dict-IsValid : (v : Value) (d : DeviceRecord) → from_dict r v ≡ ok d → IsValid d
  unfolding from_dict
  from_dict-IsValid (object fields) d = elim (Bool-cases (has_record_keys fields)) [
    | inl e ↦ rw e (from_fields-IsValid fields d)
    | inr e ↦ rw e (λ h. cc)
  ]
  from_dict-IsValid _ d = λ h. cc
