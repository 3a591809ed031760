-- ===== src/Vault/Opening.antt =====
-- Proofs on the envelopes and the signed metadata of src/zsec_shield/crypto_vault.py.
use zsec_shield.Prelude.{
  all, str_eq, ℕ, ◌+◌, ◌≡◌, ◌↔◌, refl, sym, ap, ◌∙◌, arith, Bool, true, false, none, some, String,
  List, eq_iff, codes, length, ◌==◌, ok, ◌>>=◌, guard, or_raise, >>=-eq-ok, guard-eq-ok,
  or_raise-eq-ok,
}
use zsec_shield.Json.{text, object, Fields, get_field, has_exact_keys}
use zsec_shield.Zba.{without, text_of}
use zsec_shield.Vault.Lookup.{
  get_field-without, get_field-insert_new, without-insert, without_twice,
}
use zsec_shield.Vault.{
  is_ascii, not_ascii, authentication_failed, Crypto, DeviceRoot, VaultEnvelope, key_bytes,
  nonce_bytes, salt_bytes, decode_variable, decode, to_dict, is_supported, is_protection, from_dict,
  wrap_key, Fresh, create_envelope, unwrap_content_key, mac_info, mac_of, sign_metadata,
  verify_metadata,
}

-- What is relied on: base64 and AES-GCM give back what they were given, a tag is 16 bytes, an HMAC-SHA-256 is 64 digits.
pub record HasCiphers (c : Crypto) : Type 0 where
  pub base64 : (bytes : List ℕ) → c.b64decode (c.b64encode bytes) ≡ some bytes
  pub gcm :
      (key nonce message aad : List ℕ)
      → c.gcm_decrypt key nonce (c.gcm_encrypt key nonce message aad) aad ≡ some message
  pub gcm_length :
      (key nonce message aad : List ℕ)
      → length (c.gcm_encrypt key nonce message aad) ≡ length message + 16
  pub mac_length : (key message : List ℕ) → length (codes (c.hmac_hex key message)) ≡ 64
  pub mac_ascii : (key message : List ℕ) → all is_ascii (codes (c.hmac_hex key message)) ≡ true

pub record HasSizes (fresh : Fresh) : Type 0 where
  pub content_key : length fresh.content_key ≡ key_bytes
  pub salt : length fresh.salt ≡ salt_bytes
  pub wrap_nonce : length fresh.wrap_nonce ≡ nonce_bytes
  pub content_nonce : length fresh.content_nonce ≡ nonce_bytes

decode-encode :
    (c : Crypto) (laws : HasCiphers c) (bytes : List ℕ) (n : ℕ)
    → length bytes ≡ n
    → decode c (some (text (c.b64encode bytes))) n ≡ ok bytes
unfolding decode decode_variable or_raise ◌>>=◌ guard
decode-encode c laws bytes n e =
    let same : (length bytes == n) ≡ true = ground arith in rw (laws.base64 bytes, same) refl

from_dict-to_dict :
    (c : Crypto) (laws : HasCiphers c) (e : VaultEnvelope) (protection : String)
    → length e.salt ≡ salt_bytes
    → length e.wrap_nonce ≡ nonce_bytes
    → length e.wrapped_key ≡ 48
    → length e.content_nonce ≡ nonce_bytes
    → is_protection (some (text protection)) ≡ true
    → from_dict c (object (to_dict c e protection)) ≡ ok e
unfolding from_dict to_dict get_field has_exact_keys is_supported ◌>>=◌ guard or_raise
from_dict-to_dict c laws e protection hs hw hk hn hp =
    rw
      (
        hp,
        decode-encode c laws e.salt _ hs,
        decode-encode c laws e.wrap_nonce _ hw,
        decode-encode c laws e.wrapped_key _ hk,
        decode-encode c laws e.content_nonce _ hn,
      )
      refl

-- An envelope that was created for an entry is read back from its record as it was, and gives the content key for the
-- same device, entry and authenticated data; base64 and AES-GCM are relied on to give back what they were given.
pub unwrap-create :
    (c : Crypto) (laws : HasCiphers c) (fresh : Fresh) (device : DeviceRoot)
    (entry_id protection : String) (aad : List ℕ)
    → HasSizes fresh
    → is_protection (some (text protection)) ≡ true
    → (from_dict c (object (to_dict c (create_envelope c fresh device entry_id aad).0 protection))
        ≡ ok (create_envelope c fresh device entry_id aad).0)
      × (unwrap_content_key c device entry_id (create_envelope c fresh device entry_id aad).0 aad
          ≡ ok (create_envelope c fresh device entry_id aad).1)
unfolding create_envelope unwrap_content_key ◌>>=◌ guard or_raise
unwrap-create c laws fresh device entry_id protection aad sizes hp =
    let k = wrap_key c device entry_id fresh.salt in
    let wrapped = c.gcm_encrypt k fresh.wrap_nonce fresh.content_key aad in
    let long : length wrapped ≡ 48 =
      omega (arith, laws.gcm_length k fresh.wrap_nonce fresh.content_key aad, sizes.content_key) in
    let sized : (length fresh.content_key == key_bytes) ≡ true =
      ground (arith, sizes.content_key) in
    (
      from_dict-to_dict c laws _ protection sizes.salt sizes.wrap_nonce long sizes.content_nonce hp,
      rw (laws.gcm k fresh.wrap_nonce fresh.content_key aad, sized) refl,
    )

mac-sign :
    (c : Crypto) (device : DeviceRoot) (metadata : Fields)
    → (get_field "metadata_mac" (sign_metadata c device metadata)
        ≡ some (text (mac_of c device metadata)))
      × (mac_of c device (sign_metadata c device metadata) ≡ mac_of c device metadata)
unfolding sign_metadata mac_of
mac-sign c device metadata =
    let k : String = "metadata_mac" in
    let bare = without k metadata in
    (
      get_field-insert_new k _ bare (get_field-without k metadata),
      ap (λ (fs : Fields). c.hmac_hex (c.hkdf device.key none mac_info) (c.canonical fs))
          (without-insert k _ bare ∙ without_twice k metadata),
    )

guard_passed : {E : Type 0} (b : Bool) (e : E) → guard b e ≡ ok tt → b ≡ true
unfolding guard
guard_passed true e h = refl
guard_passed false e h = cc

-- A device verifies metadata exactly if it carries the device's MAC of all its other fields.
pub verify_metadata_exact :
    (c : Crypto) (laws : HasCiphers c) (device : DeviceRoot) (metadata : Fields)
    → (verify_metadata c device metadata ≡ ok tt)
      ↔ (text_of (get_field "metadata_mac" metadata) ≡ some (mac_of c device metadata))
unfolding verify_metadata mac_of ◌>>=◌ guard or_raise
verify_metadata_exact c laws device metadata = (verified, accepted)
  where
    m : String
    m = mac_of c device metadata

    verified :
        verify_metadata c device metadata ≡ ok tt
        → text_of (get_field "metadata_mac" metadata) ≡ some m
    verified h =
        let (supplied, read, h1) = >>=-eq-ok _ _ h in
        let (long, h2) = guard-eq-ok _ _ _ h1 in
        let (plain, h3) =
          guard-eq-ok (all is_ascii (codes supplied)) not_ascii
            (guard (str_eq supplied m) authentication_failed) h2 in
        or_raise-eq-ok _ _ read
        ∙ ap some
            ((eq_iff supplied m).0 (guard_passed (str_eq supplied m) authentication_failed h3))

    accepted :
        text_of (get_field "metadata_mac" metadata) ≡ some m
        → verify_metadata c device metadata ≡ ok tt
    accepted h =
        let long : (length (codes m) == 64) ≡ true = ground (
          arith,
          laws.mac_length (c.hkdf device.key none mac_info)
              (c.canonical (without "metadata_mac" metadata)),
        ) in
        let plain : all is_ascii (codes m) ≡ true =
          laws.mac_ascii (c.hkdf device.key none mac_info)
            (c.canonical (without "metadata_mac" metadata)) in
        rw (h, long, plain, (eq_iff m m).1 refl) refl

-- Metadata that a device has signed is verified by that device, whatever MAC it carried before.
pub verify-sign :
    (c : Crypto) (laws : HasCiphers c) (device : DeviceRoot) (metadata : Fields)
    → verify_metadata c device (sign_metadata c device metadata) ≡ ok tt
verify-sign c laws device metadata =
    let (found, same) = mac-sign c device metadata in
    (verify_metadata_exact c laws device (sign_metadata c device metadata)).1
      (ap (λ o. text_of o) found ∙ ap some (sym same))
