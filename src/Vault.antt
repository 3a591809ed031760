-- ===== src/Vault.antt =====
-- src/zsec_shield/crypto_vault.py: the device key, the key envelope of an entry, and the authentication of metadata.
pub mod Lookup
pub mod Opening
pub mod Device
use zsec_shield.Prelude.{
  ℕ, Bool, true, false, not, ◌&&◌, ◌||◌, Option, none, some, String, List, [], ◌∷◌, ◌++◌, str_eq,
  codes, length, all, ltb, ◌==◌, if◌then◌else◌, Result, ok, err, ◌>>=◌, ◌>>◌, guard, or_raise,
}
use zsec_shield.Json.{Json, text, object, Fields, end, field, get_field, has_exact_keys}
use zsec_shield.Json.Strict.{insert_field}
use zsec_shield.Zba.{without, text_of, as_fields}

-- The messages of the `QuarantineError`s raised here.
pub data VaultError : Type 0 where
  not_an_object wrong_fields unsupported_field unsupported_protection not_base64_text invalid_base64
        wrong_length :
      VaultError
  unavailable unreadable_key invalid_record unsupported_schema protection_not_text not_sealed_here
        unsealed_here dpapi_failed wrong_key_length :
      VaultError
  key_authentication_failed invalid_mac authentication_failed : VaultError
  not_ascii : VaultError  -- no QuarantineError but the TypeError of `hmac.compare_digest`

-- `canonical` is for metadata that canonical_json_bytes encodes: its ValueError for an infinity or a lone surrogate is
-- not modelled here.
-- What the code uses of the cryptography package, hmac, base64, `canonical_json_bytes` and DPAPI; `windows` is
-- `os.name == "nt"`.
pub record Crypto : Type 0 where
  pub hkdf : List ℕ → Option (List ℕ) → List ℕ → List ℕ  -- the root, the salt and the info
  pub gcm_encrypt : List ℕ → List ℕ → List ℕ → List ℕ → List ℕ  -- the key, the nonce, the message and the aad
  pub gcm_decrypt : List ℕ → List ℕ → List ℕ → List ℕ → Option (List ℕ)
  pub hmac_hex : List ℕ → List ℕ → String
  pub b64encode : List ℕ → String
  pub b64decode : String → Option (List ℕ)  -- of `value.encode("ascii")`, with `validate=True`
  pub canonical : Fields → List ℕ
  pub windows : Bool
  pub dpapi_protect : List ℕ → Option (List ℕ)
  pub dpapi_unprotect : List ℕ → Option (List ℕ)

pub record DeviceRoot : Type 0 where
  pub key : List ℕ
  pub protection : String

pub record VaultEnvelope : Type 0 where
  pub salt : List ℕ
  pub wrap_nonce : List ℕ
  pub wrapped_key : List ℕ
  pub content_nonce : List ℕ

abbrev pub key_bytes : ℕ
key_bytes = 32

abbrev pub nonce_bytes : ℕ
nonce_bytes = 12

abbrev pub salt_bytes : ℕ
salt_bytes = 32

abbrev pub wrap_info : List ℕ
wrap_info = codes "ZERO-SECURITY/ZSV2/KEY-WRAP/V1" ++ 0 ∷ []

abbrev pub mac_info : List ℕ
mac_info = codes "ZERO-SECURITY/ZSV2/METADATA-MAC/V1" ++ 0 ∷ []

-- `_decode_variable`, of the answer of `value.get`
unfoldable pub decode_variable : Crypto → Option Json → Result VaultError (List ℕ)
decode_variable c value = do
  s ← or_raise (text_of value) not_base64_text
  or_raise (c.b64decode s) invalid_base64

-- `_decode`
unfoldable pub decode : Crypto → Option Json → ℕ → Result VaultError (List ℕ)
decode c value expected = do
  decoded ← decode_variable c value
  guard (length decoded == expected) wrong_length
  ok decoded

-- `VaultEnvelope.to_dict`
unfoldable pub to_dict : Crypto → VaultEnvelope → String → Fields
to_dict c e protection = field "cipher" (text "AES-256-GCM") (
    field "content_nonce" (text (c.b64encode e.content_nonce)) (
      field "device_key_protection" (text protection) (
        field "format" (text "ZSV2") (
          field "key_derivation" (text "HKDF-SHA-256") (
            field "profile" (text "zero-security-quarantine-aes256gcm-v1") (
              field "salt" (text (c.b64encode e.salt)) (
                field "wrap_nonce" (text (c.b64encode e.wrap_nonce))
                  (field "wrapped_key" (text (c.b64encode e.wrapped_key)) end))))))))

abbrev pub holds_text : String → Option Json → Bool
holds_text expected (some (text s)) = str_eq s expected
holds_text expected _ = false

-- The loop over `expected`.
unfoldable pub is_supported : Fields → Bool
is_supported fs =
    holds_text "ZSV2" (get_field "format" fs)
    && holds_text "zero-security-quarantine-aes256gcm-v1" (get_field "profile" fs)
    && holds_text "AES-256-GCM" (get_field "cipher" fs)
    && holds_text "HKDF-SHA-256" (get_field "key_derivation" fs)

unfoldable pub is_protection : Option Json → Bool
is_protection o =
    holds_text "windows-dpapi-current-user" o || holds_text "filesystem-0600-preview" o

abbrev pub envelope_fields : List String
envelope_fields =
    "format" ∷ "profile" ∷ "cipher" ∷ "key_derivation" ∷ "device_key_protection" ∷ "salt"
    ∷ "wrap_nonce" ∷ "wrapped_key" ∷ "content_nonce" ∷ []

-- `VaultEnvelope.from_dict`
unfoldable pub from_dict : Crypto → Json → Result VaultError VaultEnvelope
from_dict c value = do
  fs ← or_raise (as_fields value) not_an_object
  guard (has_exact_keys envelope_fields fs) wrong_fields
  guard (is_supported fs) unsupported_field
  guard (is_protection (get_field "device_key_protection" fs)) unsupported_protection
  salt ← decode c (get_field "salt" fs) salt_bytes
  wrap_nonce ← decode c (get_field "wrap_nonce" fs) nonce_bytes
  wrapped_key ← decode c (get_field "wrapped_key" fs) 48
  content_nonce ← decode c (get_field "content_nonce" fs) nonce_bytes
  ok (record {
    salt = salt;
    wrap_nonce = wrap_nonce;
    wrapped_key = wrapped_key;
    content_nonce = content_nonce;
  })

abbrev pub wrap_key : Crypto → DeviceRoot → String → List ℕ → List ℕ
wrap_key c device entry_id salt = c.hkdf device.key (some salt) (wrap_info ++ codes entry_id)

-- What `os.urandom` returns for the content key, the salt and the two nonces.
pub record Fresh : Type 0 where
  pub content_key : List ℕ
  pub salt : List ℕ
  pub wrap_nonce : List ℕ
  pub content_nonce : List ℕ

-- `create_envelope`
unfoldable pub create_envelope :
    Crypto → Fresh → DeviceRoot → String → List ℕ → VaultEnvelope × List ℕ
create_envelope c fresh device entry_id aad = (
  record {
    salt = fresh.salt;
    wrap_nonce = fresh.wrap_nonce;
    wrapped_key =
        c.gcm_encrypt (wrap_key c device entry_id fresh.salt) fresh.wrap_nonce fresh.content_key
          aad;
    content_nonce = fresh.content_nonce;
  },
  fresh.content_key,
)

-- `unwrap_content_key`
unfoldable pub unwrap_content_key :
    Crypto → DeviceRoot → String → VaultEnvelope → List ℕ → Result VaultError (List ℕ)
unwrap_content_key c device entry_id e aad = do
  key ←
      or_raise (c.gcm_decrypt (wrap_key c device entry_id e.salt) e.wrap_nonce e.wrapped_key aad)
        key_authentication_failed
  guard (length key == key_bytes) wrong_key_length
  ok key

-- The MAC that `sign_metadata` computes.
unfoldable pub mac_of : Crypto → DeviceRoot → Fields → String
mac_of c device metadata =
    c.hmac_hex (c.hkdf device.key none mac_info) (c.canonical (without "metadata_mac" metadata))

-- `sign_metadata`
unfoldable pub sign_metadata : Crypto → DeviceRoot → Fields → Fields
sign_metadata c device metadata =
    insert_field "metadata_mac" (text (mac_of c device metadata)) (without "metadata_mac" metadata)

-- `hmac.compare_digest` takes texts of ASCII only.
abbrev pub is_ascii : ℕ → Bool
is_ascii c = ltb c 128

-- `verify_metadata`
unfoldable pub verify_metadata : Crypto → DeviceRoot → Fields → Result VaultError (Unit {0})
verify_metadata c device metadata = do
  supplied ← or_raise (text_of (get_field "metadata_mac" metadata)) invalid_mac
  guard (length (codes supplied) == 64) invalid_mac
  guard (all is_ascii (codes supplied)) not_ascii
  guard (str_eq supplied (mac_of c device metadata)) authentication_failed
