-- ===== src/Tests/Vault.antt =====
-- The vault with a cipher that only pads, and a text code of bytes in unary.
use zsec_shield.Prelude.{
  ℕ, zero, suc, ◌+◌, ◌≡◌, ◌↔◌, refl, ap, ◌∙◌, arith, true, false, Option, none, some, String, List,
  [], ◌∷◌, ◌++◌, drop, ◌==◌, if◌then◌else◌, ok, ◌>>=◌, or_raise, guard,
}
use Prim.Native.Char.{code}
use zsec_shield.Json.{get_field, has_exact_keys, Fields, end, field, text, object}
use zsec_shield.Zba.{text_of}
use zsec_shield.Vault.{
  Crypto, DeviceRoot, VaultEnvelope, Fresh, decode_variable, is_protection, to_dict, from_dict,
  create_envelope, unwrap_content_key, verify_metadata, mac_of,
}
use zsec_shield.Vault.Opening.{HasCiphers, HasSizes, unwrap-create, verify_metadata_exact}
use zsec_shield.Vault.Device.{
  KeyFile, absent, holds, key_record, preview, HasSeal, load_device_root, read_device_root,
  load_twice,
}

abbrev unary : ℕ → String → String
unary zero s = String.◌∷◌ "b" s
unary (suc n) s = String.◌∷◌ "a" (unary n s)

abbrev encoded : List ℕ → String
encoded [] = ""
encoded (n ∷ ns) = unary n (encoded ns)

abbrev with_head : ℕ → Option (List ℕ) → Option (List ℕ)
with_head n none = none
with_head n (some ns) = some (n ∷ ns)

abbrev decoded : ℕ → String → Option (List ℕ)
decoded n String.[] = some []
decoded n (String.◌∷◌ c s) =
    let more = decoded (suc n) s in
    let next = with_head n (decoded 0 s) in if code c == 97 then more else next

decoded-unary : (n k : ℕ) (s : String) → decoded k (unary n s) ≡ with_head (k + n) (decoded 0 s)
decoded-unary zero k s = let e : k ≡ k + zero = omega arith in ap (λ m. with_head m (decoded 0 s)) e
decoded-unary (suc n) k s =
    let e : suc k + n ≡ k + suc n = omega arith in
    decoded-unary n (suc k) s ∙ ap (λ m. with_head m (decoded 0 s)) e

decoded-encoded : (ns : List ℕ) → decoded 0 (encoded ns) ≡ some ns
decoded-encoded [] = refl
decoded-encoded (n ∷ ns) =
    let e : 0 + n ≡ n = omega arith in
    decoded-unary n 0 (encoded ns) ∙ (rw (decoded-encoded ns, e) refl)

abbrev pub sixteen : List ℕ
sixteen = 0 ∷ 0 ∷ 0 ∷ 0 ∷ 0 ∷ 0 ∷ 0 ∷ 0 ∷ 0 ∷ 0 ∷ 0 ∷ 0 ∷ 0 ∷ 0 ∷ 0 ∷ 0 ∷ []

abbrev pub crypto : Crypto
crypto = record {
  hkdf = λ root salt info. root;
  gcm_encrypt = λ key nonce message aad. sixteen ++ message;
  gcm_decrypt = λ key nonce message aad. some (drop 16 message);
  hmac_hex = λ key message. "0000000000000000000000000000000000000000000000000000000000000000";
  b64encode = encoded;
  b64decode = decoded 0;
  canonical = λ fs. [];
  windows = false;
  dpapi_protect = λ key. none;
  dpapi_unprotect = λ key. none;
}

pub crypto-HasCiphers : HasCiphers crypto
crypto-HasCiphers = record {
  base64 = decoded-encoded;
  gcm = λ key nonce message aad. refl;
  gcm_length = λ key nonce message aad. omega arith;
  mac_length = λ key message. refl;
  mac_ascii = λ key message. refl;
}

abbrev pub fresh : Fresh
fresh = record {
  content_key = sixteen ++ sixteen;
  salt = sixteen ++ sixteen;
  wrap_nonce = 1 ∷ 2 ∷ 3 ∷ 4 ∷ 5 ∷ 6 ∷ 7 ∷ 8 ∷ 9 ∷ 1 ∷ 2 ∷ 3 ∷ [];
  content_nonce = 1 ∷ 2 ∷ 3 ∷ 4 ∷ 5 ∷ 6 ∷ 7 ∷ 8 ∷ 9 ∷ 1 ∷ 2 ∷ 4 ∷ [];
}

pub fresh-HasSizes : HasSizes fresh
fresh-HasSizes = record { content_key = refl; salt = refl; wrap_nonce = refl; content_nonce = refl }

abbrev pub device : DeviceRoot
device = record { key = sixteen ++ sixteen; protection = preview }

abbrev made : VaultEnvelope × List ℕ
made = create_envelope crypto fresh device "e1" (7 ∷ [])

unwrap-create_example :
    (from_dict crypto (object (to_dict crypto made.0 preview)) ≡ ok made.0)
    × (unwrap_content_key crypto device "e1" made.0 (7 ∷ []) ≡ ok made.1)
unfolding is_protection
unwrap-create_example =
    unwrap-create crypto crypto-HasCiphers fresh device "e1" preview (7 ∷ []) fresh-HasSizes refl

abbrev note : Fields
note = field "id" (text "e1") end

verify_metadata_exact_example :
    (verify_metadata crypto device note ≡ ok tt)
    ↔ (text_of (get_field "metadata_mac" note) ≡ some (mac_of crypto device note))
verify_metadata_exact_example = verify_metadata_exact crypto crypto-HasCiphers device note

crypto-HasSeal : HasSeal crypto
crypto-HasSeal = record { base64 = decoded-encoded; dpapi = λ key sealed h. cc }

abbrev written : KeyFile
written = holds (key_record crypto preview (sixteen ++ sixteen))

first_load : load_device_root crypto (sixteen ++ sixteen) true absent ≡ ok (written, device)
unfolding load_device_root ◌>>=◌ read_device_root or_raise key_record guard has_exact_keys get_field
    decode_variable
first_load = refl

load_twice_example :
    (device.key ≡ sixteen ++ sixteen)
    × (load_device_root crypto [] false written ≡ ok (written, device))
load_twice_example =
    load_twice crypto crypto-HasSeal (sixteen ++ sixteen) [] false written device first_load
