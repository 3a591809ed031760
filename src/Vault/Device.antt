-- ===== src/Vault/Device.antt =====
-- `load_device_root` of src/zsec_shield/crypto_vault.py.
use zsec_shield.Prelude.{
  ℕ, Bool, true, false, Option, some, String, List, [], ◌∷◌, str_eq, length, ◌==◌, if◌then◌else◌,
  Result, ok, err, ◌>>=◌, ◌>>◌, guard, or_raise, ◌≡◌, refl, sym, ap, >>=-eq-ok, guard-eq-ok,
  or_raise-eq-ok, ok_injective, ok-bind, subst, ◌∙◌,
}
use zsec_shield.Json.{Json, text, object, end, field, get_field, has_exact_keys}
use zsec_shield.Zba.{text_of, as_fields}
use zsec_shield.Vault.{
  VaultError, Crypto, DeviceRoot, key_bytes, holds_text, decode_variable, unavailable,
  unreadable_key, invalid_record, unsupported_schema, unsupported_protection, protection_not_text,
  not_sealed_here, unsealed_here, dpapi_failed, wrong_key_length,
}

-- The key file: absent, or what `strict_json_loads` makes of its bytes; `broken` is an OSError or a FeedError. What
-- is written is what a later read decodes.
pub data KeyFile : Type 0 where
  absent broken : KeyFile
  holds : Json → KeyFile

abbrev pub preview : String
preview = "filesystem-0600-preview"

abbrev pub dpapi : String
dpapi = "windows-dpapi-current-user"

unfoldable pub key_record : Crypto → String → List ℕ → Json
key_record c protection protected_key = object (
    field "protected_key" (text (c.b64encode protected_key)) (
      field "protection" (text protection)
        (field "schema" (text "zero.security.device-root.v1") end)))

-- The record of a new key.
abbrev pub sealed_key : Crypto → Bool → List ℕ → Result VaultError Json
sealed_key c false key = ok (key_record c preview key)
sealed_key c true key = do
  protected_key ← or_raise (c.dpapi_protect key) dpapi_failed
  ok (key_record c dpapi protected_key)

-- The protected key of a record, by its protection and the platform.
abbrev pub unseal : Crypto → String → Bool → List ℕ → Result VaultError (List ℕ)
unseal c protection windows protected_key =
    if str_eq protection dpapi
    then if windows
      then or_raise (c.dpapi_unprotect protected_key) dpapi_failed
      else err not_sealed_here
    else if str_eq protection preview
    then if windows then err unsealed_here else ok protected_key
    else err unsupported_protection

-- What follows the creation.
unfoldable pub read_device_root : Crypto → KeyFile → Result VaultError DeviceRoot
read_device_root c absent = err unreadable_key
read_device_root c broken = err unreadable_key
read_device_root c (holds value) = do
  fs ← or_raise (as_fields value) invalid_record
  guard (has_exact_keys ("schema" ∷ "protection" ∷ "protected_key" ∷ []) fs) invalid_record
  guard (holds_text "zero.security.device-root.v1" (get_field "schema" fs)) unsupported_schema
  protection ← or_raise (text_of (get_field "protection" fs)) protection_not_text
  protected_key ← decode_variable c (get_field "protected_key" fs)
  key ← unseal c protection c.windows protected_key
  guard (length key == key_bytes) wrong_key_length
  ok (record { key = key; protection = protection })

-- `load_device_root`: the key file after it and the root; `random` is what `os.urandom` returns.
unfoldable pub load_device_root :
    Crypto → List ℕ → Bool → KeyFile → Result VaultError (KeyFile × DeviceRoot)
load_device_root c random true absent = do
  value ← sealed_key c c.windows random
  device ← read_device_root c (holds value)
  ok (holds value, device)
load_device_root c random false absent = err unavailable
load_device_root c random create file = do device ← read_device_root c file; ok (file, device)

-- What is relied on: base64 and DPAPI give back what they were given, on this platform.
pub record HasSeal (c : Crypto) : Type 0 where
  pub base64 : (bytes : List ℕ) → c.b64decode (c.b64encode bytes) ≡ some bytes
  pub dpapi :
      (key sealed : List ℕ)
      → c.dpapi_protect key ≡ some sealed
      → c.dpapi_unprotect sealed ≡ some key

read_record :
    (c : Crypto) (laws : HasSeal c) (protection : String) (protected_key key : List ℕ)
    → unseal c protection c.windows protected_key ≡ ok key
    → read_device_root c (holds (key_record c protection protected_key)) ≡ (
        guard (length key == key_bytes) wrong_key_length
        >> ok (record { key = key; protection = protection }))
unfolding read_device_root key_record decode_variable get_field has_exact_keys ◌>>=◌ guard or_raise
read_record c laws protection protected_key key e = rw (laws.base64 protected_key, e) refl

or_raise-some : {E : Type 0} {A : Type 0} (a : A) (e : E) → or_raise (some a) e ≡ ok a
unfolding or_raise
or_raise-some a e = refl

-- The record that is written for a key gives that key.
sealed_key-read :
    (c : Crypto) (laws : HasSeal c) (key : List ℕ) (b : Bool) (value : Json) (device : DeviceRoot)
    → c.windows ≡ b
    → sealed_key c b key ≡ ok value
    → read_device_root c (holds value) ≡ ok device
    → device.key ≡ key
sealed_key-read c laws key false value device w h r =
    let written : read_device_root c (holds (key_record c preview key)) ≡ ok device =
      subst (λ (v : Json). read_device_root c (holds v) ≡ ok device) (sym (ok_injective h)) r in
    let opened = read_record c laws preview key key (ap (λ b. unseal c preview b key) w) in
    let (sized, same) = guard-eq-ok _ _ _ (sym opened ∙ written) in
    ap (λ (d : DeviceRoot). d.key) (sym (ok_injective same))
sealed_key-read c laws key true value device w h r =
    let (s, protected, e) = >>=-eq-ok _ _ h in
    let written : read_device_root c (holds (key_record c dpapi s)) ≡ ok device =
      subst (λ (v : Json). read_device_root c (holds v) ≡ ok device) (sym (ok_injective e)) r in
    let unsealed : unseal c dpapi true s ≡ ok key =
      ap (λ (o : Option (List ℕ)). or_raise o dpapi_failed)
        (laws.dpapi key s (or_raise-eq-ok _ _ protected))
      ∙ or_raise-some key dpapi_failed in
    let opened = read_record c laws dpapi s key (ap (λ b. unseal c dpapi b s) w ∙ unsealed) in
    let (sized, same) = guard-eq-ok _ _ _ (sym opened ∙ written) in
    ap (λ (d : DeviceRoot). d.key) (sym (ok_injective same))

-- A device key that is created is the random one, and every later load, whatever it would create, gives the same root
-- and leaves the file as it is; base64 and DPAPI are relied on to give back what they were given.
pub load_twice :
    (c : Crypto) (laws : HasSeal c) (random other : List ℕ) (create : Bool) (file : KeyFile)
    (device : DeviceRoot)
    → load_device_root c random true absent ≡ ok (file, device)
    → (device.key ≡ random) × (load_device_root c other create file ≡ ok (file, device))
unfolding load_device_root
load_twice c laws random other create file device h =
    let (value, sealed, h1) = >>=-eq-ok _ _ h in
    let (root, read, h2) = >>=-eq-ok _ _ h1 in
    let same : (holds value, root) ≡ (file, device) = ok_injective h2 in
    subst
      (λ (r : KeyFile × DeviceRoot).
        (r.1.key ≡ random) × (load_device_root c other create r.0 ≡ ok r))
      same
      (
        sealed_key-read c laws random c.windows value root refl sealed read,
        again create value root read,
      )
  where
    again :
        (b : Bool) (value : Json) (root : DeviceRoot)
        → read_device_root c (holds value) ≡ ok root
        → load_device_root c other b (holds value) ≡ ok (holds value, root)
    again true value root e =
        ap (λ (r : Result VaultError DeviceRoot). r >>= λ d. ok (holds value, d)) e ∙ ok-bind root _
    again false value root e =
        ap (λ (r : Result VaultError DeviceRoot). r >>= λ d. ok (holds value, d)) e ∙ ok-bind root _
