-- ===== src/Quarantine/Opening.antt =====
-- Proofs on the decryption of a content that src/zsec_shield/quarantine.py has prepared.
use zsec_shield.Prelude.{
  ℕ, ◌≡◌, refl, sym, ◌∙◌, subst, arith, true, false, some, String, List, [], ◌∷◌, str_eq, length,
  ◌==◌, All, any, Result, ok, ◌>>=◌, guard, or_raise, leb_text,
}
use zsec_shield.Json.{Json, int, text, object, Fields, get_field}
use zsec_shield.Json.Strict.{insert_field}
use zsec_shield.Models.{FileFinding}
use zsec_shield.Zba.{without}
use zsec_shield.Vault.{
  Crypto, VaultError, DeviceRoot, VaultEnvelope, Fresh, to_dict, is_protection, create_envelope,
  sign_metadata,
}
use zsec_shield.Vault.Lookup.{get_field-without_other, get_field-insert_other}
use zsec_shield.Vault.Opening.{HasCiphers, HasSizes, unwrap-create}
use zsec_shield.Quarantine.{
  Tools, SourceSnapshot, project, aad_fields, aad_of, set_field, new_metadata,
}
use zsec_shield.Quarantine.Moving.{with_vault}
use zsec_shield.Quarantine.Reading.{decode_content_tag, size_is, decrypt_content}

-- What is relied on beside the vault's ciphers: the content's cipher gives back what it was given, and keeps its length.
pub record HasTools (t : Tools) : Type 0 where
  pub ciphers : HasCiphers t.crypto
  pub content :
      (key nonce aad plaintext : List ℕ)
      → t.decrypt key nonce aad
          (t.encrypt key nonce aad plaintext).1
          (t.encrypt key nonce aad plaintext).0
        ≡ some plaintext
  pub content_length :
      (key nonce aad plaintext : List ℕ)
      → length (t.encrypt key nonce aad plaintext).0 ≡ length plaintext
  pub tag_length :
      (key nonce aad plaintext : List ℕ) → length (t.encrypt key nonce aad plaintext).1 ≡ 16

-- The entries that the decryption reads.
abbrev sealed_names : List String
sealed_names = "size" ∷ "vault" ∷ "content_tag" ∷ aad_fields

abbrev pub AgreesOn : List String → Fields → Fields → Type 0
AgreesOn names m n = All (λ (k : String). get_field k m ≡ get_field k n) names

project-same :
    (names : List String) (m n : Fields) → AgreesOn names m n → project names m ≡ project names n
project-same [] m n h = refl
project-same (k ∷ ks) m n h = rw (h.0, project-same ks m n h.1) refl

aad_of-same : (t : Tools) (m n : Fields) → AgreesOn aad_fields m n → aad_of t m ≡ aad_of t n
unfolding aad_of
aad_of-same t m n h = rw (project-same aad_fields m n h) refl

pub decrypt_content-same :
    (t : Tools) (device : Result VaultError DeviceRoot) (m n : Fields) (content : List ℕ)
    → AgreesOn sealed_names m n
    → decrypt_content t device m content ≡ decrypt_content t device n content
unfolding decrypt_content
decrypt_content-same t device m n content h =
    let (size, after_size) = h in
    let (vault, after_vault) = after_size in
    let (tag, rest) = after_vault in
    let (created, after_created) = rest in
    let (id, others) = after_created in rw (size, vault, tag, id, aad_of-same t m n rest) refl

none_of :
    (k j : String) (names : List String)
    → any (str_eq k) (j ∷ names) ≡ false
    → (str_eq k j ≡ false) × (any (str_eq k) names ≡ false)
none_of k j names h = (ground arith, ground arith)

-- A write of another key changes none of them.
set_field-AgreesOn :
    (k : String) (v : Json) (m : Fields) (names : List String)
    → any (str_eq k) names ≡ false
    → AgreesOn names (set_field k v m) m
unfolding set_field
set_field-AgreesOn k v m [] h = tt
set_field-AgreesOn k v m (j ∷ names) h =
    let (apart, rest) = none_of k j names h in
    (
      get_field-insert_other k j v (without k m) apart ∙ get_field-without_other k j m apart,
      set_field-AgreesOn k v m names rest,
    )

sign_metadata-AgreesOn :
    (c : Crypto) (device : DeviceRoot) (m : Fields) (names : List String)
    → any (str_eq "metadata_mac") names ≡ false
    → AgreesOn names (sign_metadata c device m) m
unfolding sign_metadata
sign_metadata-AgreesOn c device m [] h = tt
sign_metadata-AgreesOn c device m (j ∷ names) h =
    let (apart, rest) = none_of "metadata_mac" j names h in
    (
      get_field-insert_other "metadata_mac" j _ (without "metadata_mac" m) apart
          ∙ get_field-without_other "metadata_mac" j m apart,
      sign_metadata-AgreesOn c device m names rest,
    )

-- The state, the time of the quarantine and the MAC may change: the content opens as before.
pub decrypt_content-state :
    (t : Tools) (device : Result VaultError DeviceRoot) (m : Fields) (v : Json) (content : List ℕ)
    → decrypt_content t device (set_field "state" v m) content ≡ decrypt_content t device m content
decrypt_content-state t device m v content =
    decrypt_content-same t device _ m content (set_field-AgreesOn "state" v m sealed_names refl)

pub decrypt_content-quarantined_at :
    (t : Tools) (device : Result VaultError DeviceRoot) (m : Fields) (v : Json) (content : List ℕ)
    → decrypt_content t device (set_field "quarantined_at" v m) content
      ≡ decrypt_content t device m content
decrypt_content-quarantined_at t device m v content =
    decrypt_content-same t device _ m content
      (set_field-AgreesOn "quarantined_at" v m sealed_names refl)

pub decrypt_content-sign :
    (t : Tools) (device : Result VaultError DeviceRoot) (root : DeviceRoot) (m : Fields)
    (content : List ℕ)
    → decrypt_content t device (sign_metadata t.crypto root m) content
      ≡ decrypt_content t device m content
decrypt_content-sign t device root m content =
    decrypt_content-same t device _ m content
      (sign_metadata-AgreesOn t.crypto root m sealed_names refl)

pub decode_content_tag-encode :
    (t : Tools) (laws : HasTools t) (tag : List ℕ)
    → length tag ≡ 16
    → decode_content_tag t (some (text (t.crypto.b64encode tag))) ≡ ok tag
unfolding decode_content_tag ◌>>=◌ guard or_raise
decode_content_tag-encode t laws tag e =
    let same : (length tag == 16) ≡ true = ground arith in rw (laws.ciphers.base64 tag, same) refl

with_vault-fields :
    (t : Tools) (device : DeviceRoot) (e : VaultEnvelope) (tag : List ℕ) (finding : FileFinding)
    (s : SourceSnapshot) (entry_id created_at : String) (zba m : Fields)
    → m ≡ with_vault t device e tag (new_metadata finding s entry_id created_at zba)
    → (get_field "size" m ≡ some (int s.size))
      × (get_field "vault" m ≡ some (object (to_dict t.crypto e device.protection)))
      × (get_field "id" m ≡ some (text entry_id))
      × (get_field "content_tag" m ≡ some (text (t.crypto.b64encode tag)))
      × (aad_of t m ≡ aad_of t (new_metadata finding s entry_id created_at zba))
unfolding aad_of with_vault set_field new_metadata get_field insert_field without leb_text
with_vault-fields t device e tag finding s entry_id created_at zba m same =
    subst
      (λ (n : Fields).
        (get_field "size" n ≡ some (int s.size))
        × (get_field "vault" n ≡ some (object (to_dict t.crypto e device.protection)))
        × (get_field "id" n ≡ some (text entry_id))
        × (get_field "content_tag" n ≡ some (text (t.crypto.b64encode tag)))
        × (aad_of t n ≡ aad_of t (new_metadata finding s entry_id created_at zba)))
      (sym same) (refl, refl, refl, refl, refl)

pub size_is-int : (n m : ℕ) → n ≡ m → size_is n (some (int m)) ≡ true
size_is-int n m e = ground arith

-- The content that was encrypted under a new entry's key and metadata opens with that metadata.
pub decrypt-prepared :
    (t : Tools) (laws : HasTools t) (fresh : Fresh) (sizes : HasSizes fresh) (device : DeviceRoot)
    (finding : FileFinding) (s : SourceSnapshot) (entry_id created_at : String) (zba : Fields)
    (aad plaintext : List ℕ)
    → is_protection (some (text device.protection)) ≡ true
    → aad_of t (new_metadata finding s entry_id created_at zba) ≡ ok aad
    → length plaintext ≡ s.size
    → decrypt_content t
        (ok device)
        (with_vault t device
          (create_envelope t.crypto fresh device entry_id aad).0
          (t.encrypt fresh.content_key fresh.content_nonce aad plaintext).1
          (new_metadata finding s entry_id created_at zba))
        (t.encrypt fresh.content_key fresh.content_nonce aad plaintext).0
      ≡ ok plaintext
unfolding decrypt_content ◌>>=◌ guard or_raise create_envelope
decrypt-prepared t laws fresh sizes device finding s entry_id created_at zba aad plaintext hp ha
      hl =
    let made = create_envelope t.crypto fresh device entry_id aad in
    let (read, opened) =
      unwrap-create t.crypto laws.ciphers fresh device entry_id device.protection aad sizes hp in
    let sealed = t.encrypt fresh.content_key fresh.content_nonce aad plaintext in
    let (size, vault, id, tag, bound) =
      with_vault-fields t device made.0 sealed.1 finding s entry_id created_at zba _ refl in
    let long =
      size_is-int (length sealed.0) s.size
        (laws.content_length fresh.content_key fresh.content_nonce aad plaintext ∙ hl) in
    rw
      (
        size,
        long,
        vault,
        read,
        bound,
        ha,
        id,
        opened,
        tag,
        decode_content_tag-encode t laws sealed.1
            (laws.tag_length fresh.content_key fresh.content_nonce aad plaintext),
        laws.content fresh.content_key fresh.content_nonce aad plaintext,
      )
      refl
