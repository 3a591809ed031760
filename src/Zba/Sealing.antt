-- ===== src/Zba/Sealing.antt =====
-- What a validated record of src/zsec_shield/zba.py binds, and that a created record validates.
use zsec_shield.Prelude.{
  ℕ, ◌≡◌, true, Option, none, some, String, List, ◌++◌, refl, ap, ◌∙◌, subst, eq_iff, codes,
  &&_split, Result, ok, ◌>>=◌, guard, or_raise, >>=-eq-ok, guard-eq-ok, or_raise-eq-ok,
  ok_injective, ok-bind, leb_text,
}
use zsec_shield.Json.{Json, text, object, Fields, get_field, has_exact_keys}
use zsec_shield.Json.Strict.{insert_field}
use zsec_shield.Zba.{
  ZbaError, Primitives, zero_commitment, zba_domain, is_sha256, without, text_of, commitment,
  sealed_fields, create_quarantine_record, equals_text, equals_int, bound_fields_hold,
  constant_fields_hold, fixed_fields_hold, ends_with_z, as_fields, validate_quarantine_record,
}

-- A record that is bound to one entry and one payload by its commitment.
pub record IsSealed (p : Primitives) (entry_id payload_sha256 : String) (fs : Fields) : Type 0 where
  pub entry : get_field "asset_id" fs ≡ some (text entry_id)
  pub payload : get_field "payload_commitment" fs ≡ some (text payload_sha256)
  pub digest : String
  pub claimed : text_of (get_field "commitment" fs) ≡ some digest
  pub computed : commitment p fs ≡ ok digest

equals_text-eq : (s : String) (o : Option Json) → equals_text s o ≡ true → o ≡ some (text s)
equals_text-eq s (some (text t)) h = ap (λ (u : String). some (text u)) ((eq_iff t s).0 h)
equals_text-eq s none h = cc
equals_text-eq s (some _) h = cc

entry_and_payload :
    (p : Primitives) (entry_id payload_sha256 : String) (fs : Fields)
    → fixed_fields_hold p entry_id payload_sha256 fs ≡ true
    → (get_field "asset_id" fs ≡ some (text entry_id))
      × (get_field "payload_commitment" fs ≡ some (text payload_sha256))
unfolding fixed_fields_hold bound_fields_hold
entry_and_payload p entry_id payload_sha256 fs h =
    let (both, rest) = &&_split _ _ h in
    let (entry, payload) = &&_split _ _ both in
    (equals_text-eq _ _ entry, equals_text-eq _ _ payload)

-- A record that validates for an entry and a payload is returned as it was read, names both, and carries the
-- commitment that is computed from all its other fields.
pub validate_quarantine_record-IsSealed :
    (p : Primitives) (value : Json) (entry_id payload_sha256 : String) (fs : Fields)
    → validate_quarantine_record p value entry_id payload_sha256 ≡ ok fs
    → (as_fields value ≡ some fs) × IsSealed p entry_id payload_sha256 fs
unfolding validate_quarantine_record
validate_quarantine_record-IsSealed p value entry_id payload_sha256 fs h =
    let (gs, e1, h1) = >>=-eq-ok _ _ h in
    let (keys, h2) = guard-eq-ok _ _ _ h1 in
    let (fixed, h3) = guard-eq-ok _ _ _ h2 in
    let (event_time, e4, h4) = >>=-eq-ok _ _ h3 in
    let (zulu, h5) = guard-eq-ok _ _ _ h4 in
    let (claimed, e6, h6) = >>=-eq-ok _ _ h5 in
    let (is_digest, h7) = guard-eq-ok _ _ _ h6 in
    let (computed, e8, h8) = >>=-eq-ok _ _ h7 in
    let (equal, h9) = guard-eq-ok _ _ _ h8 in
    let (entry, payload) = entry_and_payload p entry_id payload_sha256 gs fixed in
    let same : claimed ≡ computed = (eq_iff claimed computed).0 equal in
    subst (λ (r : Fields). (as_fields value ≡ some r) × IsSealed p entry_id payload_sha256 r)
      (ok_injective h9)
      (
        or_raise-eq-ok _ _ e1,
        record {
          entry = entry;
          payload = payload;
          digest = computed;
          claimed = or_raise-eq-ok _ _ e6 ∙ ap some same;
          computed = e8;
        },
      )

-- What is relied on: the zero digest is a digest of the code's form and every SHA-256 is one.
pub record HasDigests (p : Primitives) : Type 0 where
  pub zero_bytes : List ℕ
  pub zero_reads : p.fromhex zero_commitment ≡ some zero_bytes
  pub zero_lower : p.lower zero_commitment ≡ zero_commitment
  pub sha256_form : (message : List ℕ) → is_sha256 p (p.sha256 message) ≡ true

zero_is_digest : (p : Primitives) → HasDigests p → is_sha256 p zero_commitment ≡ true
unfolding is_sha256
zero_is_digest p d = rw (d.zero_reads, d.zero_lower) refl

-- The digest that a new record carries.
abbrev pub seal_of : Primitives → List ℕ → String → String → String → String
seal_of p zero_bytes entry_id payload_sha256 created_at =
    p.sha256
      (zba_domain ++ (zero_bytes ++ p.canonical (sealed_fields entry_id payload_sha256 created_at)))

commitment-sealed :
    (p : Primitives) (entry_id payload_sha256 created_at : String) (d : HasDigests p)
    → commitment p (sealed_fields entry_id payload_sha256 created_at)
      ≡ ok (seal_of p d.zero_bytes entry_id payload_sha256 created_at)
unfolding commitment sealed_fields without get_field ◌>>=◌ guard or_raise
commitment-sealed p entry_id payload_sha256 created_at d =
    rw (zero_is_digest p d, d.zero_reads) refl

commitment-insert :
    (p : Primitives) (entry_id payload_sha256 created_at digest : String)
    → commitment p
        (insert_field "commitment" (text digest) (sealed_fields entry_id payload_sha256 created_at))
      ≡ commitment p (sealed_fields entry_id payload_sha256 created_at)
unfolding commitment sealed_fields without get_field insert_field leb_text
commitment-insert p entry_id payload_sha256 created_at digest = refl

sealed_fields_are_fixed :
    (p : Primitives) (entry_id payload_sha256 created_at digest : String)
    → fixed_fields_hold p entry_id payload_sha256
        (insert_field "commitment" (text digest) (sealed_fields entry_id payload_sha256 created_at))
      ≡ true
unfolding fixed_fields_hold bound_fields_hold constant_fields_hold equals_int sealed_fields
    get_field insert_field leb_text
sealed_fields_are_fixed p entry_id payload_sha256 created_at digest =
    rw ((eq_iff entry_id entry_id).1 refl, (eq_iff payload_sha256 payload_sha256).1 refl) refl

validate-inserted :
    (p : Primitives) (entry_id payload_sha256 created_at digest : String)
    → ends_with_z (codes created_at) ≡ true
    → is_sha256 p digest ≡ true
    → commitment p (sealed_fields entry_id payload_sha256 created_at) ≡ ok digest
    → validate_quarantine_record p
        (object (
          insert_field "commitment"
            (text digest)
            (sealed_fields entry_id payload_sha256 created_at)))
        entry_id
        payload_sha256
      ≡ ok (
          insert_field "commitment"
            (text digest)
            (sealed_fields entry_id payload_sha256 created_at))
unfolding validate_quarantine_record ◌>>=◌ guard or_raise has_exact_keys insert_field sealed_fields
    leb_text get_field
validate-inserted p entry_id payload_sha256 created_at digest z f c =
    rw
      (
        sealed_fields_are_fixed p entry_id payload_sha256 created_at digest,
        z,
        f,
        commitment-insert p entry_id payload_sha256 created_at digest,
        c,
        (eq_iff digest digest).1 refl,
      )
      refl

-- A record that was created for an entry, a payload and a time in UTC validates for that entry and that payload.
pub validate-create :
    (p : Primitives) (entry_id payload_sha256 created_at : String)
    → HasDigests p
    → ends_with_z (codes created_at) ≡ true
    → (fs : Fields) × (create_quarantine_record p entry_id payload_sha256 created_at ≡ ok fs)
      × (validate_quarantine_record p (object fs) entry_id payload_sha256 ≡ ok fs)
unfolding create_quarantine_record
validate-create p entry_id payload_sha256 created_at d z =
    let digest = seal_of p d.zero_bytes entry_id payload_sha256 created_at in
    let c = commitment-sealed p entry_id payload_sha256 created_at d in
    (
      insert_field "commitment" (text digest) (sealed_fields entry_id payload_sha256 created_at),
      ap
            (λ (r : Result ZbaError String). r >>= λ x. ok (
              insert_field "commitment" (text x)
                (sealed_fields entry_id payload_sha256 created_at)))
            c
          ∙ ok-bind digest _,
      validate-inserted p entry_id payload_sha256 created_at digest z (d.sha256_form _) c,
    )
