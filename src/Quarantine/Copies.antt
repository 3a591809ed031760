-- ===== src/Quarantine/Copies.antt =====
-- Proofs on what `quarantine_finding` of src/zsec_shield/quarantine.py has prepared.
use zsec_shield.Prelude.{
  ℕ, ◌≡◌, sym, ◌∙◌, subst, arith, true, ◌&&◌, Option, some, String, List, eq_iff, length, ◌==◌,
  Result, ok, err, ok_injective, >>=-eq-ok, guard-eq-ok, or_raise-eq-ok, ap, &&_split,
}
use zsec_shield.Json.{text, Fields}
use zsec_shield.Models.{FileFinding}
use zsec_shield.Scanner.Content.{content_of}
use zsec_shield.Zba.{create_quarantine_record}
use zsec_shield.Vault.{DeviceRoot, is_protection, sign_metadata, create_envelope}
use zsec_shield.Vault.Opening.{HasSizes}
use zsec_shield.Quarantine.{
  Tools, SourceSnapshot, OpenSource, snapshot, is_regular_file, same_snapshot,
  encrypt_regular_source, raised, aad_of, new_metadata, VaultEntry, in_vault, in_record,
}
use zsec_shield.Quarantine.Moving.{with_vault, Answers, Prepared, seal, prepare_for, prepare}
use zsec_shield.Quarantine.Reading.{decrypt_content}
use zsec_shield.Quarantine.Opening.{HasTools, decrypt-prepared, decrypt_content-sign}

-- An entry whose content opens to bytes of the finding's digest and size.
abbrev pub IsCopyOf : Tools → DeviceRoot → FileFinding → VaultEntry → Type 0
IsCopyOf t device finding entry =
    (plaintext : List ℕ) × ((decrypt_content t (ok device) entry.metadata entry.content
        ≡ ok plaintext)
      × ((t.sha256 plaintext ≡ finding.sha256) × (length plaintext ≡ finding.size)))

same_snapshot-size : (a b : SourceSnapshot) → same_snapshot a b ≡ true → a.size ≡ b.size
unfolding same_snapshot
same_snapshot-size a b h = ground arith

equal_sizes : (a b : ℕ) → (a == b) ≡ true → a ≡ b
equal_sizes a b h = ground arith

size_kept :
    (expected : SourceSnapshot) (f : OpenSource) (n : ℕ)
    → (is_regular_file f.opened.metadata && same_snapshot expected (snapshot f.opened)) ≡ true
    → (same_snapshot (snapshot f.opened) (snapshot f.after) && n == f.opened.metadata.size) ≡ true
    → n ≡ expected.size
unfolding snapshot
size_kept expected f n known still =
    equal_sizes n f.opened.metadata.size (&&_split _ _ still).1
    ∙ sym (same_snapshot-size expected (snapshot f.opened) (&&_split _ _ known).1)

-- What a success of the encryption comes to.
encrypt-sealed :
    (t : Tools) (answer : Option OpenSource) (expected : SourceSnapshot) (key nonce aad : List ℕ)
    (r : String × (List ℕ × List ℕ))
    → encrypt_regular_source t answer expected key nonce aad ≡ ok r
    → (f : OpenSource) × ((answer ≡ some f)
        × ((length (t.encrypt key nonce aad (content_of f.chunks)).0 ≡ expected.size)
            × ((
              t.sha256 (content_of f.chunks),
              (
                (t.encrypt key nonce aad (content_of f.chunks)).1,
                (t.encrypt key nonce aad (content_of f.chunks)).0,
              ),
            )
                ≡ r)))
unfolding encrypt_regular_source snapshot
encrypt-sealed t answer expected key nonce aad r h =
    let (f, opened, h1) = >>=-eq-ok _ _ h in
    let (known, h2) = guard-eq-ok _ _ _ h1 in
    let (whole, h3) = guard-eq-ok _ _ _ h2 in
    let (still, h4) = guard-eq-ok _ _ _ h3 in
    (
      f,
      (
        or_raise-eq-ok _ _ opened,
        (
          size_kept expected f (length (t.encrypt key nonce aad (content_of f.chunks)).0) known
              still,
          ok_injective h4,
        ),
      ),
    )

raised-eq-ok {ℓ κ μ} :
    {E : Type ℓ} {F : Type κ} {A : Type μ} (f : E → F) (r : Result E A) {a : A}
    → raised f r ≡ ok a
    → r ≡ ok a
raised-eq-ok f (ok a) h = cc
raised-eq-ok f (err e) h = cc

-- The entry that `prepare` leaves, by what was sealed.
abbrev pub made :
    Tools
    → Answers
    → DeviceRoot
    → FileFinding
    → SourceSnapshot
    → Fields
    → List ℕ
    → String × (List ℕ × List ℕ)
    → VaultEntry
made t a device finding before zba aad sealed = record {
  metadata = sign_metadata t.crypto device (
      with_vault t device (create_envelope t.crypto a.fresh device a.entry_id aad).0 sealed.1.0
        (new_metadata finding before a.entry_id a.created_at zba));
  content = sealed.1.1;
}

-- What went into a prepared entry.
pub record Making (t : Tools) (a : Answers) (device : DeviceRoot) (finding : FileFinding)
    (entry : VaultEntry) : Type 0 where
  pub before : SourceSnapshot
  pub zba : Fields
  pub aad : List ℕ
  pub source : OpenSource
  pub opened : a.source ≡ some source
  pub created :
      raised in_record (create_quarantine_record t.zba a.entry_id finding.sha256 a.created_at)
      ≡ ok zba
  pub bound : aad_of t (new_metadata finding before a.entry_id a.created_at zba) ≡ ok aad
  pub digest : t.sha256 (content_of source.chunks) ≡ finding.sha256
  pub long :
      length (t.encrypt a.fresh.content_key a.fresh.content_nonce aad (content_of source.chunks)).0
      ≡ before.size
  pub as_found : before.size ≡ finding.size
  pub whole :
      made t a device finding before zba aad (
        finding.sha256,
        (
          (t.encrypt a.fresh.content_key a.fresh.content_nonce aad (content_of source.chunks)).1,
          (t.encrypt a.fresh.content_key a.fresh.content_nonce aad (content_of source.chunks)).0,
        ),
      )
      ≡ entry

module _ (t : Tools) (a : Answers) (device : DeviceRoot) (finding : FileFinding) where
  seal-Making :
      (before : SourceSnapshot) (zba : Fields) (aad : List ℕ) (p : Prepared)
      → raised in_record (create_quarantine_record t.zba a.entry_id finding.sha256 a.created_at)
        ≡ ok zba
      → aad_of t (new_metadata finding before a.entry_id a.created_at zba) ≡ ok aad
      → before.size ≡ finding.size
      → seal t a finding before device zba aad ≡ ok p
      → Making t a device finding p.entry
  unfolding seal create_envelope
  seal-Making before zba aad p created bound as_found h =
      let (sealed, encrypted, h1) = >>=-eq-ok _ _ h in
      let (matches, h2) = guard-eq-ok _ _ _ h1 in
      let (published, h3) = guard-eq-ok _ _ _ h2 in
      let (f, found) =
        encrypt-sealed t a.source before a.fresh.content_key a.fresh.content_nonce aad sealed
          encrypted in
      let (opened, rest) = found in
      let (long, same) = rest in
      let digest : t.sha256 (content_of f.chunks) ≡ finding.sha256 =
        ap (λ (r : String × (List ℕ × List ℕ)). r.0) same
        ∙ (eq_iff sealed.0 finding.sha256).0 matches in
      record {
        before = before;
        zba = zba;
        aad = aad;
        source = f;
        opened = opened;
        created = created;
        bound = bound;
        digest = digest;
        long = long;
        as_found = as_found;
        whole =
            ap (λ (r : String × (List ℕ × List ℕ)). made t a device finding before zba aad r) same
            ∙ ap (λ (q : Prepared). q.entry) (ok_injective h3);
      }

  prepare_for-Making :
      (before : SourceSnapshot) (p : Prepared)
      → before.size ≡ finding.size
      → prepare_for t a finding before device ≡ ok p
      → Making t a device finding p.entry
  unfolding prepare_for
  prepare_for-Making before p as_found h =
      let (zba, created, h1) = >>=-eq-ok _ _ h in
      let (aad, bound, h2) = >>=-eq-ok _ _ h1 in
      seal-Making before zba aad p created bound as_found h2

  pub prepare-Making :
      (p : Prepared)
      → a.device ≡ ok device
      → prepare t a finding ≡ ok p
      → Making t a device finding p.entry
  unfolding prepare
  prepare-Making p known h =
      let (absolute, h1) = guard-eq-ok _ _ _ h in
      let (before, inspected, h2) = >>=-eq-ok _ _ h1 in
      let (as_found, h3) = guard-eq-ok _ _ _ h2 in
      let (root, loaded, h4) = >>=-eq-ok _ _ h3 in
      let same : root ≡ device =
        ok_injective (sym (raised-eq-ok in_vault a.device loaded) ∙ known) in
      prepare_for-Making before p (equal_sizes before.size finding.size as_found)
        (subst (λ (d : DeviceRoot). prepare_for t a finding before d ≡ ok p) same h4)

  -- The prepared entry opens to the bytes that were read.
  pub Making-opens :
      (laws : HasTools t) (sizes : HasSizes a.fresh) (entry : VaultEntry)
      (m : Making t a device finding entry)
      → is_protection (some (text device.protection)) ≡ true
      → decrypt_content t (ok device) entry.metadata entry.content ≡ ok (content_of m.source.chunks)
  Making-opens laws sizes entry m hp =
      let plaintext = content_of m.source.chunks in
      let length_of : length plaintext ≡ m.before.size =
        sym (laws.content_length a.fresh.content_key a.fresh.content_nonce m.aad plaintext)
        ∙ m.long in
      subst (λ (e : VaultEntry). decrypt_content t (ok device) e.metadata e.content ≡ ok plaintext)
        m.whole
        (decrypt_content-sign t (ok device) device _ _
          ∙ decrypt-prepared t laws a.fresh sizes device finding m.before a.entry_id a.created_at
              m.zba m.aad plaintext hp m.bound length_of)

  pub prepare-IsCopyOf :
      (laws : HasTools t) (sizes : HasSizes a.fresh) (p : Prepared)
      → a.device ≡ ok device
      → is_protection (some (text device.protection)) ≡ true
      → prepare t a finding ≡ ok p
      → IsCopyOf t device finding p.entry
  prepare-IsCopyOf laws sizes p known hp h =
      let m = prepare-Making p known h in
      (
        content_of m.source.chunks,
        (
          Making-opens laws sizes p.entry m hp,
          (
            m.digest,
            sym (
                  laws.content_length a.fresh.content_key a.fresh.content_nonce m.aad
                    (content_of m.source.chunks))
                ∙ m.long
                ∙ m.as_found,
          ),
        ),
      )
