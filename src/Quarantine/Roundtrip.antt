-- ===== src/Quarantine/Roundtrip.antt =====
-- Proofs on a restore after a quarantine, of src/zsec_shield/quarantine.py.
use zsec_shield.Prelude.{
  ℕ, ◌*◌, ◌≡◌, refl, sym, ap, ◌∙◌, subst, arith, true, false, Option, none, some, String, List,
  eq_iff, codes, length, leb, Result, ok, ◌>>=◌, guard, or_raise, ok_injective,
}
use zsec_shield.Prelude.Dict.{find, find-put}
use zsec_shield.Json.{Json, text, object, Fields, get_field}
use zsec_shield.Json.Strict.{strict_json_loads}
use zsec_shield.Host.{Stat}
use zsec_shield.Models.{FileFinding}
use zsec_shield.Scanner.Content.{content_of}
use zsec_shield.Zba.{is_sha256, ends_with_z, ZbaError, validate_quarantine_record}
use zsec_shield.Zba.Sealing.{HasDigests, validate-create}
use zsec_shield.Vault.{DeviceRoot, is_protection, create_envelope, holds_text}
use zsec_shield.Vault.Opening.{HasSizes, unwrap-create}
use zsec_shield.Quarantine.{
  QuarantineError, Tools, OpenSource, raised, VaultEntry, Disk, write_v2_metadata, in_record,
  metadata_schema,
}
use zsec_shield.Quarantine.Moving.{Answers, quarantine_finding}
use zsec_shield.Quarantine.Reading.{
  validate_entry_id, check_metadata, read_metadata, decrypt_content, size_is,
}
use zsec_shield.Quarantine.Opening.{
  HasTools, size_is-int, decrypt_content-sign, decrypt_content-state,
  decrypt_content-quarantined_at,
}
use zsec_shield.Quarantine.Copies.{Making, prepare-Making, Making-opens}
use zsec_shield.Quarantine.Acceptance.{final, final-accepted, final-fields, final-sizes}
use zsec_shield.Quarantine.Restore.{
  RestoreAnswers, linked, is_folder, is_v2, recover_content, restore_entry,
}
use zsec_shield.Quarantine.Finishing.{finished, quarantine_finding-IsFinished}

-- A restore in which every call of the operating system succeeds: the bytes of the metadata's file, the resolution of a
-- path, the parent's metadata and the time.
abbrev pub calm : DeviceRoot → List ℕ → (String → String) → Stat → String → RestoreAnswers
calm device bytes absolute parent restored_at = record {
  absolute = absolute;
  device = ok device;
  metadata_file = some bytes;
  is_taken = false;
  parent = some parent;
  copied = none;
  linking = linked;
  restored_at = restored_at;
  rewrites = true;
}

-- What is known of an entry that can be restored: its metadata passes the checks, is of the second schema and names the
-- digest and the size of the content to which it opens.
record IsReturnable (t : Tools) (device : DeviceRoot) (entry_id : String) (fs : Fields)
    (content plaintext : List ℕ) : Type 0 where
  accepted : check_metadata t (ok device) entry_id (object fs) ≡ ok fs
  schema : is_v2 fs ≡ true
  opens : decrypt_content t (ok device) fs content ≡ ok plaintext
  digest : holds_text (t.sha256 plaintext) (get_field "sha256" fs) ≡ true
  size : size_is (length plaintext) (get_field "size" fs) ≡ true

module _ (t : Tools) (laws : HasTools t) (digests : HasDigests t.zba) (a : Answers)
    (sizes : HasSizes a.fresh) (device : DeviceRoot) (finding : FileFinding) where
  Making-IsReturnable :
      (entry : VaultEntry) (m : Making t a device finding entry)
      → is_protection (some (text device.protection)) ≡ true
      → ends_with_z (codes a.created_at) ≡ true
      → is_sha256 t.zba finding.sha256 ≡ true
      → IsReturnable t device a.entry_id
          (finished t a device entry)
          entry.content
          (content_of m.source.chunks)
  Making-IsReturnable entry m hp zulu form =
      let key = a.fresh.content_key in
      let nonce = a.fresh.content_nonce in
      let plaintext = content_of m.source.chunks in
      let tag = (t.encrypt key nonce m.aad plaintext).1 in
      let e = (create_envelope t.crypto a.fresh device a.entry_id m.aad).0 in
      let same : final t device e tag finding m.before a.entry_id a.created_at a.finished_at m.zba
          ≡ finished t a device entry =
        ap (λ (x : VaultEntry). finished t a device x) m.whole in
      let (zba, created, valid) =
        validate-create t.zba a.entry_id finding.sha256 a.created_at digests zulu in
      let one : zba ≡ m.zba = ok_injective (
        sym (ap (λ (r : Result ZbaError Fields). raised {F = QuarantineError} in_record r) created)
        ∙ m.created) in
      let sealed =
        subst
          (λ (x : Fields).
            validate_quarantine_record t.zba (object x) a.entry_id finding.sha256 ≡ ok x)
          one valid in
      let (read, unwrapped) =
        unwrap-create t.crypto laws.ciphers a.fresh device a.entry_id device.protection m.aad sizes
          hp in
      let fields =
        final-fields t device e tag finding m.before a.entry_id a.created_at a.finished_at m.zba in
      let (digest, size) =
        final-sizes t device e tag finding m.before a.entry_id a.created_at a.finished_at m.zba in
      let length_of : length plaintext ≡ m.before.size =
        sym (laws.content_length key nonce m.aad plaintext) ∙ m.long in
      let opens =
        decrypt_content-sign t (ok device) device _ entry.content
        ∙ decrypt_content-quarantined_at t (ok device) _ _ entry.content
        ∙ decrypt_content-state t (ok device) _ _ entry.content
        ∙ Making-opens t a device finding laws sizes entry m hp in
      record {
        accepted =
            subst (λ (fs : Fields). check_metadata t (ok device) a.entry_id (object fs) ≡ ok fs)
              same
              (final-accepted t device e tag finding m.before a.entry_id a.created_at a.finished_at
                m.zba laws m.zba m.aad form read (laws.tag_length key nonce m.aad plaintext) sealed
                m.bound);
        schema =
            subst (λ (fs : Fields). is_v2 fs ≡ true) same
              (ap (λ (o : Option Json). holds_text metadata_schema o) fields.0);
        opens = opens;
        digest =
            subst (λ (fs : Fields). holds_text (t.sha256 plaintext) (get_field "sha256" fs) ≡ true)
              same
              (ap (λ (o : Option Json). holds_text (t.sha256 plaintext) o) digest
                ∙ (eq_iff finding.sha256 (t.sha256 plaintext)).1 (sym m.digest));
        size =
            subst (λ (fs : Fields). size_is (length plaintext) (get_field "size" fs) ≡ true) same
              (ap (λ (o : Option Json). size_is (length plaintext) o) size
                ∙ size_is-int (length plaintext) m.before.size length_of);
      }

recover_content-calm :
    (t : Tools) (device : DeviceRoot) (entry_id place restored_at : String)
    (bytes plaintext : List ℕ) (absolute : String → String) (parent : Stat) (fs : Fields)
    (entry : VaultEntry) (disk : Disk)
    → IsReturnable t device entry_id fs entry.content plaintext
    → find entry_id disk.entries ≡ some entry
    → validate_entry_id t entry_id ≡ ok entry_id
    → leb (length bytes) (256 * 1024) ≡ true
    → strict_json_loads t.decoder bytes ≡ some (object fs)
    → find (absolute place) disk.files ≡ none
    → is_folder parent ≡ true
    → recover_content t (calm device bytes absolute parent restored_at) entry_id (some place) disk
      ≡ ok (record {
        entry_id = entry_id;
        metadata = fs;
        entry = entry;
        target = absolute place;
        content = plaintext;
      })
unfolding recover_content read_metadata ◌>>=◌ guard or_raise
recover_content-calm t device entry_id place restored_at bytes plaintext absolute parent fs entry
      disk r known named small decodes free folder =
    rw (named, small, decodes, r.accepted, free, folder, known, r.schema, r.opens, r.digest, r.size)
      refl

restored_file :
    (t : Tools) (device : DeviceRoot) (entry_id place restored_at : String)
    (bytes plaintext : List ℕ) (absolute : String → String) (parent : Stat) (fs : Fields)
    (entry : VaultEntry) (disk : Disk)
    → is_v2 fs ≡ true
    → recover_content t (calm device bytes absolute parent restored_at) entry_id (some place) disk
      ≡ ok (record {
        entry_id = entry_id;
        metadata = fs;
        entry = entry;
        target = absolute place;
        content = plaintext;
      })
    → find
        (absolute place)
        (restore_entry t
          (calm device bytes absolute parent restored_at)
          entry_id
          (some place)
          disk).1.files
      ≡ some plaintext
unfolding restore_entry write_v2_metadata
restored_file t device entry_id place restored_at bytes plaintext absolute parent fs entry disk
      second recovered =
    rw (recovered, second)
      (find-put (absolute place) (absolute place) plaintext disk.files
        ∙ (ground (arith, eq_iff (absolute place) (absolute place))))

-- A file whose quarantine succeeds is given back by a restore: where the calls of the operating system succeed, the
-- metadata's file has at most the 256 KiB that a restore reads and decodes to what was written, the entry's identifier is canonical and the target is free, the target
-- then holds exactly the bytes that the quarantine had read from the source. Relied on are base64, AES-GCM, the forms of
-- digests and times, the sizes of random values, and the same device key.
pub restore-quarantine :
    (t : Tools) (laws : HasTools t) (digests : HasDigests t.zba) (a : Answers)
    (sizes : HasSizes a.fresh) (device : DeviceRoot) (finding : FileFinding) (disk after : Disk)
    (fs : Fields) (bytes : List ℕ) (absolute : String → String) (parent : Stat)
    (place restored_at : String)
    → a.device ≡ ok device
    → a.device_again ≡ ok device
    → is_protection (some (text device.protection)) ≡ true
    → ends_with_z (codes a.created_at) ≡ true
    → is_sha256 t.zba finding.sha256 ≡ true
    → quarantine_finding t a finding disk ≡ (ok fs, after)
    → validate_entry_id t a.entry_id ≡ ok a.entry_id
    → leb (length bytes) (256 * 1024) ≡ true
    → strict_json_loads t.decoder bytes ≡ some (object fs)
    → find (absolute place) after.files ≡ none
    → is_folder parent ≡ true
    → (f : OpenSource) × ((a.source ≡ some f)
        × (find
              (absolute place)
              (restore_entry t
                (calm device bytes absolute parent restored_at)
                a.entry_id
                (some place)
                after).1.files
            ≡ some (content_of f.chunks)))
restore-quarantine t laws digests a sizes device finding disk after fs bytes absolute parent place
      restored_at known again hp zulu form h named small decodes free folder =
    let (p, done) = quarantine_finding-IsFinished t a device finding disk after fs again h in
    let (prepared, last) = done in
    let (written, published) = last in
    let m = prepare-Making t a device finding p known prepared in
    let plaintext = content_of m.source.chunks in
    let returnable : IsReturnable t device a.entry_id fs p.entry.content plaintext =
      subst (λ (x : Fields). IsReturnable t device a.entry_id x p.entry.content plaintext) written
        (Making-IsReturnable t laws digests a sizes device finding p.entry m hp zulu form) in
    let recovered =
      recover_content-calm t device a.entry_id place restored_at bytes plaintext absolute parent fs
        (record p.entry { metadata = fs }) after returnable published named small decodes free
        folder in
    (
      m.source,
      (
        m.opened,
        restored_file t device a.entry_id place restored_at bytes plaintext absolute parent fs _
            after returnable.schema recovered,
      ),
    )
