-- ===== src/Quarantine/Recovery.antt =====
-- Proofs on the outcomes of `quarantine_finding` of src/zsec_shield/quarantine.py.
use zsec_shield.Prelude.{
  ◌≡◌, ◌⊎◌, inl, inr, refl, ◌∙◌, arith, Bool, true, false, Option, none, some, String, eq_iff,
  Result, ok, err,
}
use zsec_shield.Prelude.Dict.{Dict, find, put, remove, find-put}
use zsec_shield.Json.{text, Fields}
use zsec_shield.Models.{FileFinding}
use zsec_shield.Vault.{VaultError, DeviceRoot, is_protection, sign_metadata}
use zsec_shield.Vault.Opening.{HasSizes}
use zsec_shield.Quarantine.{
  QuarantineError, Tools, Inspected, snapshot, same_snapshot, set_field, VaultEntry, Disk,
  write_v2_metadata, partial,
}
use zsec_shield.Quarantine.Moving.{
  Answers, Prepared, prepare, then_raise, keep_copy, finish, after_check, remove_source,
  after_prepare, quarantine_finding,
}
use zsec_shield.Quarantine.Opening.{
  HasTools, decrypt_content-sign, decrypt_content-state, decrypt_content-quarantined_at,
}
use zsec_shield.Quarantine.Copies.{IsCopyOf, prepare-IsCopyOf}

abbrev pub is_ok {ℓ κ} : {E : Type ℓ} {A : Type κ} → Result E A → Bool
is_ok (ok a) = true
is_ok (err e) = false

-- The source is where it was and the caller gets an error, or it is removed and a published entry is its copy.
unfoldable pub IsSafe :
    Tools → DeviceRoot → FileFinding → String → Disk → Result QuarantineError Fields × Disk → Type 0
IsSafe t device finding entry_id disk (r, after) =
    ((after.files ≡ disk.files) × (is_ok r ≡ false))
    ⊎ ((after.files ≡ remove finding.path disk.files)
        × ((entry : VaultEntry) × ((find entry_id after.entries ≡ some entry)
              × IsCopyOf t device finding entry)))

pub found_put : (k : String) (e : VaultEntry) (d : Dict VaultEntry) → find k (put k e d) ≡ some e
found_put k e d = find-put k k e d ∙ (ground (arith, eq_iff k k))

module _ (t : Tools) (laws : HasTools t) (a : Answers) (sizes : HasSizes a.fresh)
    (device : DeviceRoot) (finding : FileFinding) where
  keep_copy-IsSafe :
      (entry : VaultEntry) (disk : Disk)
      → IsSafe t device finding a.entry_id disk (keep_copy t a entry disk)
  unfolding write_v2_metadata IsSafe
  keep_copy-IsSafe entry disk = go a.device_again a.rewrites
    where
      go :
          (d : Result VaultError DeviceRoot) (b : Bool)
          → IsSafe t device finding a.entry_id disk (
              then_raise (partial a.entry_id) (
                write_v2_metadata t d b a.entry_id
                  (set_field "state" (text "copy_only") entry.metadata)
                  entry
                  disk))
      go (err e) b = inl (refl, refl)
      go (ok root) false = inl (refl, refl)
      go (ok root) true = inl (refl, refl)

  finish-IsSafe :
      (entry : VaultEntry) (disk : Disk)
      → find a.entry_id disk.entries ≡ some entry
      → IsCopyOf t device finding entry
      → IsSafe t device finding a.entry_id disk
          (finish t a entry (record disk { files = remove finding.path disk.files }))
  unfolding write_v2_metadata IsSafe
  finish-IsSafe entry disk known (plaintext, (opens, bytes)) = go a.device_again a.rewrites
    where
      metadata : Fields
      metadata =
          set_field "quarantined_at" (text a.finished_at)
            (set_field "state" (text "quarantined") entry.metadata)

      go :
          (d : Result VaultError DeviceRoot) (b : Bool)
          → IsSafe t device finding a.entry_id disk (
              write_v2_metadata t d b a.entry_id metadata entry
                (record disk { files = remove finding.path disk.files }))
      go (err e) b = inr (refl, (entry, (known, (plaintext, (opens, bytes)))))
      go (ok root) false = inr (refl, (entry, (known, (plaintext, (opens, bytes)))))
      go (ok root) true = inr (
        refl,
        (
          record entry { metadata = sign_metadata t.crypto root metadata },
          (
            found_put a.entry_id _ disk.entries,
            (
              plaintext,
              (
                decrypt_content-sign t (ok device) root metadata entry.content
                    ∙ decrypt_content-quarantined_at t (ok device) _ _ entry.content
                    ∙ decrypt_content-state t (ok device) _ _ entry.content
                    ∙ opens,
                bytes,
              ),
            ),
          ),
        ),
      )

  removal-IsSafe :
      (p : Prepared) (disk : Disk)
      → IsCopyOf t device finding p.entry
      → IsSafe t device finding a.entry_id disk (
          remove_source a.current t a finding p
            (record disk { entries = put a.entry_id p.entry disk.entries }))
  unfolding IsSafe
  removal-IsSafe p disk copy = go a.current
    where
      published : Disk
      published = record disk { entries = put a.entry_id p.entry disk.entries }

      checked :
          (same unlinks : Bool)
          → IsSafe t device finding a.entry_id disk
              (after_check same unlinks t a finding p.entry published)
      checked false unlinks = keep_copy-IsSafe p.entry published
      checked true false = keep_copy-IsSafe p.entry published
      checked true true =
          finish-IsSafe p.entry published (found_put a.entry_id p.entry disk.entries) copy

      go :
          (o : Option Inspected)
          → IsSafe t device finding a.entry_id disk (remove_source o t a finding p published)
      go none = keep_copy-IsSafe p.entry published
      go (some current) = checked (same_snapshot p.snapshot (snapshot current)) a.unlinks

  -- Whatever the calls of the operating system answer, a quarantine either leaves every file as it was and tells the
  -- caller of an error, or it removes the source alone and a published entry's content opens, with the device's key and
  -- the entry's metadata, to bytes of the finding's digest and size. base64, AES-GCM and the sizes of random values are
  -- relied on.
  pub quarantine_finding-IsSafe :
      (disk : Disk)
      → a.device ≡ ok device
      → is_protection (some (text device.protection)) ≡ true
      → IsSafe t device finding a.entry_id disk (quarantine_finding t a finding disk)
  unfolding quarantine_finding IsSafe
  quarantine_finding-IsSafe disk known hp = go (prepare t a finding) refl
    where
      go :
          (r : Result QuarantineError Prepared)
          → prepare t a finding ≡ r
          → IsSafe t device finding a.entry_id disk (after_prepare r t a finding disk)
      go (err e) h = inl (refl, refl)
      go (ok p) h =
          removal-IsSafe p disk (prepare-IsCopyOf t a device finding laws sizes p known hp h)
