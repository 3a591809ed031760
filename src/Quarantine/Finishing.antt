-- ===== src/Quarantine/Finishing.antt =====
-- Proofs on a `quarantine_finding` of src/zsec_shield/quarantine.py that succeeds.
use zsec_shield.Prelude.{
  ◌≡◌, ◌≢◌, refl, sym, ap, ◌∙◌, Bool, true, false, Option, none, some, Result, ok, err,
  ok_injective,
}
use zsec_shield.Prelude.Dict.{find}
use zsec_shield.Json.{text, Fields}
use zsec_shield.Models.{FileFinding}
use zsec_shield.Vault.{VaultError, DeviceRoot, sign_metadata}
use zsec_shield.Quarantine.{
  QuarantineError, Tools, Inspected, snapshot, same_snapshot, set_field, VaultEntry, Disk,
  write_v2_metadata, partial,
}
use zsec_shield.Quarantine.Moving.{
  Answers, Prepared, prepare, then_raise, keep_copy, finish, after_check, remove_source,
  after_prepare, quarantine_finding,
}
use zsec_shield.Quarantine.Recovery.{found_put}

-- The metadata that a finished quarantine of a prepared entry writes.
abbrev pub finished : Tools → Answers → DeviceRoot → VaultEntry → Fields
finished t a device entry = sign_metadata t.crypto device (
    set_field "quarantined_at" (text a.finished_at)
      (set_field "state" (text "quarantined") entry.metadata))

module _ (t : Tools) (a : Answers) (device : DeviceRoot) (finding : FileFinding) where
  -- A success has published the prepared entry with its last metadata.
  abbrev pub IsFinished : Prepared → Fields → Disk → Type 0
  IsFinished p fs after =
      (finished t a device p.entry ≡ fs)
      × (find a.entry_id after.entries ≡ some (record p.entry { metadata = fs }))

  keep_copy-fails :
      (entry : VaultEntry) (disk after : Disk) (fs : Fields)
      → keep_copy t a entry disk ≢ (ok fs, after)
  unfolding write_v2_metadata
  keep_copy-fails entry disk after fs h = go a.device_again a.rewrites h
    where
      go :
          (d : Result VaultError DeviceRoot) (b : Bool)
          → then_raise (partial a.entry_id) (
              write_v2_metadata t d b a.entry_id
                (set_field "state" (text "copy_only") entry.metadata)
                entry
                disk)
            ≢ (ok fs, after)
      go (err e) b h = cc
      go (ok root) false h = cc
      go (ok root) true h = cc

  finish-IsFinished :
      (p : Prepared) (disk after : Disk) (fs : Fields)
      → a.device_again ≡ ok device
      → finish t a p.entry disk ≡ (ok fs, after)
      → IsFinished p fs after
  unfolding write_v2_metadata
  finish-IsFinished p disk after fs again h = go a.device_again again a.rewrites h
    where
      m : Fields
      m =
          set_field "quarantined_at" (text a.finished_at)
            (set_field "state" (text "quarantined") p.entry.metadata)

      go :
          (d : Result VaultError DeviceRoot)
          → d ≡ ok device
          → (b : Bool) → write_v2_metadata t d b a.entry_id m p.entry disk ≡ (ok fs, after)
          → IsFinished p fs after
      go (err e) same b h = cc
      go (ok root) same false h = cc
      go (ok root) same true h =
          let written : sign_metadata t.crypto root m ≡ fs =
            ok_injective (ap (λ (r : Result QuarantineError Fields × Disk). r.0) h) in
          let signed : sign_metadata t.crypto device m ≡ fs =
            ap (λ (x : DeviceRoot). sign_metadata t.crypto x m) (sym (ok_injective same))
            ∙ written in
          (
            signed,
            ap (λ (r : Result QuarantineError Fields × Disk). find a.entry_id r.1.entries) (sym h)
                ∙ found_put a.entry_id _ disk.entries
                ∙ ap (λ (x : Fields). some (record p.entry { metadata = x })) written,
          )

  pub quarantine_finding-IsFinished :
      (disk after : Disk) (fs : Fields)
      → a.device_again ≡ ok device
      → quarantine_finding t a finding disk ≡ (ok fs, after)
      → (p : Prepared) × ((prepare t a finding ≡ ok p) × IsFinished p fs after)
  unfolding quarantine_finding
  quarantine_finding-IsFinished disk after fs again h = go (prepare t a finding) refl h
    where
      checked :
          (p : Prepared) (d : Disk) (same unlinks : Bool)
          → after_check same unlinks t a finding p.entry d ≡ (ok fs, after)
          → IsFinished p fs after
      checked p d false unlinks h = absurd (keep_copy-fails p.entry d after fs h)
      checked p d true false h = absurd (keep_copy-fails p.entry d after fs h)
      checked p d true true h = finish-IsFinished p _ after fs again h

      removed :
          (o : Option Inspected) (p : Prepared) (d : Disk)
          → remove_source o t a finding p d ≡ (ok fs, after)
          → IsFinished p fs after
      removed none p d h = absurd (keep_copy-fails p.entry d after fs h)
      removed (some current) p d h =
          checked p d (same_snapshot p.snapshot (snapshot current)) a.unlinks h

      go :
          (r : Result QuarantineError Prepared)
          → prepare t a finding ≡ r
          → after_prepare r t a finding disk ≡ (ok fs, after)
          → (p : Prepared) × ((prepare t a finding ≡ ok p) × IsFinished p fs after)
      go (err e) known h = cc
      go (ok p) known h = (p, (known, removed a.current p _ h))
