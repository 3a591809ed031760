-- ===== src/Quarantine/Overwrite.antt =====
-- Proofs on the files and entries after `restore_entry` of src/zsec_shield/quarantine.py.
use zsec_shield.Prelude.{
  ℕ, ◌≡◌, ◌⊎◌, refl, sym, ap, ◌∙◌, subst, arith, Bool, true, false, not, ◌&&◌, ◌||◌, Option, none,
  some, String, List, str_eq, eq_iff, length, is_some, Bool-cases, inl, inr, Result, ok, err,
  ok_injective, >>=-eq-ok, guard-eq-ok, or_raise-eq-ok, &&_split,
}
use mathlib.Core.Option
use zsec_shield.Prelude.Dict.{find, put, find-put}
use zsec_shield.Json.{Fields, get_field}
use zsec_shield.Vault.{VaultError, DeviceRoot, holds_text}
use zsec_shield.Quarantine.{QuarantineError, Tools, VaultEntry, Disk, write_v2_metadata}
use zsec_shield.Quarantine.Reading.{size_is, read_metadata}
use zsec_shield.Quarantine.Restore.{
  Linking, linked, appeared, unsupported, RestoreAnswers, Restored, Recovered, recover_content,
  is_v2, with_history, after_write, write_legacy_metadata, write_history, after_link,
  after_recovery, restore_entry,
}

-- What is known of a checked content: its entry is published, its target is free, and the metadata names its digest
-- and its size.
record IsRecovered (t : Tools) (a : RestoreAnswers) (disk : Disk) (r : Recovered) : Type 0 where
  read : read_metadata t a.device r.entry_id a.metadata_file ≡ ok r.metadata
  published : find r.entry_id disk.entries ≡ some r.entry
  free : find r.target disk.files ≡ none
  digest : holds_text (t.sha256 r.content) (get_field "sha256" r.metadata) ≡ true
  size : size_is (length r.content) (get_field "size" r.metadata) ≡ true

absent {ℓ} : {A : Type ℓ} (b : Bool) (o : Option A) → not (b || is_some o) ≡ true → o ≡ none
absent b none h = refl
absent true (some x) h = cc
absent false (some x) h = cc

recover_content-IsRecovered :
    (t : Tools) (a : RestoreAnswers) (entry_id : String) (destination : Option String) (disk : Disk)
    (r : Recovered)
    → recover_content t a entry_id destination disk ≡ ok r
    → IsRecovered t a disk r
unfolding recover_content
recover_content-IsRecovered t a entry_id destination disk r h =
    let (normalized, _, h1) = >>=-eq-ok _ _ h in
    let (metadata, read, h2) = >>=-eq-ok _ _ h1 in
    let (place, _, h3) = >>=-eq-ok _ _ h2 in
    let (free, h4) = guard-eq-ok _ _ _ h3 in
    let (parent, _, h5) = >>=-eq-ok _ _ h4 in
    let (_, h6) = guard-eq-ok _ _ _ h5 in
    let (entry, published, h7) = >>=-eq-ok _ _ h6 in
    let (content, _, h8) = >>=-eq-ok _ _ h7 in
    let (checked, h9) = guard-eq-ok _ _ _ h8 in
    let facts =
      split_check (holds_text (t.sha256 content) (get_field "sha256" metadata))
        (size_is (length content) (get_field "size" metadata)) checked in
    subst (IsRecovered t a disk) (ok_injective h9) (record {
      read = read;
      published = or_raise-eq-ok _ _ published;
      free = absent a.is_taken (find (a.absolute place) disk.files) free;
      digest = facts.0;
      size = facts.1;
    })
  where
    split_check : (b c : Bool) → (b && c) ≡ true → (b ≡ true) × (c ≡ true)
    split_check b c h = &&_split b c h

-- Every file is as it was, and every entry still has its content.
abbrev pub KeepsAll : Disk → Disk → Type 0
KeepsAll before after =
    ((path : String) (bytes : List ℕ)
      → find path before.files ≡ some bytes
      → find path after.files ≡ some bytes)
    × ((id : String) (e : VaultEntry)
        → find id before.entries ≡ some e
        → (f : VaultEntry) × ((find id after.entries ≡ some f) × (f.content ≡ e.content)))

-- The restored file holds bytes of the digest and the size that are told, which are those of the verified metadata.
abbrev pub IsRestored : Tools → RestoreAnswers → Disk → Restored → Type 0
IsRestored t a after restored =
    (bytes : List ℕ) × ((metadata : Fields) × ((find restored.destination after.files ≡ some bytes)
        × ((t.sha256 bytes ≡ restored.sha256)
            × ((length bytes ≡ restored.size)
                × ((read_metadata t a.device restored.id a.metadata_file ≡ ok metadata)
                    × ((holds_text restored.sha256 (get_field "sha256" metadata) ≡ true)
                        × (size_is restored.size (get_field "size" metadata) ≡ true)))))))

keeps_refl : (disk : Disk) → KeepsAll disk disk
keeps_refl disk = (λ path bytes h. h, λ id e h. (e, (h, refl)))

keeps_trans : (x y z : Disk) → KeepsAll x y → KeepsAll y z → KeepsAll x z
keeps_trans x y z h k = (
  λ path bytes e. k.0 path bytes (h.0 path bytes e),
  λ id e found.
      let (f, here) = h.1 id e found in
      let (g, there) = k.1 id f here.0 in (g, (there.0, there.1 ∙ here.1)),
)

keeps_new_file :
    (disk : Disk) (target : String) (content : List ℕ)
    → find target disk.files ≡ none
    → KeepsAll disk (record disk { files = put target content disk.files })
keeps_new_file disk target content free =
    (λ path bytes h. go path bytes h (Bool-cases (str_eq target path)), λ id e h. (e, (h, refl)))
  where
    go :
        (path : String) (bytes : List ℕ)
        → find path disk.files ≡ some bytes
        → (str_eq target path ≡ true) ⊎ (str_eq target path ≡ false)
        → find path (put target content disk.files) ≡ some bytes
    go path bytes h (inl e) =
        let same : target ≡ path = (eq_iff target path).0 e in
        let nothing : find path disk.files ≡ none = ap (λ k. find k disk.files) (sym same) ∙ free in
        cc
    go path bytes h (inr e) = find-put target path content disk.files ∙ (rw e h)

keeps_content :
    (disk : Disk) (k : String) (entry : VaultEntry) (m : Fields)
    → find k disk.entries ≡ some entry
    → KeepsAll disk (record disk { entries = put k (record entry { metadata = m }) disk.entries })
keeps_content disk k entry m known =
    (λ path bytes h. h, λ id e h. go id e h (Bool-cases (str_eq k id)))
  where
    go :
        (id : String) (e : VaultEntry)
        → find id disk.entries ≡ some e
        → (str_eq k id ≡ true) ⊎ (str_eq k id ≡ false)
        → (f : VaultEntry) × ((find id (put k (record entry { metadata = m }) disk.entries)
              ≡ some f)
            × (f.content ≡ e.content))
    go id e h (inl same) =
        let one : k ≡ id = (eq_iff k id).0 same in
        let equal : some entry ≡ some e = sym known ∙ ap (λ j. find j disk.entries) one ∙ h in
        (
          record entry { metadata = m },
          (
            find-put k id _ disk.entries ∙ (rw same refl),
            ap (λ (x : VaultEntry). x.content) (Option.some-injective entry e equal),
          ),
        )
    go id e h (inr other) = (e, (find-put k id _ disk.entries ∙ (rw other h), refl))

-- A write of the metadata of a published entry leaves the files alone.
abbrev IsQuietWrite : {A : Type 0} → Disk → Result QuarantineError A × Disk → Type 0
IsQuietWrite disk (r, after) = KeepsAll disk after × (after.files ≡ disk.files)

write_history-IsQuietWrite :
    (t : Tools) (a : RestoreAnswers) (k : String) (m : Fields) (entry : VaultEntry) (disk : Disk)
    → find k disk.entries ≡ some entry
    → (b : Bool) → IsQuietWrite disk (write_history b t a k m entry disk)
unfolding write_v2_metadata
write_history-IsQuietWrite t a k m entry disk known = λ b. by_schema b
  where
    signed :
        (d : Result VaultError DeviceRoot) (b : Bool)
        → IsQuietWrite disk (write_v2_metadata t d b k m entry disk)
    signed (err e) b = (keeps_refl disk, refl)
    signed (ok root) false = (keeps_refl disk, refl)
    signed (ok root) true = (keeps_content disk k entry _ known, refl)

    plain : (b : Bool) → IsQuietWrite disk (write_legacy_metadata b k m entry disk)
    plain false = (keeps_refl disk, refl)
    plain true = (keeps_content disk k entry m known, refl)

    by_schema : (b : Bool) → IsQuietWrite disk (write_history b t a k m entry disk)
    by_schema true = signed a.device a.rewrites
    by_schema false = plain a.rewrites

abbrev pub IsToldTruly : Tools → RestoreAnswers → Disk → Result QuarantineError Restored → Type 0
IsToldTruly t a after (ok restored) = IsRestored t a after restored
IsToldTruly t a after (err e) = Unit

abbrev pub IsGentle :
    Tools → RestoreAnswers → Disk → Result QuarantineError Restored × Disk → Type 0
IsGentle t a disk (r, after) = KeepsAll disk after × IsToldTruly t a after r

after_link-IsGentle :
    (t : Tools) (a : RestoreAnswers) (r : Recovered) (disk : Disk)
    → IsRecovered t a disk r
    → (l : Linking) → IsGentle t a disk (after_link l t a r disk)
after_link-IsGentle t a r disk known = λ l. go l
  where
    with_file : Disk
    with_file = record disk { files = put r.target r.content disk.files }

    told : Restored
    told = record {
      id = r.entry_id;
      destination = r.target;
      sha256 = t.sha256 r.content;
      size = length r.content;
    }

    written :
        (w : Result QuarantineError Fields × Disk)
        → IsQuietWrite with_file w
        → IsGentle t a disk (after_write told w)
    written (err e, after) (keeps, same) = (
      keeps_trans disk with_file after (keeps_new_file disk r.target r.content known.free) keeps,
      tt,
    )
    written (ok m, after) (keeps, same) = (
      keeps_trans disk with_file after (keeps_new_file disk r.target r.content known.free) keeps,
      (
        r.content,
        (
          r.metadata,
          (
            ap (λ files. find r.target files) same
                ∙ (find-put r.target r.target r.content disk.files
                    ∙ (ground (arith, eq_iff r.target r.target))),
            (refl, (refl, (known.read, (known.digest, known.size)))),
          ),
        ),
      ),
    )

    go : (l : Linking) → IsGentle t a disk (after_link l t a r disk)
    go appeared = (keeps_refl disk, tt)
    go unsupported = (keeps_refl disk, tt)
    go linked = written _ (
        write_history-IsQuietWrite t a r.entry_id (with_history a r.target r.metadata) r.entry
          with_file known.published (is_v2 r.metadata))

-- Whatever the calls of the operating system answer, a restore leaves every file of the user as it was and every
-- entry's encrypted content in place; and if it tells of a restored file, that file holds bytes of the digest and the
-- size that it tells, which are those of the entry's verified metadata.
pub restore_entry-IsGentle :
    (t : Tools) (a : RestoreAnswers) (entry_id : String) (destination : Option String) (disk : Disk)
    → IsGentle t a disk (restore_entry t a entry_id destination disk)
unfolding restore_entry
restore_entry-IsGentle t a entry_id destination disk =
    go (recover_content t a entry_id destination disk) refl
  where
    go :
        (r : Result QuarantineError Recovered)
        → recover_content t a entry_id destination disk ≡ r
        → IsGentle t a disk (after_recovery r t a disk)
    go (err e) h = (keeps_refl disk, tt)
    go (ok r) h =
        after_link-IsGentle t a r disk
          (recover_content-IsRecovered t a entry_id destination disk r h) a.linking
