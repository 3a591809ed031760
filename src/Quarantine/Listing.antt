-- ===== src/Quarantine/Listing.antt =====
-- `list_entries` of src/zsec_shield/quarantine.py.
use zsec_shield.Prelude.{
  ℕ, ◌+◌, ◌≡◌, Bool, true, false, not, Option, String, List, [], ◌∷◌, ◌==◌, codes, length, leb_text,
  if◌then◌else◌, ◌⊎◌, Result, ok, err, ◌>>=◌,
}
use zsec_shield.Prelude.Sort.{sorted}
use zsec_shield.Json.{Fields, get_field, item_list}
use zsec_shield.Vault.{VaultError, not_ascii, DeviceRoot}
use zsec_shield.Quarantine.{QuarantineError, Tools, unreadable_metadata, unhashable, in_vault}
use zsec_shield.Quarantine.Reading.{validate_entry_id, read_metadata}
use zsec_shield.Quarantine.Restore.{items_of, is_v2}

-- A directory below `entries` and what a read of its metadata's file gives.
pub record Candidate : Type 0 where
  pub name : String
  pub metadata_file : Option (List ℕ)

-- A record of the list: the fields of the metadata that it copies, and the two that are computed.
pub record Listed : Type 0 where
  pub metadata : Fields
  pub restore_count : ℕ
  pub encrypted : Bool

abbrev pub starts_with_dot : List ℕ → Bool
starts_with_dot [] = false
starts_with_dot (c ∷ cs) = c == b'.'

abbrev pub is_visible : Candidate → Bool
is_visible candidate = not (starts_with_dot (codes candidate.name))

-- The body of the loop.
unfoldable pub list_entry :
    Tools → Result VaultError DeviceRoot → Candidate → Result QuarantineError Listed
list_entry t device candidate = do
  normalized ← validate_entry_id t candidate.name
  metadata ← read_metadata t device candidate.name candidate.metadata_file
  ok (record {
    metadata = metadata;
    restore_count = length (item_list (items_of (get_field "restore_history" metadata)));
    encrypted = is_v2 metadata;
  })

-- The errors that are no QuarantineError: the loop does not catch them.
unfoldable pub escapes : QuarantineError → Bool
escapes unhashable = true
escapes (in_vault not_ascii) = true
escapes _ = false

abbrev pub Listing : Type 0
Listing = List Listed × List (String × QuarantineError)

abbrev pub with_record : Listed → Listing → Result QuarantineError Listing
with_record r (records, errors) = ok (r ∷ records, errors)

abbrev pub with_error : String → QuarantineError → Listing → Result QuarantineError Listing
with_error name e (records, errors) = ok (records, (name, e) ∷ errors)

abbrev pub add_error :
    Bool
    → String
    → QuarantineError
    → Result QuarantineError Listing
    → Result QuarantineError Listing
add_error true name e rest = err e
add_error false name e rest = rest >>= with_error name e

abbrev pub add_listed :
    String
    → Result QuarantineError Listed
    → Result QuarantineError Listing
    → Result QuarantineError Listing
add_listed name (ok r) rest = rest >>= with_record r
add_listed name (err e) rest = add_error (escapes e) name e rest

-- The loop over the candidates, hidden ones left out; the first exception that nothing catches ends it.
unfoldable pub list_all :
    Tools → Result VaultError DeviceRoot → List Candidate → Result QuarantineError Listing
unfolding escapes
list_all t device [] = ok ([], [])
list_all t device (candidate ∷ candidates) =
    let rest = list_all t device candidates in
    if is_visible candidate
    then add_listed candidate.name (list_entry t device candidate) rest
    else rest

-- The directory of the entries: absent, unreadable, or its candidates.
pub data EntriesDirectory : Type 0 where
  no_directory unlisted : EntriesDirectory
  directory_of : List Candidate → EntriesDirectory

-- `list_entries`
unfoldable pub list_entries :
    Tools → Result VaultError DeviceRoot → EntriesDirectory → Result QuarantineError Listing
list_entries t device no_directory = ok ([], [])
list_entries t device unlisted = err unreadable_metadata
list_entries t device (directory_of candidates) =
    list_all t device (sorted (λ (x y : Candidate). leb_text x.name y.name) candidates)

-- A list that is whole: as many records and errors as there are entries.
abbrev pub IsWhole : ℕ → Listing → Type 0
IsWhole n (records, errors) = length records + length errors ≡ n

-- The candidate whose read raised what nothing catches.
pub record Escaped (t : Tools) (device : Result VaultError DeviceRoot) (P : Candidate → Type 0)
    (e : QuarantineError) : Type 0 where
  pub candidate : Candidate
  pub among : P candidate
  pub visible : is_visible candidate ≡ true
  pub raised_by : list_entry t device candidate ≡ err e
  pub escaped : escapes e ≡ true

-- How the loop over candidates that satisfy `P` ends.
abbrev pub HasListed :
    Tools
    → Result VaultError DeviceRoot
    → (Candidate → Type 0)
    → ℕ
    → Result QuarantineError Listing
    → Type 0
HasListed t device P n (ok listing) = IsWhole n listing
HasListed t device P n (err e) = Escaped t device P e

-- A candidate of the directory.
abbrev pub IsAmong : List Candidate → Candidate → Type 0
IsAmong [] x = ⊥
IsAmong (y ∷ ys) x = (x ≡ y) ⊎ IsAmong ys x
