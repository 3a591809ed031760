-- ===== src/Scanner/Visits.antt =====
-- A principle for invariants of the walk of src/zsec_shield/scanner.py and its consumer.
use zsec_shield.Prelude.{
  ℕ, zero, suc, ◌+◌, ◌≡◌, refl, Bool, true, false, some, String, List, [], ◌∷◌, Result, ok, err,
  subst,
}
use mathlib.Core.Option
use zsec_shield.Host.{Host, Stat, FileKind, regular, directory, symlink, special}
use zsec_shield.Scanner.{Scanner}
use zsec_shield.Scanner.File.{Pass}
use zsec_shield.Scanner.Walk.{
  Files, Lookup, missing, found, DirEntry, Remark, excluded, link, special_file, other_filesystem,
  issue, Identity, identity_of, is_known, is_excluded, sorted_directory_entries, noted, enter_child,
  by_kind, by_link, by_lookup, by_exclusion, look_at, by_entries, by_identity, enter, walk,
  start_kind, start_link, start_lookup, start_at, iter_regular_files,
}

-- A regular file, no link, outside the excluded paths, with the metadata that the file system gave for the path.
abbrev pub IsAllowed : Host → Scanner → Files → String → Stat → Type 0
IsAllowed os scanner files path m =
    (m.kind ≡ regular)
    × (m.reparse ≡ false)
    × (is_excluded os scanner path ≡ false)
    × ((turn : ℕ) × (files.lstat turn path ≡ found m))

-- A predicate that the walk's own remarks and the visits of allowed files keep.
pub record Keeps {ℓ} {A : Type ℓ} (os : Host) (scanner : Scanner) (files : Files)
    (visit : String → Stat → Pass × A → Pass × A) (P : Pass × A → Type 0) : Type ℓ where
  pub remarked : (r : Remark) (s : Pass × A) → P s → P (noted os scanner files visit r s)
  pub visited :
      (path : String) (m : Stat)
      → IsAllowed os scanner files path m
      → (s : Pass × A) → P s
      → P (visit path m s)

module _ {ℓ} {A : Type ℓ} (os : Host) (scanner : Scanner) (files : Files)
    (visit : String → Stat → Pass × A → Pass × A) (P : Pass × A → Type 0)
    (keeps : Keeps os scanner files visit P) where
  enter_child-keeps :
      (b : Bool) (path : String) (children : List String) (s : Pass × A)
      → P s
      → P (enter_child os scanner files visit b path (children, s)).1
  enter_child-keeps true path children s h = keeps.remarked other_filesystem s h
  enter_child-keeps false path children s h = h

  by_kind-keeps :
      (k : FileKind) (rd : ℕ) (path : String) (m : Stat) (children : List String) (s : Pass × A)
      → (k ≡ regular → IsAllowed os scanner files path m)
      → P s
      → P (by_kind os scanner files visit k rd path m (children, s)).1
  by_kind-keeps directory rd path m children s a h = enter_child-keeps _ path children s h
  by_kind-keeps regular rd path m children s a h = keeps.visited path m (a refl) s h
  by_kind-keeps symlink rd path m children s a h = keeps.remarked link s h
  by_kind-keeps special rd path m children s a h = keeps.remarked special_file s h

  by_link-keeps :
      (b : Bool) (rd : ℕ) (path : String) (m : Stat) (children : List String) (s : Pass × A)
      → (b ≡ false → m.kind ≡ regular → IsAllowed os scanner files path m)
      → P s
      → P (by_link os scanner files visit b rd path m (children, s)).1
  by_link-keeps true rd path m children s a h = keeps.remarked link s h
  by_link-keeps false rd path m children s a h =
      by_kind-keeps m.kind rd path m children s (a refl) h

  by_lookup-keeps :
      (l : Lookup) (turn rd : ℕ) (path : String) (children : List String) (s : Pass × A)
      → files.lstat turn path ≡ l
      → is_excluded os scanner path ≡ false
      → P s
      → P (by_lookup os scanner files visit l rd path (children, s)).1
  by_lookup-keeps (missing error) turn rd path children s e outside h =
      keeps.remarked (issue path "entry_unreadable" error) s h
  by_lookup-keeps (found m) turn rd path children s e outside h =
      by_link-keeps m.reparse rd path m children s
        (λ unlinked plain. (plain, unlinked, outside, (turn, e))) h

  by_exclusion-keeps :
      (b : Bool) (turn rd : ℕ) (path : String) (children : List String) (s : Pass × A)
      → is_excluded os scanner path ≡ b
      → P s
      → P (by_exclusion os scanner files visit b turn rd path (children, s)).1
  by_exclusion-keeps true turn rd path children s e h = keeps.remarked excluded s h
  by_exclusion-keeps false turn rd path children s e h =
      by_lookup-keeps _ turn rd path children s refl e h

  look_at-keeps :
      (turn rd : ℕ) (entries : List DirEntry) (r : List String × (Pass × A))
      → P r.1
      → P (look_at os scanner files visit turn rd entries r).1
  unfolding look_at
  look_at-keeps turn rd [] r h = h
  look_at-keeps turn rd (entry ∷ entries) (children, s) h =
      look_at-keeps turn rd entries _ (by_exclusion-keeps _ turn rd entry.path children s refl h)

  by_entries-keeps :
      (turn rd : ℕ) (path : String) (stack : List String) (visited : List Identity) (s : Pass × A)
      (r : Result String (List DirEntry))
      → P s
      → P (by_entries os scanner files visit turn rd path stack visited s r).state
  by_entries-keeps turn rd path stack visited s (err error) h =
      keeps.remarked (issue path "directory_unreadable" error) s h
  by_entries-keeps turn rd path stack visited s (ok entries) h =
      look_at-keeps turn rd entries ([], s) h

  enter-keeps :
      (turn rd : ℕ) (path : String) (stack : List String) (visited : List Identity) (s : Pass × A)
      (l : Lookup)
      → P s
      → P (enter os scanner files visit turn rd path stack visited s l).state
  enter-keeps turn rd path stack visited s (missing error) h =
      keeps.remarked (issue path "directory_unreadable" error) s h
  enter-keeps turn rd path stack visited s (found m) h = go (is_known (identity_of m) visited)
    where
      go :
          (b : Bool) → P (by_identity os scanner files visit b turn rd path m stack visited s).state
      go true = keeps.remarked link s h
      go false =
          by_entries-keeps turn rd path stack (identity_of m ∷ visited) s
            (sorted_directory_entries files turn path) h

  walk-keeps :
      (fuel turn rd : ℕ) (stack : List String) (visited : List Identity) (s t : Pass × A)
      → P s
      → walk os scanner files visit fuel turn rd stack visited s ≡ some t
      → P t
  unfolding walk
  walk-keeps fuel turn rd [] visited s t h e = subst P (Option.some-injective s t e) h
  walk-keeps zero turn rd (path ∷ stack) visited s t h e = cc
  walk-keeps (suc fuel) turn rd (path ∷ stack) visited s t h e =
      walk-keeps fuel (turn + 1) rd _ _ _ t
        (enter-keeps turn rd path stack visited s (files.lstat turn path) h) e

  start_kind-keeps :
      (k : FileKind) (fuel : ℕ) (root : String) (m : Stat) (s t : Pass × A)
      → (k ≡ regular → IsAllowed os scanner files root m)
      → P s
      → start_kind os scanner files visit k fuel root m s ≡ some t
      → P t
  start_kind-keeps regular fuel root m s t a h e =
      subst P (Option.some-injective _ t e) (keeps.visited root m (a refl) s h)
  start_kind-keeps directory fuel root m s t a h e =
      walk-keeps fuel 1 m.device (root ∷ []) [] s t h e
  start_kind-keeps symlink fuel root m s t a h e =
      subst P (Option.some-injective _ t e) (keeps.remarked link s h)
  start_kind-keeps special fuel root m s t a h e =
      subst P (Option.some-injective _ t e) (keeps.remarked special_file s h)

  start_lookup-keeps :
      (l : Lookup) (fuel : ℕ) (root : String) (s t : Pass × A)
      → files.lstat 0 root ≡ l
      → is_excluded os scanner root ≡ false
      → P s
      → start_lookup os scanner files visit l fuel root s ≡ some t
      → P t
  start_lookup-keeps (missing error) fuel root s t known outside h e =
      subst P (Option.some-injective _ t e)
        (keeps.remarked (issue root "root_unreadable" error) s h)
  start_lookup-keeps (found m) fuel root s t known outside h e = go m.reparse refl e
    where
      go :
          (b : Bool)
          → m.reparse ≡ b
          → start_link os scanner files visit b fuel root m s ≡ some t
          → P t
      go true linked e = subst P (Option.some-injective _ t e) (keeps.remarked link s h)
      go false unlinked e =
          start_kind-keeps m.kind fuel root m s t (λ plain. (plain, unlinked, outside, (0, known)))
            h e

  -- Whatever a visit of an allowed file and the walk's remarks keep, the whole walk of a root keeps: no other file is
  -- ever visited.
  pub iter_regular_files-keeps :
      (fuel : ℕ) (root : String) (s t : Pass × A)
      → P s
      → iter_regular_files os scanner files visit fuel root s ≡ some t
      → P t
  unfolding iter_regular_files
  iter_regular_files-keeps fuel root s t h e = go (is_excluded os scanner root) refl e
    where
      go :
          (b : Bool)
          → is_excluded os scanner root ≡ b
          → start_at os scanner files visit b fuel root s ≡ some t
          → P t
      go true inside e = subst P (Option.some-injective _ t e) (keeps.remarked excluded s h)
      go false outside e = start_lookup-keeps _ fuel root s t refl outside h e
