-- ===== src/Scanner/Termination.antt =====
-- Proofs on the fuel of the walk of src/zsec_shield/scanner.py.
use zsec_shield.Prelude.{
  ℕ, zero, suc, ◌+◌, ◌*◌, ◌≤◌, ◌<◌, ◌≡◌, refl, Bool, true, false, some, String, List, [], ◌∷◌,
  Result, ok, err, ap, arith, length, length-append, any,
}
use native.Mathlib.Nat.{mul-le-mul_right}
use zsec_shield.Host.{Host, Stat, FileKind, regular, directory, symlink, special}
use zsec_shield.Scanner.{Scanner}
use zsec_shield.Scanner.File.{Pass}
use zsec_shield.Scanner.Walk.{
  Files, Lookup, missing, found, DirEntry, retries, sorted_directory_entries, Identity, identity_of,
  same_identity, is_known, is_excluded, enter_child, by_kind, by_link, by_lookup, by_exclusion,
  look_at, by_entries, by_identity, enter, walk, start_kind, start_link, start_lookup, start_at,
  iter_regular_files, Front,
}
use zsec_shield.Scanner.Identities.{
  unvisited, unvisited-lt, unvisited-nil, IsFinite, attempts-narrow,
}

module _ {ℓ} {A : Type ℓ} (os : Host) (scanner : Scanner) (files : Files)
    (visit : String → Stat → Pass × A → Pass × A) where
  enter_child-length :
      (b : Bool) (path : String) (children : List String) (s : Pass × A)
      → length (enter_child os scanner files visit b path (children, s)).0 ≤ length children + 1
  enter_child-length true path children s = omega arith
  enter_child-length false path children s = omega (arith, length-append children (path ∷ []))

  by_lookup-length :
      (l : Lookup) (rd : ℕ) (path : String) (children : List String) (s : Pass × A)
      → length (by_lookup os scanner files visit l rd path (children, s)).0 ≤ length children + 1
  by_lookup-length (missing error) rd path children s = omega arith
  by_lookup-length (found m) rd path children s = go m.reparse
    where
      by_its_kind :
          (k : FileKind)
          → length (by_kind os scanner files visit k rd path m (children, s)).0
            ≤ length children + 1
      by_its_kind directory = enter_child-length _ path children s
      by_its_kind regular = omega arith
      by_its_kind symlink = omega arith
      by_its_kind special = omega arith

      go :
          (b : Bool)
          → length (by_link os scanner files visit b rd path m (children, s)).0
            ≤ length children + 1
      go true = omega arith
      go false = by_its_kind m.kind

  by_exclusion-length :
      (b : Bool) (turn rd : ℕ) (path : String) (children : List String) (s : Pass × A)
      → length (by_exclusion os scanner files visit b turn rd path (children, s)).0
        ≤ length children + 1
  by_exclusion-length true turn rd path children s = omega arith
  by_exclusion-length false turn rd path children s =
      by_lookup-length (files.lstat turn path) rd path children s

  -- At most one child directory for each entry.
  look_at-length :
      (turn rd : ℕ) (entries : List DirEntry) (r : List String × (Pass × A))
      → length (look_at os scanner files visit turn rd entries r).0 ≤ length r.0 + length entries
  unfolding look_at
  look_at-length turn rd [] r = omega arith
  look_at-length turn rd (entry ∷ entries) (children, s) =
      let once =
        by_exclusion-length (is_excluded os scanner entry.path) turn rd entry.path children s in
      let rest = look_at-length turn rd entries (
        by_exclusion os scanner files visit (is_excluded os scanner entry.path) turn rd entry.path
          (children, s)) in
      omega arith

product_lt : (a b w : ℕ) → a < b → a * w + w ≤ b * w
product_lt a b w h = omega (arith, mul-le-mul_right w h)

module _ {ℓ} {A : Type ℓ} (os : Host) (scanner : Scanner) (files : Files)
    (visit : String → Stat → Pass × A → Pass × A) (ids : List Identity) (width : ℕ)
    (fin : IsFinite files ids width) where
  -- What is left to do once a directory has been taken from the stack.
  Shrinks : List String → List Identity → Front {A = A} os scanner files visit → Type 0
  Shrinks stack visited next =
      unvisited ids next.visited * width + length next.stack
      ≤ unvisited ids visited * width + length stack

  by_entries-Shrinks :
      (turn rd : ℕ) (path : String) (m : Stat) (stack : List String) (visited : List Identity)
      (s : Pass × A) (r : Result String (List DirEntry))
      → unvisited ids (identity_of m ∷ visited) < unvisited ids visited
      → sorted_directory_entries files turn path ≡ r
      → Shrinks stack visited
          (by_entries os scanner files visit turn rd path stack (identity_of m ∷ visited) s r)
  unfolding Shrinks sorted_directory_entries
  by_entries-Shrinks turn rd path m stack visited s (err error) new e =
      omega (arith, product_lt _ _ width new)
  by_entries-Shrinks turn rd path m stack visited s (ok entries) new e =
      let children = (look_at os scanner files visit turn rd entries ([], s)).0 in
      let few = look_at-length os scanner files visit turn rd entries ([], s) in
      let narrow = attempts-narrow files ids width fin turn path retries 0 entries e in
      omega (arith, product_lt _ _ width new, few, narrow, length-append children stack)

  enter-Shrinks :
      (turn rd : ℕ) (path : String) (stack : List String) (visited : List Identity) (s : Pass × A)
      (l : Lookup)
      → files.lstat turn path ≡ l
      → Shrinks stack visited (enter os scanner files visit turn rd path stack visited s l)
  unfolding Shrinks
  enter-Shrinks turn rd path stack visited s (missing error) e = omega arith
  enter-Shrinks turn rd path stack visited s (found m) e =
      go (is_known (identity_of m) visited) refl
    where
      go :
          (b : Bool)
          → is_known (identity_of m) visited ≡ b
          → Shrinks stack visited
              (by_identity os scanner files visit b turn rd path m stack visited s)
      go true k = omega arith
      go false k =
          let (numbered, among) = fin.known turn path m e in
          let unseen : any (same_identity (identity_of m)) visited ≡ false = ground arith in
          by_entries-Shrinks turn rd path m stack visited s _
            (unvisited-lt ids visited (identity_of m) among unseen) refl

  walk_ends :
      (fuel turn rd : ℕ) (stack : List String) (visited : List Identity) (s : Pass × A)
      → unvisited ids visited * width + length stack ≤ fuel
      → (t : Pass × A) × (walk os scanner files visit fuel turn rd stack visited s ≡ some t)
  unfolding walk Shrinks
  walk_ends fuel turn rd [] visited s h = (s, refl)
  walk_ends zero turn rd (path ∷ stack) visited s h = absurd (omega arith)
  walk_ends (suc fuel) turn rd (path ∷ stack) visited s h =
      let next =
        enter os scanner files visit turn rd path stack visited s (files.lstat turn path) in
      walk_ends fuel (turn + 1) rd next.stack next.visited next.state
        (omega (arith, enter-Shrinks turn rd path stack visited s (files.lstat turn path) refl))

  start_kind_ends :
      (k : FileKind) (fuel : ℕ) (root : String) (m : Stat) (s : Pass × A)
      → length ids * width + 1 ≤ fuel
      → (t : Pass × A) × (start_kind os scanner files visit k fuel root m s ≡ some t)
  start_kind_ends regular fuel root m s h = (_, refl)
  start_kind_ends directory fuel root m s h =
      walk_ends fuel 1 m.device (root ∷ []) [] s
        (omega (arith, ap (λ n. n * width) (unvisited-nil ids), h))
  start_kind_ends symlink fuel root m s h = (_, refl)
  start_kind_ends special fuel root m s h = (_, refl)

  start_lookup_ends :
      (l : Lookup) (fuel : ℕ) (root : String) (s : Pass × A)
      → length ids * width + 1 ≤ fuel
      → (t : Pass × A) × (start_lookup os scanner files visit l fuel root s ≡ some t)
  start_lookup_ends (missing error) fuel root s h = (_, refl)
  start_lookup_ends (found m) fuel root s h = go m.reparse
    where
      go :
          (b : Bool) → (t : Pass × A) × (start_link os scanner files visit b fuel root m s ≡ some t)
      go true = (_, refl)
      go false = start_kind_ends m.kind fuel root m s h

  -- On a file system whose answers name finitely many identities, each with an inode, and whose listings are bounded, the
  -- walk of every root ends with a result, however the answers change from directory to directory and whatever loops the
  -- directories form: fuel for each identity times the width of a listing, and one, is enough.
  pub iter_regular_files_ends :
      (fuel : ℕ) (root : String) (s : Pass × A)
      → length ids * width + 1 ≤ fuel
      → (t : Pass × A) × (iter_regular_files os scanner files visit fuel root s ≡ some t)
  unfolding iter_regular_files
  iter_regular_files_ends fuel root s h = go (is_excluded os scanner root)
    where
      go : (b : Bool) → (t : Pass × A) × (start_at os scanner files visit b fuel root s ≡ some t)
      go true = (_, refl)
      go false = start_lookup_ends (files.lstat 0 root) fuel root s h
