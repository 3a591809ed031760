-- ===== src/Scanner/Walk.antt =====
-- `_sorted_directory_entries`, `_is_excluded` and `_iter_regular_files` of src/zsec_shield/scanner.py. The generator's
-- `yield` is a call of its consumer, `visit`, on the state that the two share and on the consumer's own.
use zsec_shield.Prelude.{
  ℕ, zero, suc, ◌+◌, Bool, true, false, not, ◌&&◌, ◌||◌, Option, none, some, String, List, [], ◌∷◌,
  ◌++◌, str_eq, ltb, ◌==◌, if◌then◌else◌, any, leb_text, Result, ok, err,
}
use zsec_shield.Prelude.Sort.{sorted}
use zsec_shield.Host.{
  Host, path_key, is_within, Stat, FileKind, regular, directory, symlink, special,
}
use zsec_shield.Scanner.{Scanner}
use zsec_shield.Scanner.File.{Pass, add_issue, known_and_different}

-- What `lstat` answers: an OSError's text or the metadata.
pub data Lookup : Type 0 where
  missing : String → Lookup
  found : Stat → Lookup

-- `os.DirEntry`
pub record DirEntry : Type 0 where
  pub name : String
  pub path : String

-- What one `os.scandir` comes to: the `winerror` and the text of an OSError, or the entries in the system's order.
pub data Attempt : Type 0 where
  scan_failed : Option ℕ → String → Attempt
  listed : List DirEntry → Attempt

-- The file system's answers. It may change while it is scanned: an answer depends on how many directories have been
-- taken from the stack before, and that of `os.scandir` on the attempt. `casefold` is `str.casefold`.
pub record Files : Type 0 where
  pub lstat : ℕ → String → Lookup
  pub scandir : ℕ → String → ℕ → Attempt
  pub casefold : String → String

-- The key `(entry.name.casefold(), entry.name)`
unfoldable pub entry_le : Files → DirEntry → DirEntry → Bool
entry_le files a b =
    if str_eq (files.casefold a.name) (files.casefold b.name)
    then leb_text a.name b.name
    else leb_text (files.casefold a.name) (files.casefold b.name)

-- `WINDOWS_TRANSIENT_PATH_CODES`
abbrev pub is_transient : Option ℕ → Bool
is_transient none = false
is_transient (some code) = code == 2 || code == 3

abbrev pub by_attempt :
    Files → Attempt → Result String (List DirEntry) → Result String (List DirEntry)
by_attempt files (listed entries) again = ok (sorted (entry_le files) entries)
by_attempt files (scan_failed code error) again = if is_transient code then again else err error

abbrev pub last_attempt : Files → Attempt → Result String (List DirEntry)
last_attempt files (listed entries) = ok (sorted (entry_le files) entries)
last_attempt files (scan_failed code error) = err error

-- The attempts from one on, with so many retries left.
unfoldable pub attempts_from : Files → ℕ → String → ℕ → ℕ → Result String (List DirEntry)
attempts_from files turn path attempt zero = last_attempt files (files.scandir turn path attempt)
attempts_from files turn path attempt (suc retries) =
    by_attempt files (files.scandir turn path attempt)
      (attempts_from files turn path (attempt + 1) retries)

-- The length of `TRANSIENT_DIRECTORY_RETRY_DELAYS_SECONDS`
abbrev pub retries : ℕ
retries = 3

-- `_sorted_directory_entries`
unfoldable pub sorted_directory_entries : Files → ℕ → String → Result String (List DirEntry)
sorted_directory_entries files turn path = attempts_from files turn path 0 retries

-- `_is_excluded`
unfoldable pub is_excluded : Host → Scanner → String → Bool
is_excluded os scanner path = any (is_within os (path_key os path)) scanner.excluded

-- What the walk itself leaves in the pass.
pub data Remark : Type 0 where
  excluded link special_file other_filesystem : Remark
  issue : String → String → String → Remark

unfoldable pub note : Host → Remark → Pass → Pass
note os excluded s = record s {
  stats = record s.stats { skipped_excluded = s.stats.skipped_excluded + 1 };
}
note os link s = record s {
  stats = record s.stats { skipped_symlinks = s.stats.skipped_symlinks + 1 };
}
note os special_file s = record s {
  stats = record s.stats { skipped_special = s.stats.skipped_special + 1 };
}
note os other_filesystem s = record s {
  stats = record s.stats { skipped_filesystems = s.stats.skipped_filesystems + 1 };
}
note os (issue path code error) s = add_issue os path code error s

abbrev pub Identity : Type 0
Identity = ℕ × ℕ

abbrev pub identity_of : Stat → Identity
identity_of m = (m.device, m.inode)

abbrev pub same_identity : Identity → Identity → Bool
same_identity a b = a.0 == b.0 && a.1 == b.1

-- `identity[1] and identity in visited`
abbrev pub is_known : Identity → List Identity → Bool
is_known a visited = ltb 0 a.1 && any (same_identity a) visited

module _ {ℓ} {A : Type ℓ} (os : Host) (scanner : Scanner) (files : Files)
    (visit : String → Stat → Pass × A → Pass × A) where
  abbrev pub noted : Remark → Pass × A → Pass × A
  noted r (s, a) = (note os r s, a)

  abbrev pub enter_child : Bool → String → List String × (Pass × A) → List String × (Pass × A)
  enter_child true path (children, s) = (children, noted other_filesystem s)
  enter_child false path (children, s) = (children ++ path ∷ [], s)

  -- `not self.config.cross_filesystems and root_device and child_device and child_device != root_device`
  abbrev pub is_other_filesystem : ℕ → ℕ → Bool
  is_other_filesystem root_device device =
      not scanner.config.cross_filesystems && known_and_different root_device device

  -- What an entry's metadata leads to, links apart.
  abbrev pub by_kind :
      FileKind → ℕ → String → Stat → List String × (Pass × A) → List String × (Pass × A)
  by_kind directory root_device path m (children, s) =
      enter_child (is_other_filesystem root_device m.device) path (children, s)
  by_kind regular root_device path m (children, s) = (children, visit path m s)
  by_kind symlink root_device path m (children, s) = (children, noted link s)
  by_kind special root_device path m (children, s) = (children, noted special_file s)

  abbrev pub by_link :
      Bool → ℕ → String → Stat → List String × (Pass × A) → List String × (Pass × A)
  by_link true root_device path m (children, s) = (children, noted link s)
  by_link false root_device path m (children, s) = by_kind m.kind root_device path m (children, s)

  abbrev pub by_lookup : Lookup → ℕ → String → List String × (Pass × A) → List String × (Pass × A)
  by_lookup (missing error) root_device path (children, s) =
      (children, noted (issue path "entry_unreadable" error) s)
  by_lookup (found m) root_device path (children, s) =
      by_link m.reparse root_device path m (children, s)

  abbrev pub by_exclusion :
      Bool → ℕ → ℕ → String → List String × (Pass × A) → List String × (Pass × A)
  by_exclusion true turn root_device path (children, s) = (children, noted excluded s)
  by_exclusion false turn root_device path (children, s) =
      by_lookup (files.lstat turn path) root_device path (children, s)

  -- The loop over the entries of a directory; it gathers the child directories.
  unfoldable pub look_at :
      ℕ → ℕ → List DirEntry → List String × (Pass × A) → List String × (Pass × A)
  look_at turn root_device [] r = r
  look_at turn root_device (entry ∷ entries) r =
      look_at turn root_device entries
        (by_exclusion (is_excluded os scanner entry.path) turn root_device entry.path r)

  -- The variables of the walk: the stack, its top first, the identities that were entered, and the shared state.
  pub record Front : Type ℓ where
    pub stack : List String
    pub visited : List Identity
    pub state : Pass × A

  abbrev pub by_entries :
      ℕ
      → ℕ
      → String
      → List String
      → List Identity
      → Pass × A
      → Result String (List DirEntry)
      → Front
  by_entries turn root_device path stack visited s (err error) = record {
    stack = stack;
    visited = visited;
    state = noted (issue path "directory_unreadable" error) s;
  }
  by_entries turn root_device path stack visited s (ok entries) =
      let (children, t) = look_at turn root_device entries ([], s) in
      record { stack = children ++ stack; visited = visited; state = t }

  abbrev pub by_identity :
      Bool → ℕ → ℕ → String → Stat → List String → List Identity → Pass × A → Front
  by_identity true turn root_device path m stack visited s = record {
    stack = stack;
    visited = visited;
    state = noted link s;
  }
  by_identity false turn root_device path m stack visited s =
      by_entries turn root_device path stack (identity_of m ∷ visited) s
        (sorted_directory_entries files turn path)

  -- The body of `while stack:` for the directory that was on top.
  abbrev pub enter : ℕ → ℕ → String → List String → List Identity → Pass × A → Lookup → Front
  enter turn root_device path stack visited s (missing error) = record {
    stack = stack;
    visited = visited;
    state = noted (issue path "directory_unreadable" error) s;
  }
  enter turn root_device path stack visited s (found m) =
      by_identity (is_known (identity_of m) visited) turn root_device path m stack visited s

  -- `while stack:`, on fuel; `none` is the want of it.
  unfoldable pub walk : ℕ → ℕ → ℕ → List String → List Identity → Pass × A → Option (Pass × A)
  walk fuel turn root_device [] visited s = some s
  walk zero turn root_device (path ∷ stack) visited s = none
  walk (suc fuel) turn root_device (path ∷ stack) visited s =
      let next = enter turn root_device path stack visited s (files.lstat turn path) in
      walk fuel (turn + 1) root_device next.stack next.visited next.state

  abbrev pub start_kind : FileKind → ℕ → String → Stat → Pass × A → Option (Pass × A)
  start_kind regular fuel root m s = some (visit root m s)
  start_kind directory fuel root m s = walk fuel 1 m.device (root ∷ []) [] s
  start_kind symlink fuel root m s = some (noted link s)
  start_kind special fuel root m s = some (noted special_file s)

  abbrev pub start_link : Bool → ℕ → String → Stat → Pass × A → Option (Pass × A)
  start_link true fuel root m s = some (noted link s)
  start_link false fuel root m s = start_kind m.kind fuel root m s

  abbrev pub start_lookup : Lookup → ℕ → String → Pass × A → Option (Pass × A)
  start_lookup (missing error) fuel root s = some (noted (issue root "root_unreadable" error) s)
  start_lookup (found m) fuel root s = start_link m.reparse fuel root m s

  abbrev pub start_at : Bool → ℕ → String → Pass × A → Option (Pass × A)
  start_at true fuel root s = some (noted excluded s)
  start_at false fuel root s = start_lookup (files.lstat 0 root) fuel root s

  -- `_iter_regular_files`, run to its end
  unfoldable pub iter_regular_files : ℕ → String → Pass × A → Option (Pass × A)
  iter_regular_files fuel root s = start_at (is_excluded os scanner root) fuel root s
