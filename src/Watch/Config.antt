-- ===== src/Watch/Config.antt =====
-- `WatchConfig` and `normalize_watch_roots` of src/zsec_shield/watcher.py. Durations are milliseconds.
pub mod Roots
use zsec_shield.Prelude.{
  ℕ, ◌+◌, ◌≤◌, ◌≡◌, ◌⊎◌, Bool, true, false, not, ◌&&◌, ◌||◌, Option, none, some, String, List, [],
  ◌∷◌, ◌++◌, refl, arith, ap, sym, ◌∙◌, subst, str_eq, eq_iff, ltb, leb, ◌==◌, if◌then◌else◌, any,
  All, length, codes, leb_text, text_in, Bool-cases, inl, inr, Result, ok, err, ◌>>=◌, ◌>>◌, guard,
  or_raise, >>=-eq-ok, guard-eq-ok, ok_injective, not-true,
}
use mathlib.Core.List.{append-nil, append_assoc}
use zsec_shield.Prelude.Sort.{sorted, All-sorted_back}
use zsec_shield.Host.{
  Host, absolute, path_key, is_within, FileKind, regular, directory, symlink, special, Stat,
}

-- The messages of the `WatchError`s raised here.
pub data WatchError : Type 0 where
  bad_backend bad_debounce bad_poll bad_reconcile bad_full_rescan bad_queue_size bad_heartbeat :
      WatchError
  no_roots inside_state_dir inaccessible_root linked_root not_a_directory no_distinct_root :
      WatchError

pub record WatchConfig : Type 0 where
  pub roots : List String
  pub state_dir : String
  pub backend : String
  pub debounce : ℕ
  pub poll : ℕ
  pub reconcile : ℕ
  pub full_rescan : ℕ
  pub cross_filesystems : Bool
  pub quarantine : Bool
  pub event_queue_size : ℕ
  pub heartbeat : ℕ

abbrev pub in_range : ℕ → ℕ → ℕ → Bool
in_range low high n = leb low n && leb n high

abbrev pub is_empty {ℓ} : {A : Type ℓ} → List A → Bool
is_empty [] = true
is_empty (x ∷ xs) = false

-- `__post_init__`
unfoldable pub check_config : WatchConfig → Result WatchError (Unit {0})
check_config c = do
  guard (text_in c.backend ("auto" ∷ "native" ∷ "polling" ∷ [])) bad_backend
  guard (in_range 50 30000 c.debounce) bad_debounce
  guard (in_range 50 60000 c.poll) bad_poll
  guard (in_range 100 86400000 c.reconcile) bad_reconcile
  guard (in_range c.reconcile 604800000 c.full_rescan) bad_full_rescan
  guard (in_range 16 1000000 c.event_queue_size) bad_queue_size
  guard (in_range 100 3600000 c.heartbeat) bad_heartbeat
  guard (not (is_empty c.roots)) no_roots
  ok tt

pub record WatchRoot : Type 0 where
  pub path : String
  pub key : String
  pub device : ℕ
  pub inode : ℕ

abbrev pub is_link : Stat → Bool
is_link s = elim s.kind [ symlink ↦ true | _ ↦ s.reparse ]

abbrev pub is_directory : Stat → Bool
is_directory s = elim s.kind [ directory ↦ true | _ ↦ false ]

-- The checks on one requested root; `lstat` is `none` where it raises OSError.
unfoldable pub candidate :
    Host → (String → Option Stat) → String → String → Result WatchError WatchRoot
candidate os lstat state_key requested = do
  guard (not (is_within os (path_key os (absolute os requested)) state_key)) inside_state_dir
  metadata ← or_raise (lstat (absolute os requested)) inaccessible_root
  guard (not (is_link metadata)) linked_root
  guard (is_directory metadata) not_a_directory
  ok (record {
    path = absolute os requested;
    key = path_key os (absolute os requested);
    device = metadata.device;
    inode = metadata.inode;
  })

unfoldable pub candidates :
    Host → (String → Option Stat) → String → List String → Result WatchError (List WatchRoot)
candidates os lstat state_key [] = ok []
candidates os lstat state_key (r ∷ rs) = do
  root ← candidate os lstat state_key r
  rest ← candidates os lstat state_key rs
  ok (root ∷ rest)

-- The order by `(len(item.key), item.key)`
unfoldable pub root_le : WatchRoot → WatchRoot → Bool
root_le a b =
    ltb (length (codes a.key)) (length (codes b.key))
    || length (codes a.key) == length (codes b.key) && leb_text a.key b.key

-- `candidate.key == root.key or _is_within(candidate.key, root.key)`
unfoldable pub covers : Host → WatchRoot → WatchRoot → Bool
covers os c r = str_eq c.key r.key || is_within os c.key r.key

-- The loop that keeps what no kept root covers.
unfoldable pub add_root : Host → List WatchRoot → WatchRoot → List WatchRoot
unfolding covers
add_root os unique c = if any (covers os c) unique then unique else unique ++ c ∷ []

unfoldable pub distinct_roots : Host → List WatchRoot → List WatchRoot → List WatchRoot
unfolding add_root
distinct_roots os unique [] = unique
distinct_roots os unique (c ∷ cs) = distinct_roots os (add_root os unique c) cs

unfoldable pub normalize_watch_roots :
    Host → (String → Option Stat) → String → List String → Result WatchError (List WatchRoot)
normalize_watch_roots os lstat state_dir roots = do
  found ← candidates os lstat (path_key os state_dir) roots
  let unique = distinct_roots os [] (sorted root_le found)
  guard (not (is_empty unique)) no_distinct_root
  ok unique
