-- ===== src/Host.antt =====
-- What the program uses of the operating system's paths and of hashing, as a parameter: pathlib and
-- os.path are not this repository's code. A `Path` is its text.
use zsec_shield.Prelude.{ℕ, Bool, false, Option, none, some, String, str_eq}

pub record Host : Type 0 where
  pub abspath : String → String  -- os.path.abspath(path.expanduser())
  pub normalize : String → String  -- os.path.normcase(os.path.normpath(…))
  pub commonpath : String → String → Option String  -- `none` is the ValueError
  pub sha256_path : String → String  -- the digest of a normalized path

-- `_absolute` and `_path_key` of scanner.py and watcher.py
unfoldable pub absolute : Host → String → String
absolute os path = os.abspath path

unfoldable pub path_key : Host → String → String
unfolding absolute
path_key os path = os.normalize (absolute os path)

-- `_is_within`
unfoldable pub is_within : Host → String → String → Bool
is_within os path parent = elim (os.commonpath path parent) [
  | none ↦ false
  | some common ↦ str_eq common parent
]

-- `_snapshot_path_key`
unfoldable pub snapshot_path_key : Host → String → String
unfolding path_key
snapshot_path_key os path = os.sha256_path (path_key os path)

pub data FileKind : Type 0 where
  regular directory symlink special : FileKind

-- The fields of os.stat_result that the code reads; `reparse` is the test of `_is_reparse_point`.
pub record Stat : Type 0 where
  pub kind : FileKind
  pub reparse : Bool
  pub device : ℕ
  pub inode : ℕ
  pub size : ℕ
  pub modified_ns : ℕ
