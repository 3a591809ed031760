-- ===== src/Scanner/Accounting.antt =====
-- Proofs on the counters and the issues of `_scan_file` of src/zsec_shield/scanner.py.
use zsec_shield.Prelude.{ℕ, ◌+◌, ◌≡◌, Option, none, some, String, ◌⊎◌, length}
use zsec_shield.Host.{Host, Stat}
use zsec_shield.Models.{FileFinding}
use zsec_shield.Scanner.{Scanner}
use zsec_shield.Scanner.File.{os_error, Pass, Digests, Content}

-- What is counted of the files so far: hashed, too large, or an issue.
abbrev pub accounted : Pass → ℕ
accounted s = s.stats.files_hashed + s.stats.skipped_too_large + length s.issues

-- The observations of a file are not counted here.
abbrev SameCount : Pass → Pass → Type 0
SameCount s t = (t.stats ≡ s.stats) × (t.issues ≡ s.issues)

-- A read without a result has counted its file; one with a result leaves it to be counted as hashed.
abbrev IsRead : Pass → Option Content × Pass → Type 0
IsRead s (none, t) = accounted t ≡ accounted s + 1
IsRead s (some c, t) = SameCount s t

-- A matching file whose modification time is refused with an OSError: hashed, and with an issue all the same.
abbrev pub IsUndated : Digests → Pass → Pass → Type 0
IsUndated digests s t =
    (m : Stat) × (error : String) × (digests.modified_text m ≡ os_error error)
    × (t.stats.files_hashed ≡ s.stats.files_hashed + 1)
    × (accounted t ≡ accounted s + 2)

-- A finding comes with a file that is counted as hashed.
abbrev pub IsAccountedOnce : Digests → Pass → Option FileFinding × Pass → Type 0
IsAccountedOnce digests s (none, t) = (accounted t ≡ accounted s + 1) ⊎ IsUndated digests s t
IsAccountedOnce digests s (some f, t) =
    (accounted t ≡ accounted s + 1) × (t.stats.files_hashed ≡ s.stats.files_hashed + 1)
