-- ===== src/Tests/Scanner.antt =====
-- A scan of a directory that contains itself and one file, and the read of that file in three chunks.
use zsec_shield.Prelude.{
  ℕ, ◌≤◌, ◌<◌, ◌≡◌, refl, arith, Bool, true, false, none, some, List, [], ◌∷◌, str_eq, length, inl,
  inr, subst, any, ok, ◌>>=◌, guard,
}
use zsec_shield.Prelude.Sort.{sorted}
use zsec_shield.Host.{Stat, regular, directory}
use zsec_shield.Models.{Rule, high, literal, new_stats, ScanResult}
use zsec_shield.Scanner.{Scanner, ScannerConfig, new_scanner, check_rules, longest}
use zsec_shield.Scanner.Stream.{read_all}
use zsec_shield.Scanner.File.{
  Pass, OpenFile, descriptor, worker_failed, Digests, has_changed, literals_of, Content, moment,
  out_of_range, read_in_process,
}
use zsec_shield.Scanner.Detection.{IsExact, read_in_process-IsExact}
use zsec_shield.Scanner.Walk.{
  Files, Lookup, found, listed, DirEntry, Identity, identity_of, same_identity,
}
use zsec_shield.Scanner.Identities.{IsFinite}
use zsec_shield.Scanner.Run.{Machine, Callbacks, scan}
use zsec_shield.Scanner.Report.{IsTrueReport, scan-IsTrueReport}
use zsec_shield.Scanner.Completion.{HasEnded, scan_ends}
use zsec_shield.Tests.Watch.{host}

abbrev folder : Stat
folder = record {
  kind = directory;
  reparse = false;
  device = 1;
  inode = 5;
  size = 0;
  modified_ns = 0;
}

abbrev plain : Stat
plain = record { kind = regular; reparse = false; device = 1; inode = 6; size = 5; modified_ns = 9 }

abbrev answer : Bool → Lookup
answer true = found plain
answer false = found folder

abbrev both : List DirEntry
both = record { name = "a"; path = "/r/a" } ∷ record { name = "loop"; path = "/r/loop" } ∷ []

-- Every path but one is the same directory.
abbrev files : Files
files = record {
  lstat = λ turn path. answer (str_eq path "/r/a");
  scandir = λ turn path attempt. listed both;
  casefold = λ s. s;
}

abbrev bad_rule : Rule
bad_rule = record {
  rule_id = "R1";
  name = "bad";
  kind = literal;
  severity = high;
  description = "";
  source = "";
  digest = none;
  literal = some (2 ∷ 3 ∷ 4 ∷ []);
}

abbrev config : ScannerConfig
config = record {
  max_file_bytes = 100;
  chunk_bytes = 4096;
  cross_filesystems = false;
  excluded_paths = [];
  worker_isolation = false;
  worker_timeout = 30000;
  worker_max_requests = 1000;
}

abbrev scanner : Scanner
scanner = record {
  config = config;
  excluded = [];
  literal_rules = bad_rule ∷ [];
  digest_rules = [];
  maximum_literal = 3;
}

built : new_scanner host (bad_rule ∷ []) config ≡ ok scanner
unfolding new_scanner ◌>>=◌ guard sorted check_rules longest
built = refl

abbrev digests : Digests
digests = record { sha256 = λ bytes. "d"; modified_text = λ m. moment "t" }

-- The pattern is cut twice.
abbrev opened : OpenFile
opened = record {
  opened = plain;
  chunks = (1 ∷ 2 ∷ []) ∷ (3 ∷ []) ∷ (4 ∷ 5 ∷ []) ∷ [];
  read_error = none;
  after = plain;
  worker_reply = worker_failed "";
  trust = none;
}

abbrev nothing : Pass
nothing = record { stats = new_stats 1; issues = []; observations = []; raised = false }

abbrev whole : Content
whole = record { hex_digest = "d"; bytes_read = 5; matched = "R1" ∷ [] }

was_read : read_in_process host digests scanner "/r/a" opened nothing ≡ (some whole, nothing)
unfolding read_in_process read_all has_changed literals_of
was_read = refl

read_in_process-IsExact_example : IsExact digests scanner opened.chunks whole × (nothing ≡ nothing)
read_in_process-IsExact_example =
    read_in_process-IsExact host digests (bad_rule ∷ []) config scanner "/r/a" opened nothing
      nothing whole built was_read

abbrev machine : Machine
machine = record {
  os = host;
  digests = digests;
  files = files;
  opening = λ n path. descriptor opened;
  normcase = λ s. s;
}

abbrev no_callbacks : Callbacks ℕ
no_callbacks = record { file_filter = none; file_observer = none }

abbrev identities : List Identity
identities = (1, 5) ∷ (1, 6) ∷ []

abbrev IsNumbered : Stat → Type 0
IsNumbered m = (0 < m.inode) × (any (same_identity (identity_of m)) identities ≡ true)

files-IsFinite : IsFinite files identities 2
files-IsFinite = record {
  known = λ turn path m e. go (str_eq path "/r/a") m e;
  narrow = λ turn path attempt entries e. narrow both entries e (omega arith);
}
  where
    go : (b : Bool) (m : Stat) → answer b ≡ found m → IsNumbered m
    go true m e = let same : plain ≡ m = cc in subst IsNumbered same (omega arith, refl)
    go false m e = let same : folder ≡ m = cc in subst IsNumbered same (omega arith, refl)

    narrow :
        (entries es : List DirEntry)
        → listed entries ≡ listed es
        → length entries ≤ 2
        → length es ≤ 2
    narrow entries es e h =
        let same : entries ≡ es = cc in subst (λ (xs : List DirEntry). length xs ≤ 2) same h

scan_ends_example :
    HasEnded machine scanner (scan machine scanner no_callbacks 5 ("/r" ∷ []) true 0)
scan_ends_example =
    scan_ends machine scanner no_callbacks identities 2 files-IsFinite 5 "/r" [] true 0
      (omega arith)

abbrev Completed : Type 0
Completed =
    (result : ScanResult) × ((c : ℕ) × (scan machine scanner no_callbacks 9 ("/r" ∷ []) false 0
        ≡ ok (some (result, c))))

always_dated : ¬ (moment "t" ≡ out_of_range)
always_dated e = cc

completed : Completed
completed =
    elim (scan_ends machine scanner no_callbacks identities 2 files-IsFinite 9 "/r" [] false 0
      (omega arith)) [
        | inl (result, (c, (e, r))) ↦ (result, (c, e))
        | inr ((m, e), r) ↦ absurd (always_dated e)
      ]

scan-IsTrueReport_example : IsTrueReport machine scanner completed.0
scan-IsTrueReport_example =
    scan-IsTrueReport machine scanner no_callbacks 9 ("/r" ∷ []) false 0 completed.1.0 completed.0
      completed.1.1
