-- ===== src/Scanner/Report.antt =====
-- Proofs on the report of src/zsec_shield/scanner.py.
use zsec_shield.Prelude.{
  ℕ, ◌≤◌, ◌≡◌, refl, sym, ap, subst, arith, Bool, Option, none, some, String, List, [], ◌∷◌, length,
  All, map, leb_text, ok, ok_injective, true, false,
}
use mathlib.Core.Option
use zsec_shield.Prelude.Sort.{sorted, All-sorted, length-sorted}
use zsec_shield.Host.{absolute, path_key}
use zsec_shield.Models.{FileFinding, ScanResult, new_stats}
use zsec_shield.Scanner.{Scanner}
use zsec_shield.Scanner.File.{Pass}
use zsec_shield.Scanner.Findings.{IsIneligible}
use zsec_shield.Scanner.Run.{
  Machine, Callbacks, Batch, scan_roots, path_le, report, unless_raised, reported, seen_at_start,
  scan,
}
use zsec_shield.Scanner.Soundness.{IsOfFile, IsSound, scan_roots-IsSound}

-- What a report says is true: its counters are the lengths of its lists, there are no more findings than hashed files,
-- every finding is of a regular file, and no observation may lead to a quarantine.
abbrev pub IsTrueReport : Machine → Scanner → ScanResult → Type 0
IsTrueReport machine scanner result =
    (result.stats.findings ≡ length result.findings)
    × (result.stats.errors ≡ length result.issues)
    × (result.stats.observations ≡ length result.observations)
    × (length result.findings ≤ result.stats.files_hashed)
    × All IsIneligible result.observations
    × All (IsOfFile machine.os scanner machine.files) result.findings

module _ {ℓ} {B : Type ℓ} (machine : Machine) (scanner : Scanner) (callbacks : Callbacks B) where
  pub report-IsTrueReport :
      (roots : List String) (s : Pass) (a : Batch B)
      → IsSound machine scanner callbacks (s, a)
      → IsTrueReport machine scanner (report machine roots s a.findings)
  unfolding report
  report-IsTrueReport roots s a (counted, harmless, found, blamed) =
      let le = λ (x y : FileFinding). path_le machine x.path y.path in
      (
        sym (length-sorted le a.findings),
        sym (length-sorted _ s.issues),
        sym (length-sorted _ s.observations),
        omega (arith, counted, length-sorted le a.findings),
        All-sorted IsIneligible _ s.observations harmless,
        All-sorted (IsOfFile machine.os scanner machine.files) le a.findings found,
      )

  calm :
      (b : Bool) (roots : List String) (s : Pass) (a : Batch B) (r : ScanResult × B)
      → unless_raised machine scanner callbacks b roots s a ≡ ok (some r)
      → (report machine roots s a.findings, a.caller) ≡ r
  calm true roots s a r h = cc
  calm false roots s a r h = Option.some-injective _ r (ok_injective h)

  -- A scan that ends gives a true report: the counters are those of its lists, there are at most as many findings as
  -- hashed files, every finding is of a path that the file system gave as a regular file, not a link and not excluded,
  -- and no observation may lead to a quarantine; whatever the file system, the worker and the caller's filter and
  -- observer answer.
  pub scan-IsTrueReport :
      (fuel : ℕ) (roots : List String) (deduplicate : Bool) (b c : B) (result : ScanResult)
      → scan machine scanner callbacks fuel roots deduplicate b ≡ ok (some (result, c))
      → IsTrueReport machine scanner result
  unfolding scan new_stats
  scan-IsTrueReport fuel [] deduplicate b c result h = cc
  scan-IsTrueReport fuel (root ∷ roots) deduplicate b c result h = go _ refl h
    where
      all_roots : List String
      all_roots = map (absolute machine.os) (root ∷ roots)

      start : Pass × Batch B
      start = (
        record {
          stats = new_stats (length all_roots);
          issues = [];
          observations = [];
          raised = false;
        },
        record { seen_paths = seen_at_start deduplicate; findings = []; visits = 0; caller = b },
      )

      order : List String
      order =
          sorted (λ (x y : String). leb_text (path_key machine.os x) (path_key machine.os y))
            all_roots

      go :
          (o : Option (Pass × Batch B))
          → scan_roots machine scanner callbacks fuel order start ≡ o
          → reported machine scanner callbacks all_roots o ≡ ok (some (result, c))
          → IsTrueReport machine scanner result
      go none e h = cc
      go (some (s, a)) e h =
          subst (IsTrueReport machine scanner)
            (ap (λ (r : ScanResult × B). r.0) (calm s.raised all_roots s a (result, c) h))
            (report-IsTrueReport all_roots s a (
              scan_roots-IsSound machine scanner callbacks fuel order start (s, a)
                (omega arith, tt, tt, λ r. cc) e))
