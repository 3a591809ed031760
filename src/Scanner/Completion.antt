-- ===== src/Scanner/Completion.antt =====
-- Proofs on a whole run of `Scanner.scan` of src/zsec_shield/scanner.py.
use zsec_shield.Prelude.{
  ℕ, ◌+◌, ◌*◌, ◌≤◌, ◌≡◌, ◌⊎◌, inl, inr, arith, refl, subst, Bool, true, false, Option, some, String,
  List, [], ◌∷◌, length, map, leb_text, Result, ok, err, sym,
}
use zsec_shield.Prelude.Sort.{sorted}
use zsec_shield.Host.{absolute, path_key, Stat}
use zsec_shield.Models.{ScanResult, new_stats}
use zsec_shield.Scanner.{Scanner, ConfigurationError, unrepresentable_time}
use zsec_shield.Scanner.File.{Pass, out_of_range}
use zsec_shield.Scanner.Walk.{Identity}
use zsec_shield.Scanner.Identities.{IsFinite}
use zsec_shield.Scanner.Termination.{iter_regular_files_ends}
use zsec_shield.Scanner.Report.{IsTrueReport, report-IsTrueReport}
use zsec_shield.Scanner.Soundness.{IsSound, scan_roots-IsSound}
use zsec_shield.Scanner.Run.{
  Machine, Callbacks, Batch, visit, and_then, scan_roots, report, unless_raised, reported,
  seen_at_start, scan,
}

-- The end of a scan: a true report, or the exception of a modification time out of range.
abbrev pub HasEnded {ℓ} :
    {B : Type ℓ} → Machine → Scanner → Result ConfigurationError (Option (ScanResult × B)) → Type ℓ
HasEnded {B} machine scanner r =
    ((result : ScanResult) × ((c : B) × ((r ≡ ok (some (result, c)))
          × IsTrueReport machine scanner result)))
    ⊎ (((m : Stat) × (machine.digests.modified_text m ≡ out_of_range))
        × (r ≡ err unrepresentable_time))

module _ {ℓ} {B : Type ℓ} (machine : Machine) (scanner : Scanner) (callbacks : Callbacks B)
    (ids : List Identity) (width : ℕ) (fin : IsFinite machine.files ids width) where
  scan_roots_ends :
      (fuel : ℕ) (roots : List String) (r : Pass × Batch B)
      → length ids * width + 1 ≤ fuel
      → (t : Pass × Batch B) × (scan_roots machine scanner callbacks fuel roots r ≡ some t)
  unfolding scan_roots
  scan_roots_ends fuel [] r h = (r, refl)
  scan_roots_ends fuel (root ∷ roots) r h =
      let (u, walked) =
        iter_regular_files_ends machine.os scanner machine.files (visit machine scanner callbacks)
          ids width fin fuel root r h in
      subst
        (λ (o : Option (Pass × Batch B)).
          (t : Pass × Batch B) × (and_then machine scanner callbacks o
              (λ x. scan_roots machine scanner callbacks fuel roots x)
            ≡ some t))
        (sym walked) (scan_roots_ends fuel roots u h)

  reported-HasEnded :
      (roots : List String) (s : Pass) (a : Batch B) (b : Bool)
      → s.raised ≡ b
      → IsSound machine scanner callbacks (s, a)
      → HasEnded machine scanner (unless_raised machine scanner callbacks b roots s a)
  reported-HasEnded roots s a true e h = inr (h.3 e, refl)
  reported-HasEnded roots s a false e h = inl (
    report machine roots s a.findings,
    (a.caller, (refl, report-IsTrueReport machine scanner callbacks roots s a h)),
  )

  -- A scan of at least one root ends, on a file system whose answers name finitely many identities, each with an inode
  -- that is not 0, and list at most `width` entries at a time: fuel for each identity times the width, and one, is
  -- enough, whatever loops the directories form and however the answers change on the way. It ends with a true report,
  -- or with an exception, which only a modification time that `datetime` refuses as out of range can cause.
  pub scan_ends :
      (fuel : ℕ) (root : String) (roots : List String) (deduplicate : Bool) (b : B)
      → length ids * width + 1 ≤ fuel
      → HasEnded machine scanner (scan machine scanner callbacks fuel (root ∷ roots) deduplicate b)
  unfolding scan new_stats
  scan_ends fuel root roots deduplicate b h =
      let all_roots = map (absolute machine.os) (root ∷ roots) in
      let order =
        sorted (λ (x y : String). leb_text (path_key machine.os x) (path_key machine.os y))
          all_roots in
      let start : Pass × Batch B = (
        record {
          stats = new_stats (length all_roots);
          issues = [];
          observations = [];
          raised = false;
        },
        record { seen_paths = seen_at_start deduplicate; findings = []; visits = 0; caller = b },
      ) in
      let (t, walked) = scan_roots_ends fuel order start h in
      let sound : IsSound machine scanner callbacks t =
        scan_roots-IsSound machine scanner callbacks fuel order start t
          (omega arith, tt, tt, λ r. cc) walked in
      subst
        (λ (o : Option (Pass × Batch B)).
          HasEnded machine scanner (reported machine scanner callbacks all_roots o))
        (sym walked) (reported-HasEnded all_roots t.0 t.1 t.0.raised refl sound)
