-- ===== src/Scanner/Findings.antt =====
-- Proofs on what `_scan_file` of src/zsec_shield/scanner.py adds to the findings, the counters and the observations.
use zsec_shield.Prelude.{
  ℕ, ◌+◌, ◌≤◌, ◌≡◌, refl, sym, map, ◌∙◌, arith, Bool, true, false, not, ◌||◌, Option, none, some,
  String, List, [], ◌∷◌, ◌++◌, ltb, if◌then◌else◌, any, All, All-append,
}
use zsec_shield.Host.{Host, Stat, absolute}
use zsec_shield.Models.{ScanObservation, FileFinding, Rule, RuleMatch, from_rule}
use zsec_shield.Prelude.Sort.{sorted}
use zsec_shield.Scanner.{Scanner, rule_le}
use zsec_shield.Scanner.Stream.{Progress}
use zsec_shield.Scanner.File.{
  Pass, add_issue, WorkerObservation, OpenFile, Opening, open_failed, unreadable, descriptor,
  Digests, skip_too_large, add_observation, add_observations, is_pe_metadata, Content, WorkerReply,
  worker_failed, scanned, by_reply, add_trust_if, read_by_worker, has_changed, settle_whole,
  settle_read, read_in_process, matched_rules, finding_of, dated, Moment, moment, os_error,
  out_of_range, count_hashed, report_content, scan_open, scan_file, same_opened_file, is_regular,
  is_info,
}

-- No observation may lead to a quarantine.
abbrev pub IsIneligible : ScanObservation → Type 0
IsIneligible o = o.quarantine_eligible ≡ false

-- A step that reads: it counts no file as hashed, and adds no eligible observation.
abbrev pub IsQuiet : Pass → Pass → Type 0
IsQuiet s t =
    (t.stats.files_hashed ≡ s.stats.files_hashed)
    × (All IsIneligible s.observations → All IsIneligible t.observations)
    × (t.raised ≡ s.raised)

IsQuiet-trans : (s t u : Pass) → IsQuiet s t → IsQuiet t u → IsQuiet s u
IsQuiet-trans s t u h k = (k.0 ∙ h.0, λ o. k.1 (h.1 o), k.2 ∙ h.2)

pub add_issue-IsQuiet :
    (os : Host) (path code error : String) (s : Pass) → IsQuiet s (add_issue os path code error s)
unfolding add_issue
add_issue-IsQuiet os path code error s = (refl, λ o. o, refl)

skip-IsQuiet : (s : Pass) → IsQuiet s (skip_too_large s)
unfolding skip_too_large
skip-IsQuiet s = (refl, λ o. o, refl)

add_observation-IsQuiet :
    (path : String) (s : Pass) (o : WorkerObservation) → IsQuiet s (add_observation path s o)
unfolding add_observation
add_observation-IsQuiet path s o = go (is_info o.severity)
  where
    go :
        (b : Bool)
        → IsQuiet s (
            if b then s else record s {
              observations =
                  s.observations
                  ++ record {
                    path = path;
                    provider = o.provider;
                    category = o.category;
                    severity = o.severity;
                    summary = o.summary;
                    quarantine_eligible = false;
                  }
                    ∷ [];
            })
    go true = (refl, λ h. h, refl)
    go false = (refl, λ h. All-append IsIneligible s.observations _ h (refl, tt), refl)

add_observations-IsQuiet :
    (path : String) (s : Pass) (os : List WorkerObservation)
    → IsQuiet s (add_observations path s os)
unfolding add_observations
add_observations-IsQuiet path s [] = (refl, λ h. h, refl)
add_observations-IsQuiet path s (o ∷ os) =
    IsQuiet-trans s (add_observation path s o) (add_observations path (add_observation path s o) os)
      (add_observation-IsQuiet path s o)
      (add_observations-IsQuiet path (add_observation path s o) os)

add_trust_if-IsQuiet :
    (b : Bool) (path : String) (trust : Option WorkerObservation) (s : Pass)
    → IsQuiet s (add_trust_if b path trust s)
add_trust_if-IsQuiet true path none s = (refl, λ h. h, refl)
add_trust_if-IsQuiet true path (some o) s = add_observation-IsQuiet path s o
add_trust_if-IsQuiet false path trust s = (refl, λ h. h, refl)

by_reply-IsQuiet :
    (os : Host) (path : String) (trust : Option WorkerObservation) (r : WorkerReply) (s : Pass)
    → IsQuiet s (by_reply os path trust r s).1
by_reply-IsQuiet os path trust (worker_failed error) s =
    add_issue-IsQuiet os path "content_worker_failed" error s
by_reply-IsQuiet os path trust (scanned w) s =
    let t = add_observations (absolute os path) s w.observations in
    let b = any is_pe_metadata w.observations in
    IsQuiet-trans s t (add_trust_if b (absolute os path) trust t)
      (add_observations-IsQuiet (absolute os path) s w.observations)
      (add_trust_if-IsQuiet b (absolute os path) trust t)

settle_read-IsQuiet :
    (os : Host) (digests : Digests) (path : String) (f : OpenFile) (o : Option (ℕ × Progress))
    (s : Pass)
    → IsQuiet s (settle_read os digests path f o s).1
settle_read-IsQuiet os digests path f none s = skip-IsQuiet s
settle_read-IsQuiet os digests path f (some (n, p)) s = go f.read_error (has_changed f n)
  where
    go :
        (e : Option String) (changed : Bool)
        → IsQuiet s (settle_whole os digests path e changed (n, p) s).1
    go (some error) changed = add_issue-IsQuiet os path "file_read_failed" error s
    go none true = add_issue-IsQuiet os path "file_changed_during_scan" _ s
    go none false = (refl, λ h. h, refl)

-- An exception that left `_scan_file` was raised for a time out of range.
abbrev pub IsBlamed : Digests → Pass → Type 0
IsBlamed digests s = s.raised ≡ true → (m : Stat) × (digests.modified_text m ≡ out_of_range)

-- The new finding, if any, is of this path and of a file that has been counted as hashed.
abbrev pub IsSoundStep : Host → Digests → String → Pass → Option FileFinding × Pass → Type 0
IsSoundStep os digests path s (none, t) =
    (s.stats.files_hashed ≤ t.stats.files_hashed)
    × (All IsIneligible s.observations → All IsIneligible t.observations)
    × (IsBlamed digests s → IsBlamed digests t)
IsSoundStep os digests path s (some f, t) =
    (s.stats.files_hashed + 1 ≤ t.stats.files_hashed)
    × (All IsIneligible s.observations → All IsIneligible t.observations)
    × (IsBlamed digests s → IsBlamed digests t)
    × (f.path ≡ absolute os path)

pub quiet-IsBlamed :
    (digests : Digests) (s t : Pass) → t.raised ≡ s.raised → IsBlamed digests s → IsBlamed digests t
quiet-IsBlamed digests s t e h r = h (sym e ∙ r)

without_finding :
    (os : Host) (digests : Digests) (path : String) (s t : Pass)
    → IsQuiet s t
    → IsSoundStep os digests path s (none, t)
without_finding os digests path s t h = (omega (arith, h.0), h.1, quiet-IsBlamed digests s t h.2)

dated-IsSoundStep :
    (os : Host) (digests : Digests) (path : String) (c : Content) (matches : List RuleMatch)
    (m : Stat) (s t : Pass) (o : Moment)
    → digests.modified_text m ≡ o
    → IsQuiet s t
    → IsSoundStep os digests path s (dated os path c matches o (count_hashed c.bytes_read t))
unfolding count_hashed
dated-IsSoundStep os digests path c matches m s t (moment modified) e h =
    (omega (arith, h.0), h.1, quiet-IsBlamed digests s t h.2, refl)
dated-IsSoundStep os digests path c matches m s t (os_error error) e h =
    unfold add_issue in (omega (arith, h.0), h.1, quiet-IsBlamed digests s t h.2)
dated-IsSoundStep os digests path c matches m s t out_of_range e h =
    (omega (arith, h.0), h.1, λ old raised. (m, e))

report_content-IsSoundStep :
    (os : Host) (digests : Digests) (scanner : Scanner) (path : String) (f : OpenFile) (s : Pass)
    (r : Option Content × Pass)
    → IsQuiet s r.1
    → IsSoundStep os digests path s (report_content os digests scanner path f r)
unfolding count_hashed
report_content-IsSoundStep os digests scanner path f s (none, t) h =
    without_finding os digests path s t h
report_content-IsSoundStep os digests scanner path f s (some c, t) h = go (matched_rules scanner c)
  where
    go :
        (rules : List Rule)
        → IsSoundStep os digests path s
            (finding_of os digests path f c rules (count_hashed c.bytes_read t))
    go [] = (omega (arith, h.0), h.1, quiet-IsBlamed digests s t h.2)
    go (r ∷ rs) =
        dated-IsSoundStep os digests path c (map from_rule (sorted rule_le (r ∷ rs))) f.opened s t _
          refl h

scan_open-IsSoundStep :
    (os : Host) (digests : Digests) (scanner : Scanner) (path : String) (before : Stat)
    (f : OpenFile) (s : Pass)
    → IsSoundStep os digests path s (scan_open os digests scanner path before f s)
unfolding scan_open read_by_worker read_in_process
scan_open-IsSoundStep os digests scanner path before f s =
    go (not (is_regular f.opened) || not (same_opened_file before f.opened))
      (ltb scanner.config.max_file_bytes f.opened.size) scanner.config.worker_isolation
  where
    go :
        (changed large isolated : Bool)
        → IsSoundStep os digests path s (
            if changed
            then (none, add_issue os path "file_changed_before_scan" "file identity changed" s)
            else if large
            then (none, skip_too_large s)
            else report_content os digests scanner path f (
                if isolated
                then read_by_worker os path f s
                else read_in_process os digests scanner path f s))
    go true large isolated =
        without_finding os digests path s
          (add_issue os path "file_changed_before_scan" "file identity changed" s)
          (add_issue-IsQuiet os path "file_changed_before_scan" "file identity changed" s)
    go false true isolated = without_finding os digests path s (skip_too_large s) (skip-IsQuiet s)
    go false false true =
        report_content-IsSoundStep os digests scanner path f s _
          (by_reply-IsQuiet os path f.trust f.worker_reply s)
    go false false false =
        report_content-IsSoundStep os digests scanner path f s _
          (settle_read-IsQuiet os digests path f _ s)

pub scan_file-IsSoundStep :
    (os : Host) (digests : Digests) (scanner : Scanner) (path : String) (before : Stat)
    (opening : Opening) (s : Pass)
    → IsSoundStep os digests path s (scan_file os digests scanner path before opening s)
unfolding scan_file
scan_file-IsSoundStep os digests scanner path before (open_failed error) s =
    without_finding os digests path s (add_issue os path "file_open_failed" error s)
      (add_issue-IsQuiet os path "file_open_failed" error s)
scan_file-IsSoundStep os digests scanner path before (unreadable error) s =
    without_finding os digests path s (add_issue os path "file_read_failed" error s)
      (add_issue-IsQuiet os path "file_read_failed" error s)
scan_file-IsSoundStep os digests scanner path before (descriptor f) s =
    scan_open-IsSoundStep os digests scanner path before f s
