-- ===== src/Status/Outcome.antt =====
-- Proofs on the outcomes that src/zsec_shield/status_store.py saves and loads.
use zsec_shield.Prelude.{
  ℕ, ◌*◌, ◌<◌, ◌≡◌, ◌⊎◌, refl, sym, ap, ◌∙◌, subst, arith, Bool, true, false, not, ◌&&◌, ◌||◌,
  Option, none, some, String, List, all, &&_split, str_eq, eq_iff, length, leb, ◌==◌, text_in,
  Bool-cases, inl, inr, ok, ◌>>=◌, guard, or_raise, ok_injective, >>=-eq-ok, guard-eq-ok,
  or_raise-eq-ok,
}
use mathlib.Core.Option
use zsec_shield.Json.{
  Json, null, int, text, object, Fields, end, field, field_names, get_field, has_exact_keys,
}
use zsec_shield.Json.Strict.{insert_field, Decoder, strict_json_loads}
use zsec_shield.Vault.Lookup.{get_field-insert_other, get_field-insert_new}
use zsec_shield.Zba.{text_of}
use zsec_shield.Status.{
  Schema, first, second, third, StatusError, Summary, save_last_scan, schema_of, expected_fields,
  counter, further_counters, is_third, clean_text, finding_text, review_text, allowed_outcomes,
  check_outcome, completed, is_empty, check_last_scan, StatusFile, bytes_of, no_file, broken_file,
  load_last_scan,
}

-- What each outcome claims of the findings, the issues and the observations.
pub data IsOutcome : String → ℕ → ℕ → ℕ → Type 0 where
  clean : IsOutcome clean_text 0 0 0
  matched :
      (findings observations : ℕ) → 0 < findings → IsOutcome finding_text findings 0 observations
  reviewed : (observations : ℕ) → 0 < observations → IsOutcome review_text 0 0 observations
  incomplete :
      (findings issues observations : ℕ) → IsOutcome "incomplete" findings issues observations

abbrev seen : Schema → ℕ → ℕ
seen third n = n
seen _ n = 0

refused : (b x : Bool) → not (b && x) ≡ true → b ≡ true → x ≡ false
refused b x h e = ground arith

guard_passed : (b : Bool) (e : StatusError) → guard b e ≡ ok tt → b ≡ true
unfolding guard
guard_passed true e h = refl
guard_passed false e h = cc

clean_claims :
    (schema : Schema) (f i o : ℕ)
    → (not (f == 0) || not (i == 0) || is_third schema && not (o == 0)) ≡ false
    → IsOutcome clean_text f i (seen schema o)
clean_claims third f i o h =
    let no_findings : f ≡ 0 = ground arith in
    let no_issues : i ≡ 0 = ground arith in
    let no_observations : o ≡ 0 = ground arith in rw (no_findings, no_issues, no_observations) clean
clean_claims first f i o h =
    let no_findings : f ≡ 0 = ground arith in
    let no_issues : i ≡ 0 = ground arith in rw (no_findings, no_issues) clean
clean_claims second f i o h =
    let no_findings : f ≡ 0 = ground arith in
    let no_issues : i ≡ 0 = ground arith in rw (no_findings, no_issues) clean

finding_claims : (f i o : ℕ) → (f == 0 || not (i == 0)) ≡ false → IsOutcome finding_text f i o
finding_claims f i o h =
    let no_issues : i ≡ 0 = ground arith in rw no_issues (matched f o (ground arith))

review_claims :
    (schema : Schema) (f i o : ℕ)
    → (not (is_third schema) || not (f == 0) || not (i == 0) || o == 0) ≡ false
    → IsOutcome review_text f i (seen schema o)
review_claims third f i o h =
    let no_findings : f ≡ 0 = ground arith in
    let no_issues : i ≡ 0 = ground arith in rw (no_findings, no_issues) (reviewed o (ground arith))
review_claims first f i o h = cc
review_claims second f i o h = cc

check_outcome-IsOutcome :
    (schema : Schema) (outcome : String) (f i o : ℕ)
    → check_outcome schema outcome f i o ≡ ok tt
    → IsOutcome outcome f i (seen schema o)
unfolding check_outcome
check_outcome-IsOutcome schema outcome f i o h =
    let (allowed, h1) = guard-eq-ok _ _ _ h in
    let (clean_ok, h2) = guard-eq-ok _ _ _ h1 in
    let (finding_ok, h3) = guard-eq-ok _ _ _ h2 in
    by_outcome allowed clean_ok finding_ok (guard_passed _ _ h3) (Bool-cases _) (Bool-cases _)
      (Bool-cases _)
  where
    named :
        (s : String)
        → str_eq outcome s ≡ true
        → IsOutcome s f i (seen schema o)
        → IsOutcome outcome f i (seen schema o)
    named s e claims =
        subst (λ (x : String). IsOutcome x f i (seen schema o)) (sym ((eq_iff outcome s).0 e))
          claims

    by_outcome :
        text_in outcome allowed_outcomes ≡ true
        → not (
            str_eq outcome clean_text
            && (not (f == 0) || not (i == 0) || is_third schema && not (o == 0)))
          ≡ true
        → not (str_eq outcome finding_text && (f == 0 || not (i == 0))) ≡ true
        → not (
            str_eq outcome review_text
            && (not (is_third schema) || not (f == 0) || not (i == 0) || o == 0))
          ≡ true
        → (str_eq outcome clean_text ≡ true) ⊎ (str_eq outcome clean_text ≡ false)
        → (str_eq outcome finding_text ≡ true) ⊎ (str_eq outcome finding_text ≡ false)
        → (str_eq outcome review_text ≡ true) ⊎ (str_eq outcome review_text ≡ false)
        → IsOutcome outcome f i (seen schema o)
    by_outcome allowed a b c (inl e) y z =
        named clean_text e (clean_claims schema f i o (refused _ _ a e))
    by_outcome allowed a b c (inr x) (inl e) z =
        named finding_text e (finding_claims f i (seen schema o) (refused _ _ b e))
    by_outcome allowed a b c (inr x) (inr y) (inl e) =
        named review_text e (review_claims schema f i o (refused _ _ c e))
    by_outcome allowed a b c (inr x) (inr y) (inr z) =
        let last : str_eq outcome "incomplete" ≡ true = ground arith in
        named "incomplete" last (incomplete f i (seen schema o))

counter-eq-ok : (o : Option Json) (n : ℕ) → counter o ≡ ok n → o ≡ some (int n)
counter-eq-ok none n h = cc
counter-eq-ok (some (int m)) n h = ap (λ (x : ℕ). some (int x)) (ok_injective h)
counter-eq-ok (some _) n h = cc

text_of-some : (o : Option Json) (s : String) → text_of o ≡ some s → o ≡ some (text s)
text_of-some none s h = cc
text_of-some (some (text r)) s h = ap (λ (x : String). some (text x)) (Option.some-injective r s h)
text_of-some (some _) s h = cc

absent_key :
    (expected : List String) (k : String) (fs : Fields)
    → all (λ (j : String). text_in j expected) (field_names fs) ≡ true
    → text_in k expected ≡ false
    → get_field k fs ≡ none
unfolding get_field field_names
absent_key expected k end h n = refl
absent_key expected k (field j v fs) h n = elim (Bool-cases (str_eq j k)) [
  | inl e ↦
      let same : j ≡ k = (eq_iff j k).0 e in
      let present : text_in j expected ≡ true = ground arith in
      let missing : text_in j expected ≡ false = ap (λ x. text_in x expected) same ∙ n in cc
  | inr e ↦ rw e (absent_key expected k fs (ground arith) n)
]

-- A summary whose outcome says what its counters are.
abbrev pub IsTrueSummary : Fields → Type 0
IsTrueSummary fs =
    (outcome : String) × ((findings : ℕ) × ((issues : ℕ) × ((observations : ℕ) × ((get_field
                "outcome" fs
              ≡ some (text outcome))
            × ((get_field "findings" fs ≡ some (int findings))
                × ((get_field "issues" fs ≡ some (int issues))
                    × ((get_field "observations" fs ≡ some (int observations))
                        × IsOutcome outcome findings issues observations)))))))

other :
    (k j : String) (v : Json) (fs : Fields) (o : Option Json)
    → str_eq k j ≡ false
    → get_field j fs ≡ o
    → get_field j (insert_field k v fs) ≡ o
other k j v fs o e h = get_field-insert_other k j v fs e ∙ h

completed-IsTrueSummary :
    (schema : Schema) (fs : Fields) (outcome : String) (f i o : ℕ)
    → all (λ (j : String). text_in j (expected_fields schema)) (field_names fs) ≡ true
    → get_field "outcome" fs ≡ some (text outcome)
    → get_field "findings" fs ≡ some (int f)
    → get_field "issues" fs ≡ some (int i)
    → further_counters schema fs ≡ ok o
    → IsOutcome outcome f i (seen schema o)
    → IsTrueSummary (completed schema fs)
unfolding further_counters
completed-IsTrueSummary third fs outcome f i o keys ho hf hi further claims =
    let (files, _, h1) = >>=-eq-ok _ _ further in
    let (bytes, _, h2) = >>=-eq-ok _ _ h1 in
    (
      outcome,
      (f, (i, (o, (ho, (hf, (hi, (counter-eq-ok (get_field "observations" fs) o h2, claims))))))),
    )
completed-IsTrueSummary second fs outcome f i o keys ho hf hi further claims = (
  outcome,
  (
    f,
    (
      i,
      (
        0,
        (
          other "observations" "outcome" _ fs _ refl ho,
          (
            other "observations" "findings" _ fs _ refl hf,
            (
              other "observations" "issues" _ fs _ refl hi,
              (
                get_field-insert_new "observations" _ fs
                    (absent_key (expected_fields second) "observations" fs keys refl),
                claims,
              ),
            ),
          ),
        ),
      ),
    ),
  ),
)
completed-IsTrueSummary first fs outcome f i o keys ho hf hi further claims =
    let gs = insert_field "bytes_hashed" null (insert_field "files_hashed" null fs) in
    let through : (j : String) (r : Option Json)
        → str_eq "bytes_hashed" j ≡ false
        → str_eq "files_hashed" j ≡ false
        → get_field j fs ≡ r
        → get_field j gs ≡ r =
      λ j r e1 e2 h. other "bytes_hashed" j _ _ r e1 (other "files_hashed" j _ fs r e2 h) in
    (
      outcome,
      (
        f,
        (
          i,
          (
            0,
            (
              other "observations" "outcome" _ gs _ refl (through "outcome" _ refl refl ho),
              (
                other "observations" "findings" _ gs _ refl (through "findings" _ refl refl hf),
                (
                  other "observations" "issues" _ gs _ refl (through "issues" _ refl refl hi),
                  (
                    get_field-insert_new "observations" _ gs (
                        through "observations" _ refl refl
                          (absent_key (expected_fields first) "observations" fs keys refl)),
                    claims,
                  ),
                ),
              ),
            ),
          ),
        ),
      ),
    )

check_last_scan-IsTrueSummary :
    (value : Json) (fs : Fields) → check_last_scan value ≡ ok fs → IsTrueSummary fs
unfolding check_last_scan has_exact_keys
check_last_scan-IsTrueSummary value fs h =
    let (gs, _, h1) = >>=-eq-ok _ _ h in
    let (schema, _, h2) = >>=-eq-ok _ _ h1 in
    let (keys, h3) = guard-eq-ok _ _ _ h2 in
    let (f, hf, h4) = >>=-eq-ok _ _ h3 in
    let (i, hi, h5) = >>=-eq-ok _ _ h4 in
    let (o, further, h6) = >>=-eq-ok _ _ h5 in
    let (completed_at, _, h7) = >>=-eq-ok _ _ h6 in
    let (_, h8) = guard-eq-ok _ _ _ h7 in
    let (outcome, ho, h9) = >>=-eq-ok _ _ h8 in
    let (u, checked, h10) = >>=-eq-ok _ _ h9 in
    subst IsTrueSummary (ok_injective h10) (
      completed-IsTrueSummary schema gs outcome f i o (&&_split _ _ keys).0
        (text_of-some (get_field "outcome" gs) outcome (or_raise-eq-ok _ _ ho))
        (counter-eq-ok (get_field "findings" gs) f hf) (counter-eq-ok (get_field "issues" gs) i hi)
        further (check_outcome-IsOutcome schema outcome f i o checked))

-- Whatever stands in the status file, in any of the three schemas, a summary that is loaded has an outcome that agrees
-- with its counters: a clean one counts nothing, a match counts findings and no issue, a review counts observations only.
pub load_last_scan-IsTrueSummary :
    (d : Decoder) (file : StatusFile) (fs : Fields)
    → load_last_scan d file ≡ ok (some fs)
    → IsTrueSummary fs
unfolding load_last_scan
load_last_scan-IsTrueSummary d (bytes_of bytes) fs h =
    let (_, h1) = guard-eq-ok _ _ _ h in
    let (value, _, h2) = >>=-eq-ok _ _ h1 in
    let (gs, checked, h3) = >>=-eq-ok _ _ h2 in
    subst IsTrueSummary (Option.some-injective gs fs (ok_injective h3))
      (check_last_scan-IsTrueSummary value gs checked)
load_last_scan-IsTrueSummary d no_file fs h = cc
load_last_scan-IsTrueSummary d broken_file fs h = cc

IsOutcome-check_outcome :
    (outcome : String) (f i o : ℕ)
    → IsOutcome outcome f i o
    → check_outcome third outcome f i o ≡ ok tt
unfolding check_outcome ◌>>=◌ guard
IsOutcome-check_outcome _ _ _ _ clean = refl
IsOutcome-check_outcome _ _ _ _ (matched f o h) =
    let some_findings : (f == 0) ≡ false = ground arith in rw some_findings refl
IsOutcome-check_outcome _ _ _ _ (reviewed o h) =
    let some_observations : (o == 0) ≡ false = ground arith in rw some_observations refl
IsOutcome-check_outcome _ _ _ _ (incomplete f i o) = refl

-- A summary that is saved with an outcome that agrees with its counters and a time of completion is loaded as it was
-- saved, from bytes of the permitted size that decode to it.
pub load-save :
    (d : Decoder) (bytes : List ℕ) (s : Summary)
    → leb (length bytes) (32 * 1024) ≡ true
    → strict_json_loads d bytes ≡ some (object (save_last_scan s))
    → is_empty s.completed_at ≡ false
    → IsOutcome s.outcome s.findings s.issues s.observations
    → load_last_scan d (bytes_of bytes) ≡ ok (some (save_last_scan s))
unfolding load_last_scan check_last_scan save_last_scan schema_of further_counters has_exact_keys
    field_names get_field ◌>>=◌ guard or_raise
load-save d bytes s small decodes timed claims =
    rw
      (
        small,
        decodes,
        timed,
        IsOutcome-check_outcome s.outcome s.findings s.issues s.observations claims,
      )
      refl
