-- ===== src/Scanner/Detection.antt =====
-- Proofs on the rules that a read of src/zsec_shield/scanner.py matches, against a search of the whole content.
use zsec_shield.Prelude.{
  ℕ, ◌≤◌, ◌≡◌, refl, sym, ap, ◌∙◌, subst, arith, Bool, true, false, not, Option, none, some, String,
  List, [], ◌∷◌, ◌++◌, str_eq, eq_iff, if◌then◌else◌, any, All, keep, length, text_in, occurs,
  not-true, &&_split, ok, >>=-eq-ok, guard-eq-ok, ok_injective,
}
use mathlib.Core.Option
use zsec_shield.Prelude.Sort.{sorted}
use zsec_shield.Host.{Host}
use zsec_shield.Models.{Rule, RuleKind, sha256, literal}
use zsec_shield.Scanner.{
  Scanner, ScannerConfig, is_literal, pattern_of, rule_le, distinct_ids, lacks_pattern, check_rules,
  longest, new_scanner,
}
use zsec_shield.Scanner.Stream.{Progress, nothing_read, read_all}
use zsec_shield.Scanner.Content.{matches_whole, Fits, content_of, read_all_exact}
use zsec_shield.Scanner.File.{
  Pass, OpenFile, Digests, Content, literals_of, settle_read, settle_whole, has_changed,
  read_in_process, digest_is, matched_rules,
}

-- Rules of different identifiers, with patterns that fit the maximum.
pub record IsReady (scanner : Scanner) : Type 0 where
  pub distinct : distinct_ids scanner.literal_rules ≡ true
  pub fitting : All (Fits scanner.maximum_literal) (literals_of scanner.literal_rules)

-- The reference: the literal rules whose pattern occurs in the content, and the digest rules of its digest.
unfoldable pub matching_rules : Digests → Scanner → List ℕ → List Rule
matching_rules digests scanner content =
    keep (λ (r : Rule). occurs (pattern_of r) content) scanner.literal_rules
    ++ keep (λ (r : Rule). digest_is (digests.sha256 content) r.digest) scanner.digest_rules

abbrev same_id : Rule → Rule → Bool
same_id r q = str_eq q.rule_id r.rule_id

whole-absent :
    (content : List ℕ) (r : Rule) (rs : List Rule)
    → any (same_id r) rs ≡ false
    → matches_whole content r.rule_id (literals_of rs) ≡ false
unfolding literals_of
whole-absent content r [] h = refl
whole-absent content r (q ∷ rs) h =
    ground
      (arith, eq_iff q.rule_id r.rule_id, eq_iff r.rule_id q.rule_id, whole-absent content r rs)

-- Where an identifier belongs to one rule, it is matched exactly if the rule's own pattern occurs.
abbrev IsOwn : List ℕ → List Rule → Rule → Type 0
IsOwn content all_rules r =
    matches_whole content r.rule_id (literals_of all_rules) ≡ occurs (pattern_of r) content

IsOwn-cons :
    (content : List ℕ) (q : Rule) (rs some_rules : List Rule)
    → any (same_id q) some_rules ≡ false
    → All (IsOwn content rs) some_rules
    → All (IsOwn content (q ∷ rs)) some_rules
unfolding literals_of
IsOwn-cons content q rs [] h k = tt
IsOwn-cons content q rs (r ∷ more) h k = (
  ground (arith, eq_iff r.rule_id q.rule_id, k.0),
  IsOwn-cons content q rs more (ground arith) k.1,
)

All-IsOwn : (content : List ℕ) (rs : List Rule) → distinct_ids rs ≡ true → All (IsOwn content rs) rs
unfolding literals_of
All-IsOwn content [] h = tt
All-IsOwn content (r ∷ rs) h =
    let (fresh, rest) = &&_split _ _ h in
    let apart : any (same_id r) rs ≡ false = not-true _ fresh in
    (
      ground (arith, eq_iff r.rule_id r.rule_id, whole-absent content r rs apart),
      IsOwn-cons content r rs rs apart (All-IsOwn content rs rest),
    )

keep_same {ℓ} :
    {A : Type ℓ} (p q : A → Bool) (xs : List A)
    → All (λ (x : A). p x ≡ q x) xs
    → keep p xs ≡ keep q xs
keep_same p q [] h = refl
keep_same p q (x ∷ xs) h = ground (arith, h.0, keep_same p q xs h.1)

found-All :
    (found : String → Bool) (content : List ℕ) (all_rules rs : List Rule)
    → ((id : String) → found id ≡ matches_whole content id (literals_of all_rules))
    → All (IsOwn content all_rules) rs
    → All (λ (r : Rule). found r.rule_id ≡ occurs (pattern_of r) content) rs
found-All found content all_rules [] e h = tt
found-All found content all_rules (r ∷ rs) e h =
    (e r.rule_id ∙ h.0, found-All found content all_rules rs e h.1)

-- What a completed read tells of the file.
abbrev pub IsExact : Digests → Scanner → List (List ℕ) → Content → Type 0
IsExact digests scanner chunks c =
    (c.hex_digest ≡ digests.sha256 (content_of chunks))
    × (c.bytes_read ≡ length (content_of chunks))
    × (matched_rules scanner c ≡ matching_rules digests scanner (content_of chunks))

-- The content that a whole read comes to.
abbrev whole_content : Digests → ℕ → Progress → Content
whole_content digests n p = record {
  hex_digest = digests.sha256 p.digested;
  bytes_read = n;
  matched = p.matches;
}

whole_content-IsExact :
    (digests : Digests) (scanner : Scanner) (chunks : List (List ℕ)) (n : ℕ) (p : Progress)
    → IsReady scanner
    → read_all scanner.config.max_file_bytes scanner.maximum_literal
        (literals_of scanner.literal_rules)
        chunks
        0
        nothing_read
      ≡ some (n, p)
    → IsExact digests scanner chunks (whole_content digests n p)
unfolding matched_rules matching_rules
whole_content-IsExact digests scanner chunks n p ready e =
    let (digested, counted, found) = read_all_exact _ _ _ chunks n p ready.fitting e in
    let digest : digests.sha256 p.digested ≡ digests.sha256 (content_of chunks) =
      ap digests.sha256 digested in
    let literals =
      keep_same (λ (r : Rule). text_in r.rule_id p.matches)
        (λ (r : Rule). occurs (pattern_of r) (content_of chunks)) scanner.literal_rules
        (found-All (λ id. text_in id p.matches) (content_of chunks) scanner.literal_rules
          scanner.literal_rules found
          (All-IsOwn (content_of chunks) scanner.literal_rules ready.distinct)) in
    (
      digest,
      counted,
      ap
            (λ xs.
              xs
              ++ keep (λ (r : Rule). digest_is (digests.sha256 p.digested) r.digest)
                  scanner.digest_rules)
            literals
          ∙ ap
              (λ d.
                keep (λ (r : Rule). occurs (pattern_of r) (content_of chunks)) scanner.literal_rules
                ++ keep (λ (r : Rule). digest_is d r.digest) scanner.digest_rules)
              digest,
    )

settle-IsExact :
    (os : Host) (digests : Digests) (scanner : Scanner) (path : String) (f : OpenFile) (s t : Pass)
    (c : Content) (o : Option (ℕ × Progress))
    → IsReady scanner
    → read_all scanner.config.max_file_bytes scanner.maximum_literal
        (literals_of scanner.literal_rules)
        f.chunks
        0
        nothing_read
      ≡ o
    → settle_read os digests path f o s ≡ (some c, t)
    → IsExact digests scanner f.chunks c × (t ≡ s)
settle-IsExact os digests scanner path f s t c none ready e h = cc
settle-IsExact os digests scanner path f s t c (some (n, p)) ready e h =
    go f.read_error (has_changed f n) h
  where
    go :
        (error : Option String) (changed : Bool)
        → settle_whole os digests path error changed (n, p) s ≡ (some c, t)
        → IsExact digests scanner f.chunks c × (t ≡ s)
    go (some error) changed h = cc
    go none true h = cc
    go none false h = (
      subst (IsExact digests scanner f.chunks)
          (Option.some-injective (whole_content digests n p) c
            (ap (λ (r : Option Content × Pass). r.0) h))
          (whole_content-IsExact digests scanner f.chunks n p ready e),
      sym (ap (λ (r : Option Content × Pass). r.1) h),
    )

fresh-keep :
    (q : Rule) (p : Rule → Bool) (rs : List Rule)
    → any (same_id q) rs ≡ false
    → any (same_id q) (keep p rs) ≡ false
fresh-keep q p [] h = refl
fresh-keep q p (r ∷ rs) h = ground (arith, fresh-keep q p rs)

distinct-keep :
    (p : Rule → Bool) (rs : List Rule) → distinct_ids rs ≡ true → distinct_ids (keep p rs) ≡ true
distinct-keep p [] h = refl
distinct-keep p (r ∷ rs) h =
    let (fresh, rest) = &&_split _ _ h in
    let still_fresh : any (same_id r) (keep p rs) ≡ false = fresh-keep r p rs (not-true _ fresh) in
    let still : distinct_ids (keep p rs) ≡ true = distinct-keep p rs rest in ground arith

pattern-present :
    (k : RuleKind) (bytes : List ℕ)
    → not (lacks_pattern k bytes) ≡ true
    → elim k [ literal ↦ true | sha256 ↦ false ] ≡ true
    → 1 ≤ length bytes
pattern-present literal [] h e = cc
pattern-present literal (b ∷ bs) h e = omega arith
pattern-present sha256 bytes h e = cc

patterns-Fit :
    (maximum : ℕ) (rs : List Rule)
    → check_rules rs ≡ ok tt
    → longest (keep is_literal rs) ≤ maximum
    → All (Fits maximum) (literals_of (keep is_literal rs))
unfolding check_rules longest literals_of
patterns-Fit maximum [] h m = tt
patterns-Fit maximum (r ∷ rs) h m =
    let (_, h2) = guard-eq-ok _ _ _ h in
    let (present, rest) = guard-eq-ok _ _ _ h2 in
    go (is_literal r) refl present (patterns-Fit maximum rs rest) m
  where
    go :
        (b : Bool)
        → is_literal r ≡ b
        → not (lacks_pattern r.kind (pattern_of r)) ≡ true
        → (longest (keep is_literal rs) ≤ maximum
            → All (Fits maximum) (literals_of (keep is_literal rs)))
        → longest (if b then r ∷ keep is_literal rs else keep is_literal rs) ≤ maximum
        → All
            (Fits maximum)
            (literals_of (if b then r ∷ keep is_literal rs else keep is_literal rs))
    go true e present rest m =
        ((pattern-present r.kind (pattern_of r) present e, ground arith), rest (ground arith))
    go false e present rest m = rest m

-- What `Scanner.__init__` accepts can be matched in chunks.
new_scanner-IsReady :
    (os : Host) (rules : List Rule) (config : ScannerConfig) (scanner : Scanner)
    → new_scanner os rules config ≡ ok scanner
    → IsReady scanner
unfolding new_scanner
new_scanner-IsReady os rules config scanner h =
    let (_, h1) = guard-eq-ok _ _ _ h in
    let (_, h2) = guard-eq-ok _ _ _ h1 in
    let (_, h3) = guard-eq-ok _ _ _ h2 in
    let (_, h4) = guard-eq-ok _ _ _ h3 in
    let (distinct, h5) = guard-eq-ok _ _ _ h4 in
    let (u, checked, h6) = >>=-eq-ok _ _ h5 in
    subst IsReady (ok_injective h6) (record {
      distinct = distinct-keep is_literal (sorted rule_le rules) distinct;
      fitting = patterns-Fit _ (sorted rule_le rules) checked (omega arith);
    })

-- A scanner that `Scanner.__init__` has built and that reads a file itself to the end matches exactly the literal rules
-- whose pattern occurs in the file's content and the digest rules of its digest, in the rules' order, wherever the
-- reads were cut; it reports the digest and the length of that content, and adds no issue to the pass.
pub read_in_process-IsExact :
    (os : Host) (digests : Digests) (rules : List Rule) (config : ScannerConfig) (scanner : Scanner)
    (path : String) (f : OpenFile) (s t : Pass) (c : Content)
    → new_scanner os rules config ≡ ok scanner
    → read_in_process os digests scanner path f s ≡ (some c, t)
    → IsExact digests scanner f.chunks c × (t ≡ s)
unfolding read_in_process
read_in_process-IsExact os digests rules config scanner path f s t c built h =
    settle-IsExact os digests scanner path f s t c _
      (new_scanner-IsReady os rules config scanner built) refl h
