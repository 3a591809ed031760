-- ===== src/Scanner/Content.antt =====
-- Proofs on the loop of `_scan_file` of src/zsec_shield/scanner.py, against a search of the whole content.
use zsec_shield.Prelude.{
  ℕ, ◌+◌, ◌-◌, ◌≤◌, ◌≡◌, refl, sym, ap, ◌∙◌, subst, arith, Bool, true, false, ◌&&◌, ◌||◌, Option,
  none, some, String, List, [], ◌∷◌, ◌++◌, str_eq, eq_iff, ltb, if◌then◌else◌, All, length,
  length-append, drop, take_last, text_in, occurs, Bool-cases, inl, inr,
}
use mathlib.Core.List.{append_assoc, append-nil}
use mathlib.Core.Option
use zsec_shield.Prelude.Search.{occurs-append, take_last-append, take_last_none}
use zsec_shield.Scanner.Stream.{
  Literal, add_matches, Progress, nothing_read, absorb_chunk, read_all,
}

-- Some rule of this identifier has its pattern in these bytes.
abbrev pub matches_whole : List ℕ → String → List Literal → Bool
matches_whole bytes id [] = false
matches_whole bytes id ((j, pattern) ∷ rules) =
    str_eq id j && occurs pattern bytes || matches_whole bytes id rules

add_matches-text_in :
    (window : List ℕ) (rules : List Literal) (matches : List String) (id : String)
    → text_in id (add_matches window rules matches)
      ≡ (text_in id matches || matches_whole window id rules)
unfolding add_matches
add_matches-text_in window [] matches id = ground arith
add_matches-text_in window ((j, pattern) ∷ rules) matches id =
    add_matches-text_in window rules _ id ∙ (ground (arith, eq_iff id j))

-- The patterns that the loop is run with: none is empty and none is longer than the maximum.
abbrev pub Fits : ℕ → Literal → Type 0
Fits maximum rule = (1 ≤ length rule.1) × (length rule.1 ≤ maximum)

whole-append :
    (maximum : ℕ) (rules : List Literal) (xs ys : List ℕ) (id : String)
    → All (Fits maximum) rules
    → matches_whole (xs ++ ys) id rules
      ≡ (matches_whole xs id rules || matches_whole (take_last (maximum - 1) xs ++ ys) id rules)
whole-append maximum [] xs ys id h = refl
whole-append maximum ((j, pattern) ∷ rules) xs ys id h =
    ground
      (arith, occurs-append (maximum - 1) pattern xs ys, whole-append maximum rules xs ys id h.1)

-- After the bytes `content`: the digest has seen them, the matches are those of the whole, and the tail is their end.
pub record HasRead (maximum : ℕ) (rules : List Literal) (content : List ℕ) (p : Progress)
    : Type 0 where
  pub digested : p.digested ≡ content
  pub found : (id : String) → text_in id p.matches ≡ matches_whole content id rules
  pub tail : p.tail ≡ take_last (maximum - 1) content

whole-nil :
    (maximum : ℕ) (rules : List Literal) (id : String)
    → All (Fits maximum) rules
    → matches_whole [] id rules ≡ false
whole-nil maximum [] id h = refl
whole-nil maximum ((j, []) ∷ rules) id h = absurd (omega arith)
whole-nil maximum ((j, b ∷ bs) ∷ rules) id h = ground (arith, whole-nil maximum rules id h.1)

nothing_read-HasRead :
    (maximum : ℕ) (rules : List Literal)
    → All (Fits maximum) rules
    → HasRead maximum rules [] nothing_read
nothing_read-HasRead maximum rules h = record {
  digested = refl;
  found = λ id. sym (whole-nil maximum rules id h);
  tail = sym (drop_nothing (0 - (maximum - 1)) (omega arith));
}
  where
    drop_nothing : (n : ℕ) → n ≡ 0 → drop {A = ℕ} n [] ≡ []
    drop_nothing n e = rw e

absorb_chunk-tail :
    (maximum : ℕ) (rules : List Literal) (content chunk : List ℕ) (p : Progress)
    → p.tail ≡ take_last (maximum - 1) content
    → (absorb_chunk maximum rules chunk p).tail ≡ take_last (maximum - 1) (content ++ chunk)
unfolding absorb_chunk
absorb_chunk-tail maximum rules content chunk p e = elim (Bool-cases (ltb 1 maximum)) [
  | inl long ↦ rw long (
      ap (λ t. take_last (maximum - 1) (t ++ chunk)) e
      ∙ take_last-append (maximum - 1) content chunk)
  | inr short ↦
      let none_kept : maximum - 1 ≡ 0 = ground arith in
      rw short (
        e
        ∙ take_last_none _ content none_kept
        ∙ sym (take_last_none _ (content ++ chunk) none_kept))
]

absorb_chunk-HasRead :
    (maximum : ℕ) (rules : List Literal) (content chunk : List ℕ) (p : Progress)
    → All (Fits maximum) rules
    → HasRead maximum rules content p
    → HasRead maximum rules (content ++ chunk) (absorb_chunk maximum rules chunk p)
unfolding absorb_chunk
absorb_chunk-HasRead maximum rules content chunk p h r = record {
  digested = ap (λ d. d ++ chunk) r.digested;
  found = λ id.
      add_matches-text_in (p.tail ++ chunk) rules p.matches id
      ∙ ap (λ b. b || matches_whole (p.tail ++ chunk) id rules) (r.found id)
      ∙ ap (λ t. matches_whole content id rules || matches_whole (t ++ chunk) id rules) r.tail
      ∙ sym (whole-append maximum rules content chunk id h);
  tail = absorb_chunk-tail maximum rules content chunk p r.tail;
}

-- What a file holds: the chunks up to the first empty one.
abbrev pub content_of : List (List ℕ) → List ℕ
content_of [] = []
content_of ([] ∷ chunks) = []
content_of ((b ∷ bs) ∷ chunks) = (b ∷ bs) ++ content_of chunks

-- A whole read after `before`.
abbrev HasReadMore : ℕ → List Literal → List ℕ → List (List ℕ) → ℕ × Progress → Type 0
HasReadMore maximum rules before chunks (n, p) =
    HasRead maximum rules (before ++ content_of chunks) p
    × (n ≡ length (before ++ content_of chunks))

ended :
    (maximum : ℕ) (rules : List Literal) (before : List ℕ) (count : ℕ) (p : Progress)
    (r : ℕ × Progress)
    → HasRead maximum rules before p
    → count ≡ length before
    → some (count, p) ≡ some r
    → HasReadMore maximum rules before [] r
ended maximum rules before count p r d c e =
    subst (HasReadMore maximum rules before []) (Option.some-injective (count, p) r e)
      (rw (append-nil before) (d, c))

within :
    (above : Bool) (rest : Option (ℕ × Progress)) (r : ℕ × Progress)
    → (if above then none else rest) ≡ some r
    → rest ≡ some r
within true rest r e = cc
within false rest r e = e

read_all-HasReadMore :
    (limit maximum : ℕ) (rules : List Literal) (chunks : List (List ℕ)) (before : List ℕ)
    (count : ℕ) (p : Progress) (r : ℕ × Progress)
    → All (Fits maximum) rules
    → HasRead maximum rules before p
    → count ≡ length before
    → read_all limit maximum rules chunks count p ≡ some r
    → HasReadMore maximum rules before chunks r
unfolding read_all
read_all-HasReadMore limit maximum rules [] before count p r h d c e =
    ended maximum rules before count p r d c e
read_all-HasReadMore limit maximum rules ([] ∷ chunks) before count p r h d c e =
    ended maximum rules before count p r d c e
read_all-HasReadMore limit maximum rules ((b ∷ bs) ∷ chunks) before count p r h d c e =
    subst (λ (content : List ℕ). HasRead maximum rules content r.1 × (r.0 ≡ length content))
      (append_assoc before (b ∷ bs) (content_of chunks))
      (read_all-HasReadMore limit maximum rules chunks (before ++ b ∷ bs) _ _ r h
        (absorb_chunk-HasRead maximum rules before (b ∷ bs) p h d)
        (omega (arith, length-append before (b ∷ bs), c))
        (within (ltb limit (count + length (b ∷ bs))) _ r e))

-- A file that is read to its end within the limit has exactly the rules matched whose patterns occur in its whole
-- content, wherever the chunks were cut; the digest has seen the whole content, and the count is its length.
pub read_all_exact :
    (limit maximum : ℕ) (rules : List Literal) (chunks : List (List ℕ)) (n : ℕ) (p : Progress)
    → All (Fits maximum) rules
    → read_all limit maximum rules chunks 0 nothing_read ≡ some (n, p)
    → (p.digested ≡ content_of chunks)
      × (n ≡ length (content_of chunks))
      × ((id : String) → text_in id p.matches ≡ matches_whole (content_of chunks) id rules)
read_all_exact limit maximum rules chunks n p h e =
    let (whole, counted) =
      read_all-HasReadMore limit maximum rules chunks [] 0 nothing_read (n, p) h
        (nothing_read-HasRead maximum rules h) refl e in
    (whole.digested, counted, whole.found)
