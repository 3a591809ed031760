-- ===== src/Scanner/Stream.antt =====
-- The loop of `_scan_file` of src/zsec_shield/scanner.py that reads a file in chunks, and `_scan_stream` of
-- src/zsec_shield/scan_worker.py, which matches in the same way.
use zsec_shield.Prelude.{
  ℕ, ◌+◌, ◌-◌, Bool, true, false, not, ◌&&◌, Option, none, some, String, List, [], ◌∷◌, ◌++◌, ltb,
  if◌then◌else◌, length, take_last, text_in, occurs,
}

-- A literal rule as the worker knows it: its identifier and its bytes.
abbrev pub Literal : Type 0
Literal = String × List ℕ

-- The loop over the rules for one window: a rule that has matched is not looked for again.
unfoldable pub add_matches : List ℕ → List Literal → List String → List String
add_matches window [] matches = matches
add_matches window ((id, pattern) ∷ rules) matches =
    add_matches window rules
      (if not (text_in id matches) && occurs pattern window then id ∷ matches else matches)

-- The variables of the loop; `digested` is what `digest` has been updated with.
pub record Progress : Type 0 where
  pub digested : List ℕ
  pub matches : List String
  pub tail : List ℕ

abbrev pub nothing_read : Progress
nothing_read = record { digested = []; matches = []; tail = [] }

-- The rest of the loop's body once a chunk has been counted.
unfoldable pub absorb_chunk : ℕ → List Literal → List ℕ → Progress → Progress
unfolding add_matches
absorb_chunk maximum rules chunk p = record {
  digested = p.digested ++ chunk;
  matches = add_matches (p.tail ++ chunk) rules p.matches;
  tail = if ltb 1 maximum then take_last (maximum - 1) (p.tail ++ chunk) else p.tail;
}

abbrev pub is_nil : List ℕ → Bool
is_nil [] = true
is_nil (x ∷ xs) = false

-- `while True: chunk = os.read(…)`: the loop ends at an empty chunk, and `none` is a file above the limit.
-- The chunks are those that the reads return; after the last one they return nothing.
unfoldable pub read_all :
    ℕ → ℕ → List Literal → List (List ℕ) → ℕ → Progress → Option (ℕ × Progress)
unfolding absorb_chunk
read_all limit maximum rules [] count p = some (count, p)
read_all limit maximum rules (chunk ∷ chunks) count p =
    let rest =
      read_all limit maximum rules chunks (count + length chunk)
        (absorb_chunk maximum rules chunk p) in
    if is_nil chunk
    then some (count, p)
    else if ltb limit (count + length chunk)
    then none
    else rest
