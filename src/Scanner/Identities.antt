-- ===== src/Scanner/Identities.antt =====
-- The identities that the walk of src/zsec_shield/scanner.py has entered, and the width of its listings.
use zsec_shield.Prelude.{
  ℕ, zero, suc, ◌+◌, ◌≤◌, ◌<◌, ◌≡◌, refl, Bool, true, false, ◌||◌, String, List, [], ◌∷◌, Result,
  ok, err, subst, sym, ap, ◌∙◌, arith, length, any, if◌then◌else◌, ok_injective, Bool-cases, inl,
  inr,
}
use zsec_shield.Prelude.Sort.{length-sorted}
use zsec_shield.Host.{Stat}
use zsec_shield.Scanner.Walk.{
  Files, found, DirEntry, Attempt, listed, scan_failed, is_transient, by_attempt, last_attempt,
  attempts_from, entry_le, Identity, identity_of, same_identity,
}

-- The identities that are not entered yet.
abbrev pub unvisited : List Identity → List Identity → ℕ
unvisited [] visited = 0
unvisited (i ∷ ids) visited =
    let rest = unvisited ids visited in if any (same_identity i) visited then rest else suc rest

same_sym : (a b : Identity) → same_identity a b ≡ same_identity b a
same_sym a b = ground arith

same_any :
    (a b : Identity) (visited : List Identity)
    → same_identity a b ≡ true
    → any (same_identity a) visited ≡ any (same_identity b) visited
same_any a b [] e = refl
same_any a b (v ∷ visited) e = ground (arith, same_any a b visited e)

pub unvisited-le :
    (ids visited : List Identity) (v : Identity)
    → unvisited ids (v ∷ visited) ≤ unvisited ids visited
unvisited-le [] visited v = omega arith
unvisited-le (i ∷ ids) visited v = ground (arith, unvisited-le ids visited v)

-- A new identity among the finitely many leaves fewer.
pub unvisited-lt :
    (ids visited : List Identity) (v : Identity)
    → any (same_identity v) ids ≡ true
    → any (same_identity v) visited ≡ false
    → unvisited ids (v ∷ visited) < unvisited ids visited
unvisited-lt [] visited v h n = cc
unvisited-lt (i ∷ ids) visited v h n = elim (Bool-cases (same_identity v i)) [
  | inl e ↦
      let same : same_identity i v ≡ true = same_sym i v ∙ e in
      let unseen : any (same_identity i) visited ≡ false = same_any i v visited same ∙ n in
      rw (same, unseen) (omega (arith, unvisited-le ids visited v))
  | inr e ↦
      let later : any (same_identity v) ids ≡ true =
        ap (λ b. b || any (same_identity v) ids) (sym e) ∙ h in
      ground (arith, same_sym i v, unvisited-lt ids visited v later n)
]

pub unvisited-nil : (ids : List Identity) → unvisited ids [] ≡ length ids
unvisited-nil [] = refl
unvisited-nil (i ∷ ids) = ap (λ n. suc n) (unvisited-nil ids)

-- Finitely many identities, none of them without an inode, and listings of at most `width` entries.
pub record IsFinite (files : Files) (ids : List Identity) (width : ℕ) : Type 0 where
  pub known :
      (turn : ℕ) (path : String) (m : Stat)
      → files.lstat turn path ≡ found m
      → (0 < m.inode) × (any (same_identity (identity_of m)) ids ≡ true)
  pub narrow :
      (turn : ℕ) (path : String) (attempt : ℕ) (entries : List DirEntry)
      → files.scandir turn path attempt ≡ listed entries
      → length entries ≤ width

retried :
    (b : Bool) (again : Result String (List DirEntry)) (error : String) {entries : List DirEntry}
    → (if b then again else err error) ≡ ok entries
    → again ≡ ok entries
retried true again error h = h
retried false again error h = cc

pub attempts-narrow :
    (files : Files) (ids : List Identity) (width : ℕ)
    → IsFinite files ids width
    → (turn : ℕ) (path : String) (left attempt : ℕ) (entries : List DirEntry)
    → attempts_from files turn path attempt left ≡ ok entries
    → length entries ≤ width
unfolding attempts_from
attempts-narrow files ids width fin turn path zero attempt entries h =
    go (files.scandir turn path attempt) refl h
  where
    go :
        (a : Attempt)
        → files.scandir turn path attempt ≡ a
        → last_attempt files a ≡ ok entries
        → length entries ≤ width
    go (listed es) e h =
        subst (λ (xs : List DirEntry). length xs ≤ width) (ok_injective h)
          (omega (arith, length-sorted (entry_le files) es, fin.narrow turn path attempt es e))
    go (scan_failed code error) e h = cc
attempts-narrow files ids width fin turn path (suc left) attempt entries h =
    go (files.scandir turn path attempt) refl
      (attempts-narrow files ids width fin turn path left (attempt + 1) entries) h
  where
    again : Result String (List DirEntry)
    again = attempts_from files turn path (attempt + 1) left

    go :
        (a : Attempt)
        → files.scandir turn path attempt ≡ a
        → (again ≡ ok entries → length entries ≤ width)
        → by_attempt files a again ≡ ok entries
        → length entries ≤ width
    go (listed es) e next h =
        subst (λ (xs : List DirEntry). length xs ≤ width) (ok_injective h)
          (omega (arith, length-sorted (entry_le files) es, fin.narrow turn path attempt es e))
    go (scan_failed code error) e next h = next (retried (is_transient code) again error h)
