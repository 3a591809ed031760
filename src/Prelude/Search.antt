-- ===== src/Prelude/Search.antt =====
-- A search for a piece in a sequence that arrives in parts: it is enough to keep as many of the last
-- elements as the piece is long, less one.
use Prim.Native.Nat.{ℕ, suc, ◌-◌, ◌≤◌}
use mathlib.Core.Path.{◌≡◌, refl, sym, ap, ◌∙◌}
use mathlib.Core.Logic.{inl, inr}
use mathlib.Core.Bool.{Bool, true, ◌&&◌, ◌||◌}
use mathlib.Core.List.{List, [], ◌∷◌, ◌++◌}
use native.Mathlib.Omega.{arith}
use zsec_shield.Prelude.Tests.{◌==◌, leb, leb→le, Bool-cases}
use zsec_shield.Prelude.Lists.{length, drop, take_last, length-append}
use zsec_shield.Prelude.Text.{starts, occurs}

starts-append :
    (needle xs ys : List ℕ)
    → length needle ≤ length xs
    → starts needle (xs ++ ys) ≡ starts needle xs
starts-append [] xs ys h = refl
starts-append (n ∷ ns) [] ys h = absurd (omega arith)
starts-append (n ∷ ns) (x ∷ xs) ys h = ap (λ b. n == x && b) (starts-append ns xs ys (omega arith))

starts-append_true :
    (needle xs ys : List ℕ) → starts needle xs ≡ true → starts needle (xs ++ ys) ≡ true
starts-append_true [] xs ys h = refl
starts-append_true (n ∷ ns) [] ys h = cc
starts-append_true (n ∷ ns) (x ∷ xs) ys h = ground (arith, starts-append_true ns xs ys)

occurs-append_true :
    (needle xs ys : List ℕ) → occurs needle xs ≡ true → occurs needle (xs ++ ys) ≡ true
occurs-append_true [] [] [] h = refl
occurs-append_true [] [] (y ∷ ys) h = refl
occurs-append_true (n ∷ ns) [] ys h = cc
occurs-append_true needle (x ∷ xs) ys h =
    ground (arith, starts-append_true needle (x ∷ xs) ys, occurs-append_true needle xs ys)

drop_zero : (xs : List ℕ) (n : ℕ) → n ≡ 0 → drop n xs ≡ xs
drop_zero xs n e = rw e

take_last_whole : (k : ℕ) (xs : List ℕ) → length xs ≤ k → take_last k xs ≡ xs
take_last_whole k xs h = drop_zero xs (length xs - k) (omega arith)

take_last_tail : (k x : ℕ) (xs : List ℕ) → k ≤ length xs → take_last k (x ∷ xs) ≡ take_last k xs
take_last_tail k x xs h = ap (λ n. drop n (x ∷ xs)) (shift (length xs) k h)
  where
    shift : (n k : ℕ) → k ≤ n → suc n - k ≡ suc (n - k)
    shift n k h = omega arith

-- A piece of at most k + 1 elements occurs in two parts together exactly if it occurs in the first, or in the
-- last k elements of the first with the second.
pub occurs-append :
    (k : ℕ) (needle xs ys : List ℕ)
    → 1 ≤ length needle
    → length needle ≤ suc k
    → occurs needle (xs ++ ys) ≡ (occurs needle xs || occurs needle (take_last k xs ++ ys))
occurs-append k [] xs ys p h = absurd (omega arith)
occurs-append k (n ∷ ns) [] ys p h = rw (take_last_whole k [] (omega arith)) refl
occurs-append k (n ∷ ns) (x ∷ xs) ys p h = elim (Bool-cases (leb (length (x ∷ xs)) k)) [
  | inl short ↦ rw (take_last_whole k (x ∷ xs) (leb→le _ _ short)) (
      either (occurs (n ∷ ns) (x ∷ xs)) (occurs (n ∷ ns) ((x ∷ xs) ++ ys))
        (occurs-append_true (n ∷ ns) (x ∷ xs) ys))
  | inr long ↦
      let enough : k ≤ length xs = ground arith in
      rw
        (
          take_last_tail k x xs enough,
          starts-append (n ∷ ns) (x ∷ xs) ys (omega arith),
          occurs-append k (n ∷ ns) xs ys p h,
        )
        (assoc (starts (n ∷ ns) (x ∷ xs)) (occurs (n ∷ ns) xs)
          (occurs (n ∷ ns) (take_last k xs ++ ys)))
]
  where
    either : (a b : Bool) → (a ≡ true → b ≡ true) → b ≡ (a || b)
    either a b f = ground arith

    assoc : (a b c : Bool) → (a || (b || c)) ≡ ((a || b) || c)
    assoc a b c = ground arith

-- Keeping the last k elements of a kept end and a new part is keeping them of all.
pub take_last-append :
    (k : ℕ) (xs ys : List ℕ) → take_last k (take_last k xs ++ ys) ≡ take_last k (xs ++ ys)
take_last-append k [] ys = rw (take_last_whole k [] (omega arith)) refl
take_last-append k (x ∷ xs) ys = elim (Bool-cases (leb (length (x ∷ xs)) k)) [
  | inl short ↦ rw (take_last_whole k (x ∷ xs) (leb→le _ _ short)) refl
  | inr long ↦
      let enough : k ≤ length xs = ground arith in
      rw (take_last_tail k x xs enough) (
        take_last-append k xs ys
        ∙ sym (take_last_tail k x (xs ++ ys) (omega (arith, length-append xs ys, enough))))
]

drop_all : (xs : List ℕ) → drop (length xs) xs ≡ []
drop_all [] = refl
drop_all (x ∷ xs) = drop_all xs

pub take_last_none : (k : ℕ) (xs : List ℕ) → k ≡ 0 → take_last k xs ≡ []
take_last_none k xs e = ap (λ n. drop n xs) (same (length xs) k e) ∙ drop_all xs
  where
    same : (n k : ℕ) → k ≡ 0 → n - k ≡ n
    same n k e = omega arith
