-- ===== src/Prelude/Sort.antt =====
-- Python's `sorted`: a stable sort by a Boolean order (insertion sort keeps equal elements in order).
use Prim.Native.Nat.{ℕ, ◌+◌}
use mathlib.Core.Path.{◌≡◌, refl, sym, subst}
use mathlib.Core.Bool.{Bool, true, false}
use mathlib.Core.List.{List, [], ◌∷◌}
use native.Mathlib.Omega.{arith}
use zsec_shield.Prelude.Tests.{if◌then◌else◌}
use zsec_shield.Prelude.Lists.{length, sum_of, All}

module _ {ℓ} {A : Type ℓ} (le : A → A → Bool) where
  unfoldable pub insert : A → List A → List A
  insert x [] = x ∷ []
  insert x (y ∷ ys) = let rest = insert x ys in if le x y then x ∷ y ∷ ys else y ∷ rest

  unfoldable pub sorted : List A → List A
  unfolding insert
  sorted [] = []
  sorted (x ∷ xs) = insert x (sorted xs)

  pub sum_of-insert : (f : A → ℕ) (x : A) (ys : List A) → sum_of f (insert x ys) ≡ f x + sum_of f ys
  unfolding insert
  sum_of-insert f x [] = omega arith
  sum_of-insert f x (y ∷ ys) = ground (arith, sum_of-insert f x ys)

  -- A sort neither drops nor repeats: whatever is counted over the elements stays.
  pub sum_of-sorted : (f : A → ℕ) (xs : List A) → sum_of f (sorted xs) ≡ sum_of f xs
  unfolding sorted
  sum_of-sorted f [] = refl
  sum_of-sorted f (x ∷ xs) = omega (arith, sum_of-insert f x (sorted xs), sum_of-sorted f xs)

  pub length-insert : (x : A) (ys : List A) → length (insert x ys) ≡ length ys + 1
  unfolding insert
  length-insert x [] = omega arith
  length-insert x (y ∷ ys) = ground (arith, length-insert x ys)

  pub length-sorted : (xs : List A) → length (sorted xs) ≡ length xs
  unfolding sorted
  length-sorted [] = refl
  length-sorted (x ∷ xs) = omega (arith, length-insert x (sorted xs), length-sorted xs)

  insert-stop : (x y : A) (ys : List A) → le x y ≡ true → insert x (y ∷ ys) ≡ x ∷ y ∷ ys
  unfolding insert
  insert-stop x y ys e = rw e

  insert-go : (x y : A) (ys : List A) → le x y ≡ false → insert x (y ∷ ys) ≡ y ∷ insert x ys
  unfolding insert
  insert-go x y ys e = rw e

module _ {ℓ κ} {A : Type ℓ} (P : A → Type κ) (le : A → A → Bool) where
  All-insert_case :
      (x y : A) (ys : List A) (b : Bool)
      → le x y ≡ b
      → (All P (insert le x ys) → P x × All P ys)
      → All P (insert le x (y ∷ ys))
      → P x × All P (y ∷ ys)
  unfolding insert
  All-insert_case x y ys true e deeper h = subst (All P) (insert-stop le x y ys e) h
  All-insert_case x y ys false e deeper h =
      let h' : All P (y ∷ insert le x ys) = subst (All P) (insert-go le x y ys e) h in
      let d = deeper h'.1 in (d.0, (h'.0, d.1))

  All-insert_back : (x : A) (ys : List A) → All P (insert le x ys) → P x × All P ys
  unfolding insert
  All-insert_back x [] h = h
  All-insert_back x (y ∷ ys) h = All-insert_case x y ys (le x y) refl (All-insert_back x ys) h

  All-insert_split :
      (x y : A) (ys : List A) (b : Bool)
      → le x y ≡ b
      → P x
      → P y × All P ys
      → All P (insert le x ys)
      → All P (insert le x (y ∷ ys))
  All-insert_split x y ys true e p h deeper = subst (All P) (sym (insert-stop le x y ys e)) (p, h)
  All-insert_split x y ys false e p h deeper =
      subst (All P) (sym (insert-go le x y ys e)) (h.0, deeper)

  All-insert : (x : A) (ys : List A) → P x → All P ys → All P (insert le x ys)
  unfolding insert
  All-insert x [] p h = (p, tt)
  All-insert x (y ∷ ys) p h = All-insert_split x y ys (le x y) refl p h (All-insert x ys p h.1)

  pub All-sorted : (xs : List A) → All P xs → All P (sorted le xs)
  unfolding sorted
  All-sorted [] h = tt
  All-sorted (x ∷ xs) h = All-insert x (sorted le xs) h.0 (All-sorted xs h.1)

  -- What holds of a sorted list's elements holds of the list's.
  pub All-sorted_back : (xs : List A) → All P (sorted le xs) → All P xs
  unfolding sorted
  All-sorted_back [] h = tt
  All-sorted_back (x ∷ xs) h =
      let d = All-insert_back x (sorted le xs) h in (d.0, All-sorted_back xs d.1)
