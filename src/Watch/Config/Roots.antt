-- ===== src/Watch/Config/Roots.antt =====
-- `normalize_watch_roots` of src/zsec_shield/watcher.py: every requested root is watched, and no root lies
-- within an earlier one.
use zsec_shield.Prelude.{
  ◌≡◌, Bool, true, false, not, Option, String, List, [], ◌∷◌, ◌++◌, refl, arith, sym, ◌∙◌, subst,
  eq_iff, any, All, Bool-cases, inl, inr, ok, >>=-eq-ok, guard-eq-ok, ok_injective, not-true,
}
use mathlib.Core.List.{append-nil, append_assoc}
use zsec_shield.Prelude.Sort.{sorted, All-sorted_back}
use zsec_shield.Watch.Config.{
  WatchRoot, is_empty, candidates, root_le, covers, add_root, distinct_roots, normalize_watch_roots,
}
use zsec_shield.Host.{Host, path_key, Stat}

any-append :
    (p : WatchRoot → Bool) (xs ys : List WatchRoot) → any p xs ≡ true → any p (xs ++ ys) ≡ true
any-append p [] ys h = cc
any-append p (x ∷ xs) ys h = ground (arith, any-append p xs ys)

any-append_last :
    (p : WatchRoot → Bool) (xs : List WatchRoot) (y : WatchRoot)
    → p y ≡ true
    → any p (xs ++ y ∷ []) ≡ true
any-append_last p [] y h = ground arith
any-append_last p (x ∷ xs) y h = ground (arith, any-append_last p xs y)

covers_self : (os : Host) (c : WatchRoot) → covers os c c ≡ true
unfolding covers
covers_self os c = ground (arith, eq_iff c.key c.key)

add_root-keeps :
    (os : Host) (p : WatchRoot → Bool) (unique : List WatchRoot) (c : WatchRoot)
    → any p unique ≡ true
    → any p (add_root os unique c) ≡ true
add_root-keeps os p unique c h = elim (Bool-cases (any (covers os c) unique)) [
  | inl e ↦ unfold add_root in rw e h
  | inr e ↦ unfold add_root in rw e (any-append p unique (c ∷ []) h)
]

add_root-covers :
    (os : Host) (unique : List WatchRoot) (c : WatchRoot)
    → any (covers os c) (add_root os unique c) ≡ true
add_root-covers os unique c = elim (Bool-cases (any (covers os c) unique)) [
  | inl e ↦ unfold add_root in rw e e
  | inr e ↦ unfold add_root in rw e (any-append_last (covers os c) unique c (covers_self os c))
]

distinct_roots-step :
    (os : Host) (unique : List WatchRoot) (c : WatchRoot) (cs : List WatchRoot)
    → distinct_roots os unique (c ∷ cs) ≡ distinct_roots os (add_root os unique c) cs
unfolding distinct_roots
distinct_roots-step os unique c cs = refl

distinct_roots-keeps :
    (os : Host) (p : WatchRoot → Bool) (unique cs : List WatchRoot)
    → any p unique ≡ true
    → any p (distinct_roots os unique cs) ≡ true
distinct_roots-keeps os p unique [] h = unfold distinct_roots in h
distinct_roots-keeps os p unique (c ∷ cs) h =
    subst (λ (rs : List WatchRoot). any p rs ≡ true) (sym (distinct_roots-step os unique c cs))
      (distinct_roots-keeps os p (add_root os unique c) cs (add_root-keeps os p unique c h))

abbrev pub IsCoveredBy : Host → List WatchRoot → WatchRoot → Type 0
IsCoveredBy os roots c = any (covers os c) roots ≡ true

distinct_roots-covers :
    (os : Host) (unique cs : List WatchRoot) → All (IsCoveredBy os (distinct_roots os unique cs)) cs
distinct_roots-covers os unique [] = tt
distinct_roots-covers os unique (c ∷ cs) =
    subst (λ (rs : List WatchRoot). All (IsCoveredBy os rs) (c ∷ cs))
      (sym (distinct_roots-step os unique c cs))
      (
        distinct_roots-keeps os (covers os c) (add_root os unique c) cs
            (add_root-covers os unique c),
        distinct_roots-covers os (add_root os unique c) cs,
      )

-- The kept roots after a first one: none of them is covered by one that stands before it.
abbrev pub IsSeparate : Host → List WatchRoot → List WatchRoot → Type 0
IsSeparate os before [] = Unit
IsSeparate os before (r ∷ rs) =
    (any (covers os r) before ≡ false) × IsSeparate os (before ++ r ∷ []) rs

IsSeparate-snoc :
    (os : Host) (before rs : List WatchRoot) (c : WatchRoot)
    → IsSeparate os before rs
    → any (covers os c) (before ++ rs) ≡ false
    → IsSeparate os before (rs ++ c ∷ [])
IsSeparate-snoc os before [] c h e =
    (subst (λ (l : List WatchRoot). any (covers os c) l ≡ false) (append-nil before) e, tt)
IsSeparate-snoc os before (r ∷ rs) c h e = (
  h.0,
  IsSeparate-snoc os (before ++ r ∷ []) rs c h.1 (
      subst (λ (l : List WatchRoot). any (covers os c) l ≡ false)
        (sym (append_assoc before (r ∷ []) rs)) e),
)

add_root-IsSeparate :
    (os : Host) (unique : List WatchRoot) (c : WatchRoot)
    → IsSeparate os [] unique
    → IsSeparate os [] (add_root os unique c)
add_root-IsSeparate os unique c h = elim (Bool-cases (any (covers os c) unique)) [
  | inl e ↦ unfold add_root in rw e h
  | inr e ↦ unfold add_root in rw e (IsSeparate-snoc os [] unique c h e)
]

distinct_roots-IsSeparate :
    (os : Host) (unique cs : List WatchRoot)
    → IsSeparate os [] unique
    → IsSeparate os [] (distinct_roots os unique cs)
distinct_roots-IsSeparate os unique [] h = unfold distinct_roots in h
distinct_roots-IsSeparate os unique (c ∷ cs) h =
    subst (IsSeparate os []) (sym (distinct_roots-step os unique c cs))
      (distinct_roots-IsSeparate os (add_root os unique c) cs (add_root-IsSeparate os unique c h))

-- Normalized roots are at least one; every requested root's candidate is one of them or lies within one of
-- them; and none lies within, or equals, one that stands before it.
pub normalize_watch_roots_covers :
    (os : Host) (lstat : String → Option Stat) (state_dir : String) (roots : List String)
    (found result : List WatchRoot)
    → candidates os lstat (path_key os state_dir) roots ≡ ok found
    → normalize_watch_roots os lstat state_dir roots ≡ ok result
    → (is_empty result ≡ false) × All (IsCoveredBy os result) found × IsSeparate os [] result
unfolding normalize_watch_roots
normalize_watch_roots_covers os lstat state_dir roots found result f h =
    let (found', e1, h1) = >>=-eq-ok _ _ h in
    let (some_left, h2) = guard-eq-ok _ _ _ h1 in
    let same : found' ≡ found = ok_injective (sym e1 ∙ f) in
    let kept : distinct_roots os [] (sorted root_le found') ≡ result = ok_injective h2 in
    let whole : All (IsCoveredBy os result) (sorted root_le found') =
      subst (λ (rs : List WatchRoot). All (IsCoveredBy os rs) (sorted root_le found')) kept
        (distinct_roots-covers os [] (sorted root_le found')) in
    (
      not-true (is_empty result)
          (subst (λ (rs : List WatchRoot). not (is_empty rs) ≡ true) kept some_left),
      subst (All (IsCoveredBy os result)) same
          (All-sorted_back (IsCoveredBy os result) root_le found' whole),
      subst (IsSeparate os []) kept (distinct_roots-IsSeparate os [] (sorted root_le found') tt),
    )
