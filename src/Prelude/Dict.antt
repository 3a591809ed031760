-- ===== src/Prelude/Dict.antt =====
-- Python's `dict` with text keys: entries in insertion order, no key twice.
use Prim.Native.Nat.{◌+◌, ◌≤◌}
use Prim.Native.String.{String}
use mathlib.Core.Path.{◌≡◌, refl, subst}
use mathlib.Core.Logic.{inl, inr}
use mathlib.Core.Option
use mathlib.Core.Option.{Option, none, some}
use mathlib.Core.List.{List, [], ◌∷◌}
use native.Mathlib.Omega.{arith}
use text.Mathlib.Text.{◌==◌ as str_eq}
use text.Mathlib.TextEquality.{eq_iff}
use zsec_shield.Prelude.Tests.{if◌then◌else◌, Bool-cases}
use zsec_shield.Prelude.Lists.{length, All}

abbrev pub Dict {ℓ} : Type ℓ → Type ℓ
Dict V = List (String × V)

module _ {ℓ} {V : Type ℓ} where
  -- `d.get(k)`
  unfoldable pub find : String → Dict V → Option V
  find k [] = none
  find k ((j, v) ∷ d) = if str_eq j k then some v else find k d

  -- `d[k] = v`
  unfoldable pub put : String → V → Dict V → Dict V
  put k v [] = (k, v) ∷ []
  put k v ((j, w) ∷ d) = let rest = put k v d in if str_eq j k then (j, v) ∷ d else (j, w) ∷ rest

  -- `d.pop(k, None)`
  unfoldable pub remove : String → Dict V → Dict V
  remove k [] = []
  remove k ((j, w) ∷ d) = let rest = remove k d in if str_eq j k then rest else (j, w) ∷ rest

  pub find-put :
      (k j : String) (v : V) (d : Dict V)
      → find j (put k v d) ≡ (if str_eq k j then some v else find j d)
  unfolding find put
  find-put k j v [] = refl
  find-put k j v ((i, w) ∷ d) = ground (arith, eq_iff k j, eq_iff i k, eq_iff i j, find-put k j v d)

  pub find-remove :
      (k j : String) (d : Dict V) → find j (remove k d) ≡ (if str_eq k j then none else find j d)
  unfolding find remove
  find-remove k j [] = ground arith
  find-remove k j ((i, w) ∷ d) =
      ground (arith, eq_iff k j, eq_iff i k, eq_iff i j, find-remove k j d)

  -- A write adds one entry to a dict without the key, and none to a dict with it.
  pub length-put_new :
      (k : String) (v : V) (d : Dict V) → find k d ≡ none → length (put k v d) ≡ length d + 1
  unfolding find put
  length-put_new k v [] h = omega arith
  length-put_new k v ((j, w) ∷ d) h = ground (arith, length-put_new k v d)

  pub length-put_old :
      (k : String) (v : V) (d : Dict V) (w : V) → find k d ≡ some w → length (put k v d) ≡ length d
  unfolding find put
  length-put_old k v [] w h = cc
  length-put_old k v ((j, u) ∷ d) w h = ground (arith, length-put_old k v d w)

-- No key stands twice.
abbrev pub IsDict {ℓ} : {V : Type ℓ} → Dict V → Type ℓ
IsDict [] = Unit
IsDict {V} ((k, v) ∷ d) = (find k d ≡ none) × IsDict d

module _ {ℓ} {V : Type ℓ} where
  pub put-IsDict : (k : String) (v : V) (d : Dict V) → IsDict d → IsDict (put k v d)
  unfolding find put
  put-IsDict k v [] h = (refl, tt)
  put-IsDict k v ((j, w) ∷ d) h =
      ground (arith, put-IsDict k v d, find-put k j v d, eq_iff k j, eq_iff j k)

  pub remove_absent : (k : String) (d : Dict V) → find k d ≡ none → remove k d ≡ d
  unfolding find remove
  remove_absent k [] h = refl
  remove_absent k ((j, w) ∷ d) h = ground (arith, remove_absent k d)

  pub remove-IsDict : (k : String) (d : Dict V) → IsDict d → IsDict (remove k d)
  unfolding find remove
  remove-IsDict k [] h = tt
  remove-IsDict k ((j, w) ∷ d) h = ground (arith, remove-IsDict k d, find-remove k j d, eq_iff k j)

  pub length-remove :
      (k : String) (d : Dict V) (v : V)
      → IsDict d
      → find k d ≡ some v
      → length (remove k d) + 1 ≡ length d
  unfolding find remove
  length-remove k [] v u h = cc
  length-remove k ((j, w) ∷ d) v u h =
      ground (arith, length-remove k d v, remove_absent k d, eq_iff j k)

  pub length-remove-le : (k : String) (d : Dict V) → length (remove k d) ≤ length d
  unfolding remove
  length-remove-le k [] = omega arith
  length-remove-le k ((j, w) ∷ d) = ground (arith, length-remove-le k d)

  -- Whatever holds of all entries holds after a write of a good entry, and after a removal.
  pub All-put {κ} :
      (P : V → Type κ) (k : String) (v : V) (d : Dict V)
      → P v
      → All (λ e. P e.1) d
      → All (λ e. P e.1) (put k v d)
  unfolding put
  All-put P k v [] p h = (p, tt)
  All-put P k v ((j, w) ∷ d) p h = elim (Bool-cases (str_eq j k)) [
    | inl e ↦ rw e (p, h.1)
    | inr e ↦ rw e (h.0, All-put P k v d p h.1)
  ]

  pub All-remove {κ} :
      (P : V → Type κ) (k : String) (d : Dict V)
      → All (λ e. P e.1) d
      → All (λ e. P e.1) (remove k d)
  unfolding remove
  All-remove P k [] h = tt
  All-remove P k ((j, w) ∷ d) h = elim (Bool-cases (str_eq j k)) [
    | inl e ↦ rw e (All-remove P k d h.1)
    | inr e ↦ rw e (h.0, All-remove P k d h.1)
  ]

  pub All-find {κ} :
      (P : V → Type κ) (k : String) (d : Dict V) (v : V)
      → All (λ e. P e.1) d
      → find k d ≡ some v
      → P v
  unfolding find
  All-find P k [] v h e = cc
  All-find P k ((j, w) ∷ d) v h e = elim (Bool-cases (str_eq j k)) [
    | inl t ↦ subst P (Option.some-injective w v (rw t at e)) h.0
    | inr t ↦ All-find P k d v h.1 (rw t at e)
  ]
