-- ===== src/Prelude/Text.antt =====
-- Python's `str` and `bytes`: code points of a text, and the order by code points.
use Prim.Native.Nat.{ℕ, zero, suc}
use Prim.Native.Char.{code}
use Prim.Native.String.{String}
use mathlib.Core.Bool.{Bool, true, false, ◌&&◌, ◌||◌}
use mathlib.Core.List.{List, [], ◌∷◌}
use text.Mathlib.Text.{◌==◌ as str_eq}
use zsec_shield.Prelude.Tests.{ltb, ◌==◌, if◌then◌else◌}

abbrev pub codes : String → List ℕ
codes String.[] = []
codes (String.◌∷◌ c s) = code c ∷ codes s

abbrev pub leb_codes : List ℕ → List ℕ → Bool
leb_codes [] ys = true
leb_codes (x ∷ xs) [] = false
leb_codes (x ∷ xs) (y ∷ ys) = ltb x y || (x == y && leb_codes xs ys)

-- `a <= b` on `str`
unfoldable pub leb_text : String → String → Bool
leb_text a b = leb_codes (codes a) (codes b)

-- `needle in text` for a sequence of bytes or code points
abbrev pub starts : List ℕ → List ℕ → Bool
starts [] ys = true
starts (x ∷ xs) [] = false
starts (x ∷ xs) (y ∷ ys) = x == y && starts xs ys

abbrev pub occurs : List ℕ → List ℕ → Bool
occurs needle [] = starts needle []
occurs needle (y ∷ ys) = starts needle (y ∷ ys) || occurs needle ys

-- `a in (…)` on `str`
abbrev pub text_in : String → List String → Bool
text_in a [] = false
text_in a (b ∷ bs) = str_eq a b || text_in a bs

-- `text.replace("\r", " ").replace("\n", " ")`
abbrev pub one_line : String → String
one_line String.[] = String.[]
one_line (String.◌∷◌ c s) =
    String.◌∷◌ (if code c == 13 then " " else if code c == 10 then " " else c) (one_line s)

-- `text[:n]`
abbrev pub clip : ℕ → String → String
clip zero s = String.[]
clip (suc n) String.[] = String.[]
clip (suc n) (String.◌∷◌ c s) = String.◌∷◌ c (clip n s)
