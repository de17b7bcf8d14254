-- ===== src/Common/Ordered.antt =====
-- The order of texts: `str` compares bytes, which for UTF-8 is the order of the code points.
use Prim.Native.Nat.{Ordering}
use Prim.Native.String.{String, [], ◌∷◌, compare}
use Prim.Native.String.compare
use mathlib.Core.Path.{◌≡◌, refl}
use mathlib.Core.Logic.{◌⊎◌}
use mathlib.Core.Bool.{Bool, true}
use native.Mathlib.Omega.{arith}
use text.Mathlib.Text.{is_le, is_lt}
use text.Mathlib.TextEquality.{path_by_compare}

-- `a <= b` and `a < b` on `str`.
abbrev pub str_le : String → String → Bool
str_le a b = is_le (compare a b)

abbrev pub str_lt : String → String → Bool
str_lt a b = is_lt (compare a b)

-- `Ord::min`.
abbrev pub str_min : String → String → String
str_min a b = elim (compare a b) [ Ordering.gt ↦ b | _ ↦ a ]

pub str_le_trans : (a b c : String) → str_le a b ≡ true → str_le b c ≡ true → str_le a c ≡ true
str_le_trans [] b [] h k = refl
str_le_trans [] b (z ∷ c) h k = rw compare.nil-cons
str_le_trans (x ∷ a) [] c h k = ground (arith, compare.cons-nil x a)
str_le_trans (x ∷ a) (y ∷ b) [] h k = ground (arith, compare.cons-nil y b)
str_le_trans (x ∷ a) (y ∷ b) (z ∷ c) h k = ground (
  arith,
  compare.cons-cons x y a b,
  compare.cons-cons y z b c,
  compare.cons-cons x z a c,
  str_le_trans a b c,
)

pub str_le_total : (a b : String) → (str_le a b ≡ true) ⊎ (str_lt b a ≡ true)
str_le_total [] [] = ground (arith, compare.nil-nil)
str_le_total [] (y ∷ b) = ground (arith, compare.nil-cons y b)
str_le_total (x ∷ a) [] = ground (arith, compare.nil-cons x a)
str_le_total (x ∷ a) (y ∷ b) =
    ground (arith, compare.cons-cons x y a b, compare.cons-cons y x b a, str_le_total a b)

pub str_le_antisym : (a b : String) → str_le a b ≡ true → str_le b a ≡ true → a ≡ b
str_le_antisym a b h k = path_by_compare a b (equal a b h k)
  where
    equal : (a b : String) → str_le a b ≡ true → str_le b a ≡ true → compare a b ≡ Ordering.eq
    equal [] [] h k = compare.nil-nil
    equal [] (y ∷ b) h k = ground (arith, compare.cons-nil y b)
    equal (x ∷ a) [] h k = ground (arith, compare.cons-nil x a)
    equal (x ∷ a) (y ∷ b) h k =
        ground (arith, compare.cons-cons x y a b, compare.cons-cons y x b a, equal a b)
