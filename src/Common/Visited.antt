-- ===== src/Common/Visited.antt =====
-- The measure of a walk along the keys of a map: the entries whose key is not yet seen.
use Prim.Native.Nat.{ℕ, suc, ◌≤◌}
use Prim.Native.String.{String}
use mathlib.Core.Path.{◌≡◌}
use mathlib.Core.Bool.{false}
use mathlib.Core.Option.{some}
use mathlib.Core.List.{List, [], ◌∷◌}
use native.Mathlib.Omega.{arith}
use text.Mathlib.TextEquality.{eq_iff}
use hacp.Common.Tests.{if◌then◌else◌}
use hacp.Common.Lists.{length}
use hacp.Common.Collections.{contains, set_insert, contains-set_insert, lookup}

module _ {ℓ} {V : Type ℓ} where
  pub unseen : List String → List (String × V) → ℕ
  unseen seen [] = 0
  unseen seen ((k, v) ∷ m) = let rest = unseen seen m in if contains k seen then rest else suc rest

  pub unseen-le-length : (seen : List String) (m : List (String × V)) → unseen seen m ≤ length m
  unfolding unseen
  unseen-le-length seen [] = omega arith
  unseen-le-length seen ((k, v) ∷ m) = ground (arith, unseen-le-length seen m)

  pub unseen-insert_le :
      (p : String) (seen : List String) (m : List (String × V))
      → unseen (set_insert p seen) m ≤ unseen seen m
  unfolding unseen
  unseen-insert_le p seen [] = omega arith
  unseen-insert_le p seen ((k, v) ∷ m) =
      ground (arith, unseen-insert_le p seen m, contains-set_insert p k seen)

  -- Seeing a key for the first time lowers the measure.
  pub unseen-insert_lt :
      (p : String) (v : V) (seen : List String) (m : List (String × V))
      → lookup p m ≡ some v
      → contains p seen ≡ false
      → suc (unseen (set_insert p seen) m) ≤ unseen seen m
  unfolding unseen lookup
  unseen-insert_lt p v seen [] h n = ground arith
  unseen-insert_lt p v seen ((k, w) ∷ m) h n = ground (
    arith,
    unseen-insert_lt p v seen m,
    unseen-insert_le p seen m,
    contains-set_insert p k seen,
    eq_iff p k,
  )
