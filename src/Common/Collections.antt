-- ===== src/Common/Collections.antt =====
-- `BTreeSet<String>` and `BTreeMap<String, V>`: lists in ascending order of the keys.
use Prim.Native.Nat.{ℕ, suc, ◌+◌, ◌≤◌}
use Prim.Native.String.{String}
use mathlib.Core.Path.{◌≡◌, refl, ap}
use mathlib.Core.Bool.{Bool, true, false, ◌||◌}
use mathlib.Core.Logic.{inl, inr}
use mathlib.Core.Option.{Option, none, some}
use mathlib.Core.List.{List, [], ◌∷◌}
use native.Mathlib.Omega.{arith}
use text.Mathlib.Text.{◌==◌}
use text.Mathlib.TextEquality.{eq_iff}
use text.Mathlib.TextPositions.{eq_refl}
use hacp.Common.Tests.{if◌then◌else◌, is_some, Bool-cases, Option-cases}
use hacp.Common.Ordered.{str_lt}
use hacp.Common.Lists.{length, any, count}

-- `contains`, of a set or of a list.
unfoldable pub contains : String → List String → Bool
contains k [] = false
contains k (j ∷ s) = k == j || contains k s

place : String → List String → List String
place k [] = k ∷ []
place k (j ∷ s) = if str_lt k j then k ∷ j ∷ s else j ∷ place k s

-- `BTreeSet::insert`.
unfoldable pub set_insert : String → List String → List String
unfolding place contains
set_insert k s = if contains k s then s else place k s

unfoldable pub set_extend : List String → List String → List String
set_extend [] s = s
set_extend (k ∷ ks) s = set_extend ks (set_insert k s)

module _ {ℓ} {V : Type ℓ} where
  -- `BTreeMap::get`.
  unfoldable pub lookup : String → List (String × V) → Option V
  lookup k [] = none
  lookup k ((j, v) ∷ m) = if k == j then some v else lookup k m

  replace : String → V → List (String × V) → List (String × V)
  replace k v [] = []
  replace k v ((j, w) ∷ m) = if k == j then (j, v) ∷ m else (j, w) ∷ replace k v m

  put : String → V → List (String × V) → List (String × V)
  put k v [] = (k, v) ∷ []
  put k v ((j, w) ∷ m) = if str_lt k j then (k, v) ∷ (j, w) ∷ m else (j, w) ∷ put k v m

  -- `BTreeMap::insert`.
  unfoldable pub insert : String → V → List (String × V) → List (String × V)
  unfolding lookup replace put
  insert k v m = if is_some (lookup k m) then replace k v m else put k v m

  -- `BTreeMap::remove`.
  unfoldable pub erase : String → List (String × V) → List (String × V)
  erase k [] = []
  erase k ((j, v) ∷ m) = let rest = erase k m in if k == j then rest else (j, v) ∷ rest

  abbrev pub values : List (String × V) → List V
  values [] = []
  values ((k, v) ∷ m) = v ∷ values m

  lookup-put :
      (k j : String) (v : V) (m : List (String × V))
      → lookup k m ≡ none
      → lookup j (put k v m) ≡ (if j == k then some v else lookup j m)
  unfolding lookup put
  lookup-put k j v [] h = refl
  lookup-put k j v ((i, w) ∷ m) h =
      ground (arith, lookup-put k j v m, eq_iff k i, eq_iff j i, eq_iff j k)

  lookup-replace :
      (k j : String) (v u : V) (m : List (String × V))
      → lookup k m ≡ some u
      → lookup j (replace k v m) ≡ (if j == k then some v else lookup j m)
  unfolding lookup replace
  lookup-replace k j v u [] h = ground arith
  lookup-replace k j v u ((i, w) ∷ m) h =
      ground (arith, lookup-replace k j v u m, eq_iff k i, eq_iff j i, eq_iff j k)

  pub lookup-insert :
      (k j : String) (v : V) (m : List (String × V))
      → lookup j (insert k v m) ≡ (if j == k then some v else lookup j m)
  unfolding insert
  lookup-insert k j v m = elim (Option-cases (lookup k m)) [
    | inl e ↦ rw e (lookup-put k j v m e)
    | inr (u, e) ↦ rw e (lookup-replace k j v u m e)
  ]

contains-place :
    (k j : String) (s : List String) → contains j (place k s) ≡ (j == k || contains j s)
unfolding contains place
contains-place k j [] = refl
contains-place k j (i ∷ s) = ground (arith, contains-place k j s)

pub contains-set_insert :
    (k j : String) (s : List String) → contains j (set_insert k s) ≡ (j == k || contains j s)
unfolding set_insert
contains-set_insert k j s = ground (arith, contains-place k j s, eq_iff j k)

length-place : (k : String) (s : List String) → length (place k s) ≡ suc (length s)
unfolding place
length-place k [] = refl
length-place k (i ∷ s) = ground (arith, length-place k s)

pub length-set_insert :
    (k : String) (s : List String)
    → length (set_insert k s) ≡ (if contains k s then length s else suc (length s))
unfolding set_insert
length-set_insert k s = ground (arith, length-place k s)

pub contains-set_extend :
    (ks : List String) (j : String) (s : List String)
    → contains j (set_extend ks s) ≡ (contains j ks || contains j s)
unfolding set_extend
contains-set_extend [] j s = unfold contains in refl
contains-set_extend (k ∷ ks) j s =
    let here : contains j (k ∷ ks) ≡ (j == k || contains j ks) = unfold contains in refl in
    ground (arith, here, contains-set_extend ks j (set_insert k s), contains-set_insert k j s)

module _ {ℓ} {V : Type ℓ} where
  -- No key stands twice.
  abbrev pub Distinct : List (String × V) → Type ℓ
  Distinct [] = Unit
  Distinct ((k, v) ∷ m) = (lookup k m ≡ none) × Distinct m

  put-Distinct :
      (k : String) (v : V) (m : List (String × V))
      → lookup k m ≡ none
      → Distinct m
      → Distinct (put k v m)
  unfolding put lookup
  put-Distinct k v [] h d = (refl, tt)
  put-Distinct k v ((j, w) ∷ m) h d = elim (Bool-cases (str_lt k j)) [
    | inl first ↦ rw first (h, d)
    | inr later ↦
        let fresh : lookup k m ≡ none = ground arith in
        rw later (
          ground (arith, lookup-put k j v m fresh, eq_iff j k, eq_iff k j, d.0),
          put-Distinct k v m fresh d.1,
        )
  ]

  -- Inserting under a new key keeps the keys distinct.
  pub insert-Distinct :
      (k : String) (v : V) (m : List (String × V))
      → lookup k m ≡ none
      → Distinct m
      → Distinct (insert k v m)
  unfolding insert
  insert-Distinct k v m h d = rw h (put-Distinct k v m h d)

  -- A value that passes a test is found under its key.
  pub any-values :
      (p : V → Bool) (m : List (String × V))
      → Distinct m
      → any p (values m) ≡ true
      → (k : String) × (v : V) × (lookup k m ≡ some v) × (p v ≡ true)
  unfolding lookup
  any-values p [] d h = absurd (cc h)
  any-values p ((j, w) ∷ m) d h = elim (Bool-cases (p w)) [
    | inl found ↦ (j, w, ground (arith, eq_refl j), found)
    | inr missing ↦
        let (k, v, at, passed) = any-values p m d.1 (ground arith) in
        (k, v, ground (arith, d.0, eq_iff k j), passed)
  ]

module _ {ℓ} {V : Type ℓ} (q : V → Bool) where
  -- The entries whose value passes a test.
  abbrev pub count_values : List (String × V) → ℕ
  count_values m = count (λ (e : String × V). q e.1) m

  abbrev pub weight : V → ℕ
  weight v = if q v then 1 else 0

  count_values_cons :
      (k : String) (v : V) (m : List (String × V))
      → count_values ((k, v) ∷ m) ≡ weight v + count_values m
  count_values_cons k v m = ground arith

  count_values-put :
      (k : String) (v : V) (m : List (String × V))
      → count_values (put k v m) ≡ weight v + count_values m
  unfolding put
  count_values-put k v [] = ground arith
  count_values-put k v ((j, w) ∷ m) = elim (Bool-cases (str_lt k j)) [
    | inl first ↦ rw first (count_values_cons k v ((j, w) ∷ m))
    | inr later ↦ rw later (
        omega (
          arith,
          count_values_cons j w (put k v m),
          count_values_cons j w m,
          count_values-put k v m,
        ))
  ]

  count_values-replace :
      (k : String) (v u : V) (m : List (String × V))
      → lookup k m ≡ some u
      → weight u + count_values (replace k v m) ≡ weight v + count_values m
  unfolding lookup replace
  count_values-replace k v u [] h = absurd (cc h)
  count_values-replace k v u ((j, w) ∷ m) h = elim (Bool-cases (k == j)) [
    | inl here ↦
        let same : w ≡ u = ground arith in
        let weighed : weight w ≡ weight u = ap weight same in
        rw here (omega (arith, count_values_cons j v m, count_values_cons j w m, weighed))
    | inr there ↦ rw there (
        omega (
          arith,
          count_values_cons j w (replace k v m),
          count_values_cons j w m,
          count_values-replace k v u m (ground arith),
        ))
  ]

  -- An entry under a known key counts in place of the old value.
  pub count_values-insert_known :
      (k : String) (v u : V) (m : List (String × V))
      → lookup k m ≡ some u
      → weight u + count_values (insert k v m) ≡ weight v + count_values m
  unfolding insert
  count_values-insert_known k v u m h = rw h (count_values-replace k v u m h)

  -- At most the new entry counts more.
  pub count_values-insert_le :
      (k : String) (v : V) (m : List (String × V))
      → count_values (insert k v m) ≤ weight v + count_values m
  unfolding insert
  count_values-insert_le k v m = elim (Option-cases (lookup k m)) [
    | inl n ↦ rw n (omega (arith, count_values-put k v m))
    | inr (u, e) ↦ rw e (omega (arith, count_values-replace k v u m e))
  ]

  pub count_values-erase_le :
      (k : String) (m : List (String × V)) → count_values (erase k m) ≤ count_values m
  unfolding erase
  count_values-erase_le k [] = omega arith
  count_values-erase_le k ((j, w) ∷ m) = ground (arith, count_values-erase_le k m)

pub lookup-erase {ℓ} :
    {V : Type ℓ} (k j : String) (m : List (String × V))
    → lookup j (erase k m) ≡ (if j == k then none else lookup j m)
unfolding lookup erase
lookup-erase k j [] = ground arith
lookup-erase k j ((i, w) ∷ m) =
    ground (arith, lookup-erase k j m, eq_iff k i, eq_iff j i, eq_iff j k)
