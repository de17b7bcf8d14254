-- ===== src/Canon/Integers.antt =====
-- Which values src/v2/canon.rs has a canonical form for.
use Prim.Native.String.{◌++◌}
use hacp.Common.{
  ℕ, ◌+◌, String, ◌≡◌, refl, Bool, true, false, ◌&&◌, List, [], ◌∷◌, arith, Result, ok, err, ◌>>=◌,
  is_ok, decimal,
}
use hacp.Canon.Json.{
  Value, Items, Members, null, bool, number, string, array, object, nil, cons, end, member,
}
use hacp.Canon.Sort.{insert_by_key, sort_by_key}
use hacp.Canon.{
  CanonError, Crates, is_integer, join_members, write_value, write_items, write_members,
  canonical_json, digest_of,
}

module _ (crates : Crates) where
  -- Every number in the value, at any depth, is written as an integer.
  unfoldable mutual
    pub integral : Value → Bool
    integral (number n) = is_integer crates n
    integral (array items) = integral_items items
    integral (object map) = integral_members map
    integral null = true
    integral (bool b) = true
    integral (string s) = true

    pub integral_items : Items → Bool
    integral_items nil = true
    integral_items (cons v items) = integral v && integral_items items

    pub integral_members : Members → Bool
    integral_members end = true
    integral_members (member k v map) = integral v && integral_members map

abbrev all_ok : List (String × Result CanonError String) → Bool
all_ok [] = true
all_ok ((k, r) ∷ l) = is_ok r && all_ok l

all_ok-insert_by_key :
    (k : String) (r : Result CanonError String) (l : List (String × Result CanonError String))
    → all_ok (insert_by_key (k, r) l) ≡ (is_ok r && all_ok l)
unfolding insert_by_key
all_ok-insert_by_key k r [] = refl
all_ok-insert_by_key k r ((j, q) ∷ l) = ground (arith, all_ok-insert_by_key k r l)

all_ok-sort_by_key :
    (l : List (String × Result CanonError String)) → all_ok (sort_by_key l) ≡ all_ok l
unfolding sort_by_key
all_ok-sort_by_key [] = refl
all_ok-sort_by_key ((k, r) ∷ l) =
    ground (arith, all_ok-sort_by_key l, all_ok-insert_by_key k r (sort_by_key l))

is_ok-join_members :
    (i : ℕ) (l : List (String × Result CanonError String)) → is_ok (join_members i l) ≡ all_ok l
unfolding join_members
is_ok-join_members i [] = refl
is_ok-join_members i ((k, ok text) ∷ l) = ground (arith, is_ok-join_members (i + 1) l)
is_ok-join_members i ((k, err e) ∷ l) = refl

is_ok-bind-ok :
    (r : Result CanonError String) (f : String → String) → is_ok (r >>= λ t. ok (f t)) ≡ is_ok r
is_ok-bind-ok (ok t) f = refl
is_ok-bind-ok (err e) f = refl

module _ (crates : Crates) where
  mutual
    unfolding write_value integral

    is_ok-write_value :
        (v : Value) (path : String) → is_ok (write_value crates v path) ≡ integral crates v
    is_ok-write_value null path = refl
    is_ok-write_value (bool true) path = refl
    is_ok-write_value (bool false) path = refl
    is_ok-write_value (number n) path = ground arith
    is_ok-write_value (string s) path = refl
    is_ok-write_value (array items) path = ground (arith, is_ok-write_items items path 0)
    is_ok-write_value (object map) path =
        let sorted = sort_by_key (write_members crates map path) in
        ground (
          arith,
          is_ok-join_members 0 sorted,
          all_ok-sort_by_key (write_members crates map path),
          all_ok-write_members map path,
        )

    is_ok-write_items :
        (items : Items) (path : String) (i : ℕ)
        → is_ok (write_items crates items path i) ≡ integral_items crates items
    is_ok-write_items nil path i = refl
    is_ok-write_items (cons v items) path i = ground (
      arith,
      is_ok-write_value v (path ++ ("[" ++ (decimal i ++ "]"))),
      is_ok-write_items items path (i + 1),
    )

    all_ok-write_members :
        (map : Members) (path : String)
        → all_ok (write_members crates map path) ≡ integral_members crates map
    all_ok-write_members end path = refl
    all_ok-write_members (member k v map) path =
        ground (arith, is_ok-write_value v (path ++ ("." ++ k)), all_ok-write_members map path)

-- A value has a canonical text, and a digest, exactly if every number in it, at any depth, is
-- written as an integer.
pub is_ok-digest_of :
    (crates : Crates) (v : Value)
    → (is_ok (canonical_json crates v) ≡ integral crates v)
      × (is_ok (digest_of crates v) ≡ integral crates v)
unfolding canonical_json digest_of
is_ok-digest_of crates v =
    (is_ok-write_value crates v "$", ground (arith, is_ok-write_value crates v "$"))
