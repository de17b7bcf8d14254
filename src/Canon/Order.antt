-- ===== src/Canon/Order.antt =====
-- The canonical form of src/v2/canon.rs does not depend on the order of an object's members.
use Prim.Native.String.{◌++◌}
use hacp.Common.{
  ℕ, ◌+◌, String, ◌≡◌, refl, ◌≢◌, ◌∙◌, List, [], ◌∷◌, if◌then◌else◌, arith, str_le, str_le_trans,
  str_le_total, str_le_antisym, decimal,
}
use hacp.Canon.Json.{Value, Items, Members, array, object, nil, cons, end, member}
use hacp.Canon.Sort.{insert_by_key, sort_by_key}
use hacp.Canon.{Crates, write_value, write_items, write_members, canonical_json, digest_of}

module _ {ℓ} {A : Type ℓ} where
  insert_by_key-cons :
      (k j : String) (v w : A) (l : List (String × A))
      → insert_by_key (k, v) ((j, w) ∷ l)
        ≡ (if str_le k j then (k, v) ∷ (j, w) ∷ l else (j, w) ∷ insert_by_key (k, v) l)
  unfolding insert_by_key
  insert_by_key-cons k j v w l = refl

  insert_by_key_comm :
      (j k : String) (v w : A) (l : List (String × A))
      → j ≢ k
      → insert_by_key (j, v) (insert_by_key (k, w) l)
        ≡ insert_by_key (k, w) (insert_by_key (j, v) l)
  insert_by_key_comm j k v w [] h =
      unfold insert_by_key in ground (arith, str_le_total j k, str_le_antisym j k)
  insert_by_key_comm j k v w ((i, u) ∷ l) h = ground (
    arith,
    insert_by_key-cons k i w u l,
    insert_by_key-cons j i v u l,
    insert_by_key-cons j k v w ((i, u) ∷ l),
    insert_by_key-cons k j w v ((i, u) ∷ l),
    insert_by_key-cons j i v u (insert_by_key (k, w) l),
    insert_by_key-cons k i w u (insert_by_key (j, v) l),
    insert_by_key_comm j k v w l,
    str_le_total j k,
    str_le_total j i,
    str_le_total k i,
    str_le_antisym j k,
    str_le_trans j k i,
    str_le_trans k j i,
  )

-- Values that differ in the order of members at most: members with different keys pass one another,
-- at any depth.
mutual
  pub data SameValue : Value → Value → Type 0 where
    same : (v : Value) → SameValue v v
    same_array : {is js : Items} → SameItems is js → SameValue (array is) (array js)
    same_object : {ms ns : Members} → SameMembers ms ns → SameValue (object ms) (object ns)

  pub data SameItems : Items → Items → Type 0 where
    same_nil : SameItems nil nil
    same_cons :
        {v w : Value} {is js : Items}
        → SameValue v w
        → SameItems is js
        → SameItems (cons v is) (cons w js)

  pub data SameMembers : Members → Members → Type 0 where
    same_end : SameMembers end end
    same_member :
        (k : String) {v w : Value} {ms ns : Members}
        → SameValue v w
        → SameMembers ms ns
        → SameMembers (member k v ms) (member k w ns)
    swap :
        (j k : String) (v w : Value) (ms : Members)
        → j ≢ k
        → SameMembers (member j v (member k w ms)) (member k w (member j v ms))
    chain : {ms ns os : Members} → SameMembers ms ns → SameMembers ns os → SameMembers ms os

module _ (crates : Crates) where
  mutual
    unfolding write_value sort_by_key

    write_value_same :
        {v w : Value}
        → SameValue v w
        → (path : String) → write_value crates v path ≡ write_value crates w path
    write_value_same (same v) path = refl
    write_value_same (same_array s) path = cc (write_items_same s path 0)
    write_value_same (same_object s) path = cc (write_members_same s path)

    write_items_same :
        {is js : Items}
        → SameItems is js
        → (path : String) (i : ℕ) → write_items crates is path i ≡ write_items crates js path i
    write_items_same same_nil path i = refl
    write_items_same (same_cons s t) path i =
        simp (
          write_value_same s (path ++ ("[" ++ (decimal i ++ "]"))),
          write_items_same t path (i + 1),
        )

    write_members_same :
        {ms ns : Members}
        → SameMembers ms ns
        → (path : String)
        → sort_by_key (write_members crates ms path) ≡ sort_by_key (write_members crates ns path)
    write_members_same same_end path = refl
    write_members_same (same_member k s t) path =
        cc (write_value_same s (path ++ ("." ++ k)), write_members_same t path)
    write_members_same (swap j k v w ms h) path = insert_by_key_comm j k _ _ _ h
    write_members_same (chain s t) path = write_members_same s path ∙ write_members_same t path

-- Two values that differ in the order of object members at most, at any depth, have the same
-- canonical text and the same digest, or are refused with the same error.
pub digest_of_same :
    (crates : Crates) (v w : Value)
    → SameValue v w
    → (canonical_json crates v ≡ canonical_json crates w)
      × (digest_of crates v ≡ digest_of crates w)
unfolding canonical_json digest_of
digest_of_same crates v w s = let e = write_value_same crates s "$" in (e, rw e)
