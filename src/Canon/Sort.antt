-- ===== src/Canon/Sort.antt =====
-- The stable sort of src/v2/canon.rs over members, by key.
use hacp.Common.{String, List, [], ◌∷◌, str_le, if◌then◌else◌}

module _ {ℓ} {A : Type ℓ} where
  unfoldable pub insert_by_key : String × A → List (String × A) → List (String × A)
  insert_by_key (k, v) [] = (k, v) ∷ []
  insert_by_key (k, v) ((j, w) ∷ l) =
      if str_le k j then (k, v) ∷ (j, w) ∷ l else (j, w) ∷ insert_by_key (k, v) l

  unfoldable pub sort_by_key : List (String × A) → List (String × A)
  unfolding insert_by_key
  sort_by_key [] = []
  sort_by_key (x ∷ l) = insert_by_key x (sort_by_key l)
