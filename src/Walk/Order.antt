-- ===== src/Walk/Order.antt =====
-- Lists of items in which each item stands after the items that it names.
use hacp.Common.{
  String, ◌≡◌, refl, Bool, true, false, List, [], ◌∷◌, ◌++◌, ◌||◌, ◌&&◌, not, arith, eq_refl, ◌==◌,
  any, all, contains,
}

module _ {A : Type 0} (ident : A → String) where
  abbrev pub listed : String → List A → Bool
  listed k order = any (λ a. k == ident a) order

module _ {A : Type 0} (ident : A → String) (nexts : A → List String) where
  abbrev can_follow : List String → A → Bool
  can_follow seen a = not (contains (ident a) seen) && all (λ k. contains k seen) (nexts a)

  -- Every item of the list is new, and stands after all that it names.
  abbrev pub resolved : List String → List A → Bool
  resolved seen [] = true
  resolved seen (a ∷ rest) = can_follow seen a && resolved (ident a ∷ seen) rest

  abbrev known : String → List String → List A → Bool
  known k seen order = contains k seen || listed ident k order

  all-known :
      (seen ks : List String)
      → ((k : String) → contains k ks ≡ true → contains k seen ≡ true)
      → all (λ k. contains k seen) ks ≡ true
  all-known seen [] h = refl
  all-known seen (k ∷ ks) h =
      let here = h k (unfold contains in ground (arith, eq_refl k)) in
      let rest = all-known seen ks (λ j c. h j (unfold contains in ground (arith, c))) in
      ground (arith, here, rest)

  pub resolved-push :
      (seen : List String) (order : List A) (a : A)
      → resolved seen order ≡ true
      → known (ident a) seen order ≡ false
      → ((k : String) → contains k (nexts a) ≡ true → known k seen order ≡ true)
      → resolved seen (order ++ a ∷ []) ≡ true
  resolved-push seen [] a r new below =
      let rest = all-known seen (nexts a) (λ k c. ground (arith, below k c)) in ground (arith, rest)
  resolved-push seen (b ∷ order) a r new below =
      let moved : (k : String) → known k (ident b ∷ seen) order ≡ known k seen (b ∷ order) =
        λ k. unfold contains in ground arith in
      let rest =
        resolved-push (ident b ∷ seen) order a (ground arith) (ground (arith, moved (ident a)))
          (λ k c. ground (arith, moved k, below k c)) in
      ground (arith, rest)
