-- ===== src/Walk/Fuel.antt =====
-- The fuel of a walk of Walk.antt: one more than the number of nodes is enough.
use hacp.Common.{
  ℕ, zero, suc, ◌≤◌, ◌<◌, String, ◌≡◌, ◌∙◌, true, none, some, List, [], ◌∷◌, ◌≢◌, Result, ok, err,
  lookup, insert, arith, eq_iff, eq_refl, inl, inr, contains, subst, ap, if◌then◌else◌, is_some,
  length, lookup-insert,
}
use hacp.Walk.{
  Color, in_progress, done, Found, WalkError, exhausted, each, Graph, mark, finish, nothing_found,
  visit, walk,
}
use hacp.Walk.Steps.{
  each_ok, each_err, Ends, again, open_cycle, refused_cycle, missing, failed, entered, visit-Ends,
}

-- The keys that have no colour yet.
pub pending : List String → List (String × Color) → ℕ
pending [] colors = 0
pending (k ∷ ks) colors =
    let rest = pending ks colors in if is_some (lookup k colors) then rest else suc rest

pub pending-le-length :
    (ks : List String) (colors : List (String × Color)) → pending ks colors ≤ length ks
unfolding pending
pending-le-length [] colors = omega arith
pending-le-length (k ∷ ks) colors = ground (arith, pending-le-length ks colors)

abbrev Grows : List (String × Color) → List (String × Color) → Type 0
Grows c d = (k : String) → is_some (lookup k c) ≡ true → is_some (lookup k d) ≡ true

pending-Grows :
    (ks : List String) (c d : List (String × Color)) → Grows c d → pending ks d ≤ pending ks c
unfolding pending
pending-Grows [] c d g = omega arith
pending-Grows (k ∷ ks) c d g = ground (arith, pending-Grows ks c d g, g k)

insert-Grows : (id : String) (x : Color) (c : List (String × Color)) → Grows c (insert id x c)
insert-Grows id x c k h = ground (arith, lookup-insert id k x c)

-- Colouring a key that has none lowers the measure.
pending-insert :
    (id : String) (x : Color) (ks : List String) (c : List (String × Color))
    → lookup id c ≡ none
    → contains id ks ≡ true
    → pending ks (insert id x c) < pending ks c
unfolding pending contains
pending-insert id x [] c h m = absurd (cc m)
pending-insert id x (k ∷ ks) c h m = ground (
  arith,
  pending-insert id x ks c h,
  pending-Grows ks c (insert id x c) (insert-Grows id x c),
  lookup-insert id k x c,
  eq_iff id k,
  eq_iff k id,
)

-- `keys` has every node that the walk meets.
module _ {A : Type 0} (g : Graph A) (keys : List String) (P : String → Type 0)
    (known : (id : String) (a : A)
      → P id
      → g.find id ≡ some a
      → (contains id keys ≡ true) × ((k : String) → contains k (g.nexts a) ≡ true → P k)) where
  abbrev Enough : ℕ → Type 0
  Enough fuel =
      (id : String) (s : Found A)
      → P id
      → pending keys s.colors < fuel
      → visit g fuel id s ≢ err exhausted

  abbrev Growing : ℕ → Type 0
  Growing fuel = (id : String) (s t : Found A) → visit g fuel id s ≡ ok t → Grows s.colors t.colors

  each-Growing :
      (fuel : ℕ)
      → Growing fuel
      → (ks : List String) (s t : Found A) → each (visit g fuel) ks s ≡ ok t
      → Grows s.colors t.colors
  each-Growing fuel growing [] s t e =
      let same : s ≡ t = cc e in subst (λ t. Grows s.colors t.colors) same (λ k h. h)
  each-Growing fuel growing (j ∷ ks) s t e =
      let (u, first, rest) = each_ok (visit g fuel) j ks s t e in
      λ k h. each-Growing fuel growing ks u t rest k (growing j s u first k h)

  after-Growing :
      (fuel : ℕ)
      → Growing fuel
      → (id : String) (s t : Found A) (r : Result WalkError (Found A)) → Ends g fuel id s r
      → r ≡ ok t
      → Grows s.colors t.colors
  after-Growing fuel growing id s t _ (again h) e =
      let same : s ≡ t = cc e in subst (λ t. Grows s.colors t.colors) same (λ k h. h)
  after-Growing fuel growing id s t _ (open_cycle h) e = absurd (cc e)
  after-Growing fuel growing id s t _ (refused_cycle h x) e = absurd (cc e)
  after-Growing fuel growing id s t _ (missing h x n) e = absurd (cc e)
  after-Growing fuel growing id s t _ (failed h x a found f bad) e = absurd (cc e)
  after-Growing fuel growing id s t _ (entered h x a found below fine) e =
      let same : finish g id a below ≡ t = cc e in
      subst (λ t. Grows s.colors t.colors) same
        (λ k there. insert-Grows id done below.colors k (
          each-Growing fuel growing (g.nexts a) (mark g id s) below fine k
            (insert-Grows id in_progress s.colors k there)))

  visit-Growing : (fuel : ℕ) → Growing fuel
  visit-Growing zero id s t e = absurd (unfold visit in cc e)
  visit-Growing (suc fuel) id s t e =
      after-Growing fuel (visit-Growing fuel) id s t (visit g (suc fuel) id s)
        (visit-Ends g fuel id s) e

  each-Enough :
      (fuel : ℕ)
      → Enough fuel
      → (ks : List String) (s : Found A) → ((k : String) → contains k ks ≡ true → P k)
      → pending keys s.colors < fuel
      → each (visit g fuel) ks s ≢ err exhausted
  each-Enough fuel enough [] s p le h = cc h
  each-Enough fuel enough (k ∷ ks) s p le h = elim (each_err (visit g fuel) k ks s exhausted h) [
    | inl bad ↦ enough k s (p k (unfold contains in ground (arith, eq_refl k))) le bad
    | inr (u, good, rest) ↦
        let fewer = pending-Grows keys s.colors u.colors (visit-Growing fuel k s u good) in
        each-Enough fuel enough ks u (λ j j_in. p j (unfold contains in ground arith)) (omega arith)
          rest
  ]

  after-Enough :
      (fuel : ℕ)
      → Enough fuel
      → (id : String) (s : Found A) (r : Result WalkError (Found A)) → Ends g fuel id s r
      → P id
      → pending keys s.colors < suc fuel
      → r ≢ err exhausted
  after-Enough fuel enough id s _ (again h) p le e = cc e
  after-Enough fuel enough id s _ (open_cycle h) p le e = cc e
  after-Enough fuel enough id s _ (refused_cycle h x) p le e = cc e
  after-Enough fuel enough id s _ (missing h x n) p le e = cc e
  after-Enough fuel enough id s _ (failed h x a found f bad) p le e =
      let (known_id, below) = known id a p found in
      let fewer = pending-insert id in_progress keys s.colors h known_id in
      let same : f ≡ exhausted = cc e in
      each-Enough fuel enough (g.nexts a) (mark g id s) below (omega arith) (bad ∙ ap err same)
  after-Enough fuel enough id s _ (entered h x a found below fine) p le e = cc e

  visit-Enough : (fuel : ℕ) → Enough fuel
  visit-Enough zero id s p le = absurd (omega arith)
  visit-Enough (suc fuel) id s p le =
      after-Enough fuel (visit-Enough fuel) id s (visit g (suc fuel) id s) (visit-Ends g fuel id s)
        p le

  -- A walk with more fuel than there are keys ends by itself.
  pub walk_enough :
      (ids : List String)
      → ((k : String) → contains k ids ≡ true → P k)
      → walk g (suc (length keys)) ids ≢ err exhausted
  walk_enough ids p =
      let le = pending-le-length keys [] in
      each-Enough (suc (length keys)) (visit-Enough (suc (length keys))) ids (nothing_found g) p
        (omega arith)
