-- ===== src/Walk/Search.antt =====
-- A search of a list of items for all that are below one of them: `ancestry` of src/v2/artifact.rs and
-- `attestation_closure` of src/v2/verification.rs. What it finds, when it fails, and that it ends.
use hacp.Common.{
  suc, String, ◌==◌, ◌≡◌, ◌≢◌, ◌↔◌, ap, sym, subst, refl, Bool, true, Option, none, some, List, [],
  ◌∷◌, length, Result, ok, err, ◌>>=◌, ok_or, find, find-holds, contains, eq_iff, arith,
  Option-cases, Result-cases, inl, inr, ◌⊎◌, is_some, is_ok, map,
}
use hacp.Walk.{Graph, WalkError, cycle, unknown, exhausted, Found, walk, visit}
use hacp.Walk.Order.{listed, resolved}
use hacp.Walk.Steps.{Link, Leads, one, more, Leads-Link}
use hacp.Walk.Success.{walk_finds, Consistent-Below}
use hacp.Walk.Refusal.{Explains, walk_refuses}
use hacp.Walk.Fuel.{walk_enough}

module _ {A : Type 0} (ident : A → String) (nexts : A → List String) (refused : String → Bool)
    (items : List A) where
  abbrev pub find_id : String → Option A
  find_id id = find (λ a. ident a == id) items

  abbrev pub graph : Graph A
  graph = record { find = find_id; nexts = nexts; refused = refused }

  unfoldable pub search : String → Result WalkError (List A)
  unfolding visit
  search id = do
    start ← ok_or (find_id id) (unknown id)
    found ← walk graph (suc (length items)) (nexts start)
    ok found.order

  search_unknown : (id : String) → find_id id ≡ none → search id ≡ err (unknown id)
  unfolding search
  search_unknown id h = rw h refl

  -- The ends of a search from an item that is there.
  search_walks :
      (id : String) (start : A)
      → find_id id ≡ some start
      → ((t : Found A) × (walk graph (suc (length items)) (nexts start) ≡ ok t)
          × (search id ≡ ok t.order))
        ⊎ ((e : WalkError) × (walk graph (suc (length items)) (nexts start) ≡ err e)
            × (search id ≡ err e))
  unfolding search
  search_walks id start found =
      elim (Result-cases (walk graph (suc (length items)) (nexts start))) [
        | inl (e, bad) ↦ inr (e, bad, rw (found, bad) refl)
        | inr (t, good) ↦ inl (t, good, rw (found, good) refl)
      ]

  below_start :
      (id : String) (start : A)
      → find_id id ≡ some start
      → (k : String) → contains k (nexts start) ≡ true
      → Leads find_id nexts id k
  below_start id start found k h = one id k (start, found, h)

  found_ident : (id : String) (a : A) → find_id id ≡ some a → ident a ≡ id
  found_ident id a h = (eq_iff (ident a) id).0 (find-holds (λ b. ident b == id) items a h)

  first_step :
      (id j : String) (start : A)
      → find_id id ≡ some start
      → Link find_id nexts id j
      → contains j (nexts start) ≡ true
  first_step id j start found (a, found_a, j_in) =
      let same : a ≡ start = cc (found, found_a) in
      subst (λ a. contains j (nexts a) ≡ true) same j_in

  walk-search_finds :
      (id : String) (start : A) (t : Found A)
      → find_id id ≡ some start
      → walk graph (suc (length items)) (nexts start) ≡ ok t
      → (resolved ident nexts [] t.order ≡ true)
        × ((k : String) → (listed ident k t.order ≡ true) ↔ Leads find_id nexts id k)
        × ((k : String) → Leads find_id nexts id k → ¬ Leads find_id nexts k k)
  walk-search_finds id start t found good =
      let (c, seeds) =
        walk_finds graph ident found_ident (λ k. Leads find_id nexts id k)
          (λ j k r e. Leads-Link find_id nexts r e) (suc (length items)) (nexts start) t
          (below_start id start found) good in
      let inside : (k : String) → Leads find_id nexts id k → listed ident k t.order ≡ true = λ k b.
        elim b [
          | one i k e ↦ seeds k (first_step id k start found e)
          | more i j k e b ↦
              Consistent-Below graph ident found_ident (λ k. Leads find_id nexts id k)
                (λ j k r e. Leads-Link find_id nexts r e) c j k
                (seeds j (first_step id j start found e)) b
        ] in
      (c.sorted, λ k. (c.reached k, inside k), λ k b. c.acyclic k (inside k b))

  -- A search that succeeds.
  pub search_finds :
      (id : String) (order : List A)
      → search id ≡ ok order
      → (resolved ident nexts [] order ≡ true)
        × ((k : String) → (listed ident k order ≡ true) ↔ Leads find_id nexts id k)
        × ((k : String) → Leads find_id nexts id k → ¬ Leads find_id nexts k k)
  search_finds id order h = elim (Option-cases (find_id id)) [
    | inl n ↦ absurd (cc (h, search_unknown id n))
    | inr (start, found) ↦ elim (search_walks id start found) [
      | inr (e, bad, is_err) ↦ absurd (cc (h, is_err))
      | inl (t, good, is_ok) ↦
          let same : t.order ≡ order = cc (h, is_ok) in
          subst
            (λ order.
              (resolved ident nexts [] order ≡ true)
              × ((k : String) → (listed ident k order ≡ true) ↔ Leads find_id nexts id k)
              × ((k : String) → Leads find_id nexts id k → ¬ Leads find_id nexts k k))
            same (walk-search_finds id start t found good)
    ]
  ]

  -- What the errors of a search say.
  abbrev pub Reason : String → WalkError → Type 0
  Reason id (cycle k) = Leads find_id nexts id k × Leads find_id nexts k k
  Reason id (unknown k) = ((k ≡ id) ⊎ Leads find_id nexts id k) × (find_id k ≡ none)
  Reason id exhausted = ⊥

  length-idents : (xs : List A) → length (map ident xs) ≡ length xs
  length-idents [] = refl
  length-idents (x ∷ xs) = ap suc (length-idents xs)

  contains-idents :
      (id : String) (xs : List A) (a : A)
      → find (λ b. ident b == id) xs ≡ some a
      → contains id (map ident xs) ≡ true
  unfolding contains
  contains-idents id [] a h = absurd (cc h)
  contains-idents id (x ∷ xs) a h =
      ground (arith, contains-idents id xs a, eq_iff (ident x) id, eq_iff id (ident x))

  enough : (ks : List String) → walk graph (suc (length items)) ks ≢ err exhausted
  enough ks =
      subst (λ n. walk graph (suc n) ks ≢ err exhausted) (length-idents items)
        (walk_enough graph (map ident items) (λ k. Unit)
          (λ id a p found. (contains-idents id items a found, λ k h. tt)) ks (λ k h. tt))

  explained :
      (id : String) (start : A) (e : WalkError)
      → (only : (k : String) → refused k ≡ true → k ≡ id)
      → walk graph (suc (length items)) (nexts start) ≡ err e
      → Explains graph
          (λ k. Leads find_id nexts id k)
          (λ j k r e. Leads-Link find_id nexts r e)
          (λ k r h. subst (λ j. Leads find_id nexts j k) (sym (only k h)) r)
          e
      → Reason id e
  explained id start (cycle k) only bad told = told
  explained id start (unknown k) only bad told = (inr told.0, told.1)
  explained id start exhausted only bad told = enough (nexts start) bad

  walk-search_fails :
      (id : String) (start : A) (e : WalkError)
      → ((k : String) → refused k ≡ true → k ≡ id)
      → find_id id ≡ some start
      → walk graph (suc (length items)) (nexts start) ≡ err e
      → Reason id e
  walk-search_fails id start e only found bad = explained id start e only bad (
      walk_refuses graph (λ k. Leads find_id nexts id k) (λ j k r e. Leads-Link find_id nexts r e)
        (λ k r h. subst (λ j. Leads find_id nexts j k) (sym (only k h)) r) (suc (length items))
        (nexts start) e (below_start id start found) bad)

  -- A search that fails, where only the start itself is refused.
  pub search_fails :
      (id : String) (e : WalkError)
      → ((k : String) → refused k ≡ true → k ≡ id)
      → search id ≡ err e
      → Reason id e
  search_fails id e only h = elim (Option-cases (find_id id)) [
    | inl n ↦
        let same : unknown id ≡ e = cc (h, search_unknown id n) in
        subst (Reason id) same (inl refl, n)
    | inr (start, found) ↦ elim (search_walks id start found) [
      | inl (t, good, is_ok) ↦ absurd (cc (h, is_ok))
      | inr (f, bad, is_err) ↦
          let same : f ≡ e = cc (h, is_err) in
          subst (Reason id) same (walk-search_fails id start f only found bad)
    ]
  ]

  -- A search finds all there is where no name is missing and nothing below the start is below itself.
  pub search_succeeds :
      (id : String)
      → ((k : String) → refused k ≡ true → k ≡ id)
      → ((k : String) → (k ≡ id) ⊎ Leads find_id nexts id k → is_some (find_id k) ≡ true)
      → ((k : String) → Leads find_id nexts id k → ¬ Leads find_id nexts k k)
      → (order : List A) × (search id ≡ ok order)
  search_succeeds id only there acyclic = elim (Result-cases (search id)) [
    | inr (order, good) ↦ (order, good)
    | inl (cycle k, bad) ↦
        let (below, looped) = search_fails id (cycle k) only bad in absurd (acyclic k below looped)
    | inl (unknown k, bad) ↦
        let (at, n) = search_fails id (unknown k) only bad in absurd (cc (there k at, n))
    | inl (exhausted, bad) ↦ absurd (search_fails id exhausted only bad)
  ]
