-- ===== src/Interface/Buildable.antt =====
-- What the check for cycles of src/contract.rs finds: whether the artifacts can be built in some order.
use hacp.Common.{
  suc, String, ◌≡◌, ◌≢◌, refl, ◌↔◌, true, ◌&&◌, ◌||◌, List, [], ◌∷◌, ◌++◌, map, any, length, ok,
  err, ◌==◌, contains, arith, eq_iff, Result-cases, inl, inr, Result,
}
use hacp.Walk
use hacp.Walk.{Found, WalkError, exhausted, walk}
use hacp.Walk.Steps.{Leads-first}
use hacp.Walk.Success.{walk_finds}
use hacp.Walk.Refusal.{walk_refuses}
use hacp.Walk.Fuel.{walk_enough}
use hacp.Interface.{
  ArtifactSpec, Dependency, InterfaceContract, ContractError, dependency_cycle, graph, ids, nodes,
  walk_error, check_acyclic,
}
use hacp.Interface.Edges.{
  Requires, Edge, Below, Below-Requires, Requires-Below, is_required, Edge-is_required,
}

contains-append :
    (k : String) (xs ys : List String) → contains k (xs ++ ys) ≡ (contains k xs || contains k ys)
unfolding contains
contains-append k [] ys = refl
contains-append k (x ∷ xs) ys = ground (arith, contains-append k xs ys)

-- What requires another is an artifact, and what is required is named by a dependency.
required_source :
    (j k x : String) (artifacts : List ArtifactSpec)
    → any (λ (a : ArtifactSpec). a.artifact_id == j && a.produced_by == x) artifacts ≡ true
    → contains j (map (λ (a : ArtifactSpec). a.artifact_id) artifacts) ≡ true
unfolding contains
required_source j k x [] h = absurd (cc h)
required_source j k x (a ∷ artifacts) h =
    ground (arith, required_source j k x artifacts, eq_iff a.artifact_id j, eq_iff j a.artifact_id)

required_ends :
    (j k : String) (artifacts : List ArtifactSpec) (ds : List Dependency)
    → is_required j k artifacts ds ≡ true
    → (contains j (map (λ (a : ArtifactSpec). a.artifact_id) artifacts) ≡ true)
      × (contains k (map (λ (d : Dependency). d.consumes) ds) ≡ true)
unfolding contains
required_ends j k artifacts [] h = absurd (cc h)
required_ends j k artifacts (d ∷ ds) h =
    ground (arith, required_source j k d.consumer artifacts, required_ends j k artifacts ds)

module _ (c : InterfaceContract) where
  abbrev run : Result WalkError (Found String)
  run = walk (graph c) (suc (length (nodes c))) (ids c)

  abbrev IsNode : String → Type 0
  IsNode k = contains k (nodes c) ≡ true

  id-IsNode : (k : String) → contains k (ids c) ≡ true → IsNode k
  id-IsNode k h =
      ground
        (arith, contains-append k (ids c) (map (λ (d : Dependency). d.consumes) c.dependencies))

  Edge-IsNode : (j k : String) → Edge c j k → IsNode k
  Edge-IsNode j k e =
      let ends = required_ends j k c.artifacts c.dependencies (Edge-is_required c j k e) in
      ground (
        arith,
        ends,
        contains-append k (ids c) (map (λ (d : Dependency). d.consumes) c.dependencies),
      )

  ends_by_itself : run ≢ err exhausted
  ends_by_itself =
      walk_enough (graph c) (nodes c) IsNode
        (λ id a node found.
          let same : id ≡ a = ground arith in (node, λ k there. Edge-IsNode id k (a, found, there)))
        (ids c) id-IsNode

  -- A node on a cycle is an artifact, which the walk has listed.
  run-acyclic : (t : Found String) → run ≡ ok t → (k : String) → ¬ Below c k k
  run-acyclic t good k loop =
      let (consistent, seeds) =
        walk_finds (graph c) (λ id. id) (λ id a found. ground arith) IsNode
          (λ j k node e. Edge-IsNode j k e) (suc (length (nodes c))) (ids c) t id-IsNode good in
      let (j, edge, rest) = Leads-first (graph c).find (graph c).nexts loop in
      let there = (required_ends k j c.artifacts c.dependencies (Edge-is_required c k j edge)).0 in
      consistent.acyclic k (seeds k there) loop

  run-cycle : (k : String) → run ≡ err (Walk.cycle k) → Below c k k
  run-cycle k bad =
      (walk_refuses (graph c) IsNode (λ j k node e. Edge-IsNode j k e)
        (λ k node refused. absurd (cc refused)) (suc (length (nodes c))) (ids c) (Walk.cycle k)
        id-IsNode bad).1

  never_unknown : (k : String) → run ≢ err (Walk.unknown k)
  never_unknown k bad = absurd (
      cc (
        (walk_refuses (graph c) IsNode (λ j k node e. Edge-IsNode j k e)
          (λ k node refused. absurd (cc refused)) (suc (length (nodes c))) (ids c) (Walk.unknown k)
          id-IsNode bad).1))

  fails_by_cycle :
      (e : WalkError)
      → run ≡ err e
      → (k : String) × (walk_error e ≡ dependency_cycle k) × Requires c k k
  fails_by_cycle (Walk.cycle k) bad = (k, refl, Below-Requires c (run-cycle k bad))
  fails_by_cycle (Walk.unknown k) bad = absurd (never_unknown k bad)
  fails_by_cycle exhausted bad = absurd (ends_by_itself bad)

  accepts : (t : Found String) → run ≡ ok t → check_acyclic c ≡ ok tt
  unfolding check_acyclic
  accepts t good = rw good refl

  refuses : (e : WalkError) → run ≡ err e → check_acyclic c ≡ err (walk_error e)
  unfolding check_acyclic
  refuses e bad = rw bad refl

  -- The check passes exactly if no artifact requires itself in one or more steps, where an artifact
  -- requires what its producer consumes; and every error is a cycle, at an artifact that requires itself.
  pub check_acyclic_iff :
      ((check_acyclic c ≡ ok tt) ↔ ((k : String) → ¬ Requires c k k))
      × ((e : ContractError)
          → check_acyclic c ≡ err e
          → (k : String) × (e ≡ dependency_cycle k) × Requires c k k)
  check_acyclic_iff = elim (Result-cases run) [
    | inr (t, good) ↦
        let passed = accepts t good in
        (
          (λ h k loop. run-acyclic t good k (Requires-Below c loop), λ h. passed),
          λ e bad. absurd (cc (passed, bad)),
        )
    | inl (f, bad) ↦
        let failed = refuses f bad in
        let (k, same, loop) = fails_by_cycle f bad in
        (
          (λ h. absurd (cc (failed, h)), λ acyclic. absurd (acyclic k loop)),
          λ e told. (k, cc (failed, told, same), loop),
        )
  ]
