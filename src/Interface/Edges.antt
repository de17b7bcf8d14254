-- ===== src/Interface/Edges.antt =====
-- The edges of src/contract.rs: which artifact requires which.
use hacp.Common.{
  String, ◌≡◌, refl, sym, ◌∙◌, subst, Bool, true, ◌&&◌, ◌||◌, List, [], ◌∷◌, ◌++◌, map, any, filter,
  ◌==◌, contains, arith,
}
use hacp.Walk.Steps.{Link, Leads, one, more}
use hacp.Interface.{
  ArtifactSpec, Dependency, InterfaceContract, produced_by, edges_of, targets, graph,
}

-- Producing the artifact requires the other: its producer consumes it.
abbrev pub is_required : String → String → List ArtifactSpec → List Dependency → Bool
is_required j k artifacts dependencies =
    any
      (λ (d : Dependency).
        k == d.consumes
        && any (λ (a : ArtifactSpec). a.artifact_id == j && a.produced_by == d.consumer) artifacts)
      dependencies

-- One or more such steps.
pub data Requires (c : InterfaceContract) : String → String → Type 0 where
  direct : (j k : String) → is_required j k c.artifacts c.dependencies ≡ true → Requires c j k
  through :
      (i j k : String)
      → is_required i j c.artifacts c.dependencies ≡ true
      → Requires c j k
      → Requires c i k

contains-targets_append :
    (k j : String) (es fs : List (String × String))
    → contains k (targets j (es ++ fs)) ≡ (contains k (targets j es) || contains k (targets j fs))
unfolding contains
contains-targets_append k j [] fs = refl
contains-targets_append k j (e ∷ es) fs = ground (arith, contains-targets_append k j es fs)

-- The edges of one dependency.
contains-targets_one :
    (k j agent x : String) (artifacts : List ArtifactSpec)
    → contains k (
        targets j (
          map
            (λ (a : ArtifactSpec). (a.artifact_id, x))
            (filter (λ (a : ArtifactSpec). a.produced_by == agent) artifacts)))
      ≡ (k == x
          && any (λ (a : ArtifactSpec). a.artifact_id == j && a.produced_by == agent) artifacts)
unfolding contains
contains-targets_one k j agent x [] = ground arith
contains-targets_one k j agent x (a ∷ artifacts) =
    ground (arith, contains-targets_one k j agent x artifacts)

pub contains-targets :
    (c : InterfaceContract) (k j : String) (ds : List Dependency)
    → contains k (targets j (edges_of c ds)) ≡ is_required j k c.artifacts ds
contains-targets c k j [] = unfold contains in refl
contains-targets c k j (d ∷ ds) = ground (
  arith,
  contains-targets_append k j
      (map (λ (a : ArtifactSpec). (a.artifact_id, d.consumes)) (produced_by c d.consumer))
      (edges_of c ds),
  contains-targets_one k j d.consumer d.consumes c.artifacts,
  contains-targets c k j ds,
)

module _ (c : InterfaceContract) where
  abbrev pub Edge : String → String → Type 0
  Edge j k = Link (graph c).find (graph c).nexts j k

  abbrev pub Below : String → String → Type 0
  Below j k = Leads (graph c).find (graph c).nexts j k

  pub Edge-is_required :
      (j k : String) → Edge j k → is_required j k c.artifacts c.dependencies ≡ true
  Edge-is_required j k (i, same, there) =
      let e : i ≡ j = ground arith in
      subst (λ j. is_required j k c.artifacts c.dependencies ≡ true) e
        (sym (contains-targets c k i c.dependencies) ∙ there)

  is_required-Edge : (j k : String) → is_required j k c.artifacts c.dependencies ≡ true → Edge j k
  is_required-Edge j k h = (j, refl, contains-targets c k j c.dependencies ∙ h)

  pub Below-Requires : {j k : String} → Below j k → Requires c j k
  Below-Requires (one j k e) = direct j k (Edge-is_required j k e)
  Below-Requires (more i j k e b) = through i j k (Edge-is_required i j e) (Below-Requires b)

  pub Requires-Below : {j k : String} → Requires c j k → Below j k
  Requires-Below (direct j k h) = one j k (is_required-Edge j k h)
  Requires-Below (through i j k h r) = more i j k (is_required-Edge i j h) (Requires-Below r)
