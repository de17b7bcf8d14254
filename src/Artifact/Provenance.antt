-- ===== src/Artifact/Provenance.antt =====
-- What `ancestry` of src/v2/artifact.rs finds, when it fails, and that it ends.
use hacp.Common.{
  String, ◌==◌, ◌≡◌, ◌∙◌, ap, refl, ◌↔◌, ◌⊎◌, true, false, Option, none, List, [], ok, err, eq_iff,
  Result-cases, inl, inr, is_some, subst,
}
use hacp.Walk
use hacp.Walk.Search
use hacp.Walk.{WalkError, exhausted}
use hacp.Walk.Order.{listed, resolved}
use hacp.Walk.Steps.{Leads}
use hacp.Walk.Search.{find_id, search, search_finds, search_fails, search_succeeds}
use hacp.Artifact.Record.{Artifact, ArtifactError, cycle, unknown_artifact}
use hacp.Artifact.Ancestry.{id_of, parents_of, walk_error, ancestry}

module _ (artifacts : List Artifact) where
  -- The artifact of an id: the first that has it.
  abbrev pub artifact_at : String → Option Artifact
  artifact_at k = find_id id_of parents_of (λ _. false) artifacts k

  -- One or more steps of `derived_from` lead from one artifact to the other.
  abbrev pub Derives : String → String → Type 0
  Derives j k = Leads artifact_at parents_of j k

  ancestry-search :
      (id : String) (order : List Artifact)
      → ancestry artifacts id ≡ ok order
      → search id_of parents_of (λ k. k == id) artifacts id ≡ ok order
  unfolding ancestry
  ancestry-search id order h =
      elim (Result-cases (search id_of parents_of (λ k. k == id) artifacts id)) [
        | inl (e, bad) ↦ absurd (cc (h, bad))
        | inr (found, good) ↦ good ∙ ap ok (cc (h, good))
      ]

  -- Where `ancestry` answers, each artifact of the answer stands after all artifacts that it derives
  -- from and no id stands twice, the ids of the answer are those that the artifact derives from in one
  -- or more steps, and none of these derives from itself.
  pub ancestry_finds :
      (id : String) (order : List Artifact)
      → ancestry artifacts id ≡ ok order
      → (resolved id_of parents_of [] order ≡ true)
        × ((k : String) → (listed id_of k order ≡ true) ↔ Derives id k)
        × ((k : String) → Derives id k → ¬ Derives k k)
  ancestry_finds id order h =
      search_finds id_of parents_of (λ k. k == id) artifacts id order (ancestry-search id order h)

  -- What an error of `ancestry` says.
  abbrev pub Reason : String → ArtifactError → Type 0
  Reason id (cycle k) = Derives id k × Derives k k
  Reason id (unknown_artifact k) = ((k ≡ id) ⊎ Derives id k) × (artifact_at k ≡ none)
  Reason id _ = ⊥

  explained :
      (id : String) (e : WalkError)
      → Walk.Search.Reason id_of parents_of (λ k. k == id) artifacts id e
      → Reason id (walk_error e)
  explained id (Walk.cycle k) r = r
  explained id (Walk.unknown k) r = r
  explained id exhausted r = r

  -- Where `ancestry` fails, it reports a cycle at an id that the artifact derives from and that derives
  -- from itself, or an id without an artifact that the artifact derives from, or its own; so the walk
  -- always ends by itself.
  pub ancestry_fails :
      (id : String) (e : ArtifactError) → ancestry artifacts id ≡ err e → Reason id e
  unfolding ancestry
  ancestry_fails id e h =
      elim (Result-cases (search id_of parents_of (λ k. k == id) artifacts id)) [
        | inr (order, good) ↦ absurd (cc (h, good))
        | inl (f, bad) ↦
            let same : walk_error f ≡ e = cc (h, bad) in
            subst (Reason id) same (
              explained id f (
                search_fails id_of parents_of (λ k. k == id) artifacts id f
                  (λ k r. (eq_iff k id).0 r) bad))
      ]

  -- `ancestry` answers where every id that the artifact derives from, and its own, has an artifact, and
  -- none that it derives from derives from itself.
  pub ancestry_succeeds :
      (id : String)
      → ((k : String) → (k ≡ id) ⊎ Derives id k → is_some (artifact_at k) ≡ true)
      → ((k : String) → Derives id k → ¬ Derives k k)
      → (order : List Artifact) × (ancestry artifacts id ≡ ok order)
  unfolding ancestry
  ancestry_succeeds id there acyclic =
      let (order, good) =
        search_succeeds id_of parents_of (λ k. k == id) artifacts id (λ k r. (eq_iff k id).0 r)
          there acyclic in
      (order, rw good refl)
