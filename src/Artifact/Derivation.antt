-- ===== src/Artifact/Derivation.antt =====
-- What `derive` of src/v2/artifact.rs records, as `ancestry` reads it, and that it keeps artifacts valid.
use hacp.Common.{
  String, ◌≡◌, refl, ◌⊎◌, true, some, List, [], ◌∷◌, ◌++◌, ok, Result-cases, inl, inr, arith,
  contains,
}
use hacp.Artifact.Record.{Artifact, validate_artifact_id, validate_parents, validate, derive}
use hacp.Artifact.Provenance.{artifact_at, Derives}

validate_parents-push :
    (ps : List String) (p : String)
    → validate_parents ps ≡ ok tt
    → validate_artifact_id p ≡ ok tt
    → validate_parents (ps ++ p ∷ []) ≡ ok tt
validate_parents-push [] p h v = rw v refl
validate_parents-push (q ∷ ps) p h v = elim (Result-cases (validate_artifact_id q)) [
  | inl (e, bad) ↦ ground arith
  | inr (_, good) ↦ ground (arith, validate_parents-push ps p)
]

validate-id : (a : Artifact) → validate a ≡ ok tt → validate_artifact_id a.artifact_id ≡ ok tt
unfolding validate
validate-id a h = ground arith

-- Deriving from a valid artifact keeps a valid child valid.
derive-validate :
    (a child : Artifact)
    → validate a ≡ ok tt
    → validate child ≡ ok tt
    → validate (derive a child) ≡ ok tt
unfolding validate derive
derive-validate a child ha hc =
    ground (arith, validate-id a ha, validate_parents-push child.derived_from a.artifact_id)

-- What the derived child stands on: the artifact that it is derived from, and what it named before.
abbrev pub IsSource : (a child : Artifact) → String → Type 0
IsSource a child p = (p ≡ a.artifact_id) ⊎ (contains p child.derived_from ≡ true)

module _ (artifacts : List Artifact) (a child : Artifact)
    (held : artifact_at artifacts child.artifact_id ≡ some (derive a child)) where
  -- What the derived child derives from: its sources, and what they derive from.
  abbrev IsUpstream : String → Type 0
  IsUpstream k = (p : String) × IsSource a child p × ((k ≡ p) ⊎ Derives artifacts p k)
