-- ===== src/Artifact/Ancestry.antt =====
-- `ancestry` of src/v2/artifact.rs. Its walk from an artifact takes a parent that is the artifact itself
-- for a cycle.
use hacp.Common.{String, ◌==◌, List, Result, map_err}
use hacp.Walk
use hacp.Walk.{WalkError, exhausted}
use hacp.Walk.Search.{search}
use hacp.Artifact.Record.{Artifact, ArtifactError, cycle, unknown_artifact, diverges}

abbrev pub id_of : Artifact → String
id_of a = a.artifact_id

abbrev pub parents_of : Artifact → List String
parents_of a = a.derived_from

abbrev pub walk_error : WalkError → ArtifactError
walk_error (Walk.cycle id) = cycle id
walk_error (Walk.unknown id) = unknown_artifact id
walk_error exhausted = diverges

unfoldable pub ancestry : List Artifact → String → Result ArtifactError (List Artifact)
unfolding search
ancestry artifacts id = map_err walk_error (search id_of parents_of (λ k. k == id) artifacts id)
