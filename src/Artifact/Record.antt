-- ===== src/Artifact/Record.antt =====
-- The artifact record of src/v2/artifact.rs, its checks, and who may see it. A message built by
-- `to_string` is kept as the error that it prints.
use Prim.Native.String.{len}
use hacp.Common.{
  ℕ, String, Bool, false, not, ◌&&◌, ◌||◌, List, [], ◌∷◌, ◌++◌, leb, eqb, length, get_or, Result,
  ok, ◌>>=◌, ◌>>◌, fail_if, ok_or, map_err, strip_prefix, as_bytes, chars, filter_chars, chars_all,
  split, is_lower_hex, str_is_empty,
}
use hacp.Envelope.Urn
use hacp.Envelope.Urn.{UrnError}
use hacp.Artifact.Shape.{is_digest_shape}

pub data Visibility : Type 0 where
  participants : Visibility
  supervisors : Visibility
  session_observers : Visibility
  deployment : Visibility

pub data Audience : Type 0 where
  participant : Audience
  supervisor : Audience
  session_observer : Audience
  whole_deployment : Audience

pub record Artifact : Type 0 where
  pub artifact_id : String
  pub media_type : String
  pub digest : String
  pub size : ℕ
  pub producer : String
  pub task_id : String
  pub contract_id : String
  pub contract_revision : String
  pub derived_from : List String
  pub location : String
  pub visibility : Visibility

pub data ArtifactError : Type 0 where
  bad_id : (found : String) → ArtifactError
  bad_digest : (found : String) → ArtifactError
  bad_revision : (found : String) → ArtifactError
  bad_media_type : (found : String) → ArtifactError
  bad_producer : UrnError → ArtifactError
  bad_derived_from : ArtifactError → ArtifactError
  cycle : String → ArtifactError
  unknown_artifact : String → ArtifactError
  bad_location : ArtifactError
  -- No error of the code: the fuel of the model ran out.
  diverges : ArtifactError

-- `level`, of a visibility and of an audience.
abbrev pub level : Visibility → ℕ
level participants = 0
level supervisors = 1
level session_observers = 2
level deployment = 3

abbrev pub audience_level : Audience → ℕ
audience_level participant = 0
audience_level supervisor = 1
audience_level session_observer = 2
audience_level whole_deployment = 3

abbrev is_variant : ℕ → Bool
is_variant c = eqb c b'8' || eqb c b'9' || eqb c b'a' || eqb c b'b'

unfoldable pub validate_artifact_id : String → Result ArtifactError Unit
unfolding strip_prefix as_bytes chars filter_chars chars_all
validate_artifact_id id = do
  rest ← ok_or (strip_prefix "urn:hacp:artifact:" id) (bad_id id)
  let bytes = as_bytes rest
  let dash = λ (i : ℕ). eqb (get_or bytes i 0) b'-'
  fail_if
      (not (eqb (length bytes) 36)
        || not (dash 8)
        || not (dash 13)
        || not (dash 18)
        || not (dash 23))
      (bad_id id)
  let hex = filter_chars (λ c. not (eqb c b'-')) rest
  fail_if (not (eqb (len hex) 32) || not (chars_all is_lower_hex hex)) (bad_id id)
  let nibbles = chars hex
  fail_if (not (eqb (get_or nibbles 12 0) b'4') || not (is_variant (get_or nibbles 16 0)))
      (bad_id id)

-- The `match` on the first three parts: a type and a subtype, neither empty, and no third part.
abbrev is_media_type : List String → Bool
is_media_type (t ∷ s ∷ []) = not (str_is_empty t) && not (str_is_empty s)
is_media_type _ = false

-- `for parent in &self.derived_from`.
abbrev pub validate_parents : List String → Result ArtifactError Unit
validate_parents [] = ok tt
validate_parents (p ∷ ps) = map_err bad_derived_from (validate_artifact_id p) >> validate_parents ps

unfoldable pub validate : Artifact → Result ArtifactError Unit
unfolding validate_artifact_id split
validate a = do
  validate_artifact_id a.artifact_id
  fail_if (not (is_digest_shape a.contract_revision)) (bad_revision a.contract_revision)
  fail_if (not (is_digest_shape a.digest)) (bad_digest a.digest)
  fail_if (not (is_media_type (split b'/' a.media_type))) (bad_media_type a.media_type)
  map_err bad_producer (Urn.parse a.producer)
  validate_parents a.derived_from
  fail_if (str_is_empty a.location) bad_location

-- `Artifact::new`.
unfoldable pub new :
    (artifact_id media_type digest : String) (size : ℕ)
    (producer task_id contract_id contract_revision location : String)
    → Result ArtifactError Artifact
unfolding validate
new artifact_id media_type digest size producer task_id contract_id contract_revision location = do
  let artifact : Artifact = record {
    artifact_id = artifact_id;
    media_type = media_type;
    digest = digest;
    size = size;
    producer = producer;
    task_id = task_id;
    contract_id = contract_id;
    contract_revision = contract_revision;
    derived_from = [];
    location = location;
    visibility = participants;
  }
  validate artifact
  ok artifact

unfoldable pub visible_to : Artifact → Audience → Bool
visible_to a viewer = leb (audience_level viewer) (level a.visibility)

-- `derive`, which changes the child.
unfoldable pub derive : Artifact → Artifact → Artifact
derive a child = record child { derived_from = child.derived_from ++ a.artifact_id ∷ [] }
