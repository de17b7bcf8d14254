-- ===== src/Interface.antt =====
-- src/contract.rs: the interface contract of HACP/1.1, its validation and the check for cycles. The
-- recursion of `walk` there is the walk of Walk.antt over the edges, in which no node is missing.

pub mod Edges
pub mod Buildable
pub mod Examples
use hacp.Common.{
  ℕ, zero, suc, ◌+◌, String, Bool, true, false, not, ◌&&◌, ◌||◌, Option, none, some, List, [], ◌∷◌,
  ◌++◌, map, length, any, all, filter, find, leb, eqb, Result, ok, err, ◌>>=◌, ◌>>◌, fail_if,
  map_err, is_some, ◌==◌, contains, chars_all, str_is_empty, if◌then◌else◌,
}
use hacp.Canon.{Crates, hex_lower}
use hacp.Canon.Json.{Value, string}
use hacp.Walk
use hacp.Walk.{Graph, WalkError, exhausted, walk, visit}

pub data ArtifactFormat : Type 0 where
  rust_crate : ArtifactFormat
  json : ArtifactFormat
  file : ArtifactFormat

pub record ExamplePair : Type 0 where
  pub input : Value
  pub output : Value

pub record ContractCheck : Type 0 where
  pub kind : String
  pub command : String

pub record ArtifactSpec : Type 0 where
  pub artifact_id : String
  pub produced_by : String
  pub path : String
  pub format : ArtifactFormat
  pub schema : Option Value
  pub interface_files : List String
  pub symbols : List String
  pub examples : List ExamplePair
  pub check : Option ContractCheck

pub record Dependency : Type 0 where
  pub consumer : String
  pub consumes : String

pub record IntegrationSpec : Type 0 where
  pub command : String

pub record InterfaceContract : Type 0 where
  pub contract_id : String
  pub version : ℕ
  pub goal : String
  pub artifacts : List ArtifactSpec
  pub dependencies : List Dependency
  pub integration : Option IntegrationSpec
  pub workspace_rules : List String

pub data ContractError : Type 0 where
  empty : (field : String) → ContractError
  duplicate_artifact : String → ContractError
  bad_artifact : (artifact detail : String) → ContractError
  unknown_dependency : String → ContractError
  dependency_cycle : String → ContractError
  -- No error of the code: the recursion of the model ended first.
  diverges : ContractError

abbrev pub artifact : InterfaceContract → String → Option ArtifactSpec
artifact c id = find (λ (a : ArtifactSpec). a.artifact_id == id) c.artifacts

abbrev pub produced_by : InterfaceContract → String → List ArtifactSpec
produced_by c agent_urn = filter (λ (a : ArtifactSpec). a.produced_by == agent_urn) c.artifacts

abbrev found_all : InterfaceContract → List Dependency → List ArtifactSpec
found_all c [] = []
found_all c (d ∷ ds) = elim (artifact c d.consumes) [
  | none ↦ found_all c ds
  | some a ↦ a ∷ found_all c ds
]

unfoldable pub consumed_by : InterfaceContract → String → List ArtifactSpec
consumed_by c agent_urn =
    found_all c (filter (λ (d : Dependency). d.consumer == agent_urn) c.dependencies)

unfoldable pub consumers_of : InterfaceContract → String → List String
consumers_of c artifact_id =
    map (λ (d : Dependency). d.consumer)
      (filter (λ (d : Dependency). d.consumes == artifact_id) c.dependencies)

-- `char::is_whitespace`.
abbrev pub is_whitespace : ℕ → Bool
is_whitespace c =
    (leb 9 c && leb c 13)
    || eqb c 32
    || eqb c 133
    || eqb c 160
    || eqb c 5760
    || (leb 8192 c && leb c 8202)
    || eqb c 8232
    || eqb c 8233
    || eqb c 8239
    || eqb c 8287
    || eqb c 12288

-- `trim().is_empty()`.
unfoldable pub is_blank : String → Bool
unfolding chars_all
is_blank s = chars_all is_whitespace s

abbrev pub is_string : Value → Bool
is_string (string text) = true
is_string _ = false

-- The match on the format and on whether there is a schema.
abbrev pub check_format : ArtifactSpec → ArtifactFormat → Bool → Result ContractError Unit
check_format a json false = err (bad_artifact a.artifact_id "format \"json\" requires a schema")
check_format a json true = ok tt
check_format a _ true = err (bad_artifact a.artifact_id "schema is only valid with format \"json\"")
check_format a _ false = ok tt

-- `ArtifactSpec::validate`.
unfoldable pub validate_artifact : ArtifactSpec → Result ContractError Unit
unfolding is_blank
validate_artifact a = do
  fail_if (str_is_empty a.artifact_id) (empty "artifact_id")
  fail_if (str_is_empty a.produced_by)
      (bad_artifact a.artifact_id "produced_by must name exactly one agent")
  fail_if (is_blank a.path) (bad_artifact a.artifact_id "path must not be empty")
  check_format a a.format (is_some a.schema)
  elim a.check [
    | none ↦ ok tt
    | some c ↦
        fail_if (is_blank c.command) (bad_artifact a.artifact_id "check.command must not be empty")
  ]
  fail_if (not (all (λ (e : ExamplePair). is_string e.input && is_string e.output) a.examples))
      (bad_artifact a.artifact_id "examples must have string input and output in v1")

-- The loop over the artifacts in `validate`.
unfoldable pub validate_artifacts : List String → List ArtifactSpec → Result ContractError Unit
unfolding contains validate_artifact
validate_artifacts seen [] = ok tt
validate_artifacts seen (a ∷ artifacts) = do
  fail_if (contains a.artifact_id seen) (duplicate_artifact a.artifact_id)
  validate_artifact a
  validate_artifacts (a.artifact_id ∷ seen) artifacts

-- The loop over the dependencies in `validate`.
abbrev pub validate_dependencies : InterfaceContract → List Dependency → Result ContractError Unit
validate_dependencies c [] = ok tt
validate_dependencies c (d ∷ ds) =
    fail_if (not (is_some (artifact c d.consumes))) (unknown_dependency d.consumes)
    >> validate_dependencies c ds

-- `edges`: the first artifact of a pair requires the second.
abbrev pub edges_of : InterfaceContract → List Dependency → List (String × String)
edges_of c [] = []
edges_of c (d ∷ ds) =
    map (λ (a : ArtifactSpec). (a.artifact_id, d.consumes)) (produced_by c d.consumer)
    ++ edges_of c ds

abbrev pub targets : String → List (String × String) → List String
targets node edges =
    map (λ (e : String × String). e.1) (filter (λ (e : String × String). e.0 == node) edges)

abbrev pub graph : InterfaceContract → Graph String
graph c = record {
  find = λ id. some id;
  nexts = λ id. targets id (edges_of c c.dependencies);
  refused = λ id. false;
}

abbrev pub ids : InterfaceContract → List String
ids c = map (λ (a : ArtifactSpec). a.artifact_id) c.artifacts

-- All names that the walk can meet.
abbrev pub nodes : InterfaceContract → List String
nodes c = ids c ++ map (λ (d : Dependency). d.consumes) c.dependencies

abbrev pub walk_error : WalkError → ContractError
walk_error (Walk.cycle id) = dependency_cycle id
walk_error (Walk.unknown id) = unknown_dependency id
walk_error exhausted = diverges

unfoldable pub check_acyclic : InterfaceContract → Result ContractError Unit
unfolding visit
check_acyclic c = do map_err walk_error (walk (graph c) (suc (length (nodes c))) (ids c)); ok tt

unfoldable pub validate : InterfaceContract → Result ContractError Unit
unfolding is_blank validate_artifacts check_acyclic
validate c = do
  fail_if (str_is_empty c.contract_id) (empty "contract_id")
  fail_if (is_blank c.goal) (empty "goal")
  validate_artifacts [] c.artifacts
  validate_dependencies c c.dependencies
  elim c.integration [
    | none ↦ ok tt
    | some i ↦ fail_if (is_blank i.command) (empty "integration.command")
  ]
  check_acyclic c
