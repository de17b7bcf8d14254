-- ===== src/Interface/Examples.antt =====
-- Contracts of src/contract.rs: three artifacts that can be built, and two that need each other.
use hacp.Common.{
  String, ◌≡◌, refl, ◌↔◌, none, some, List, [], ◌∷◌, ok, err, contains, lookup, insert, chars_all,
}
use hacp.Canon.Json.{null, string}
use hacp.Walk.{visit}
use hacp.Interface.{
  ArtifactSpec, Dependency, InterfaceContract, ContractError, rust_crate, json, bad_artifact,
  duplicate_artifact, unknown_dependency, dependency_cycle, is_blank, validate_artifact,
  validate_artifacts, check_acyclic, validate, consumed_by, consumers_of,
}
use hacp.Interface.Edges.{Requires}
use hacp.Interface.Buildable.{check_acyclic_iff}

-- What a test by `refl` has to unfold.
interfaces : Unit {0}
unfolding visit validate validate_artifact validate_artifacts check_acyclic is_blank chars_all
    consumed_by consumers_of contains lookup insert
interfaces = tt

abbrev made : (id producer : String) → ArtifactSpec
made id producer = record {
  artifact_id = id;
  produced_by = producer;
  path = "crates/parser";
  format = rust_crate;
  schema = none;
  interface_files = "src/lib.rs" ∷ [];
  symbols = [];
  examples = record { input = string "1"; output = string "one" } ∷ [];
  check = some record { kind = "command"; command = "cargo test" };
}

abbrev uses : (consumer consumes : String) → Dependency
uses consumer consumes = record { consumer = consumer; consumes = consumes }

abbrev plan : List Dependency → InterfaceContract
plan dependencies = record {
  contract_id = "c-1";
  version = 1;
  goal = "print numbers";
  artifacts = made "lexer" "ann" ∷ made "parser" "bob" ∷ made "printer" "cid" ∷ [];
  dependencies = dependencies;
  integration = some record { command = "cargo test" };
  workspace_rules = [];
}

abbrev chained : InterfaceContract
chained = plan (uses "bob" "lexer" ∷ uses "cid" "parser" ∷ uses "cid" "lexer" ∷ [])

abbrev looped : InterfaceContract
looped = plan (uses "bob" "lexer" ∷ uses "cid" "parser" ∷ uses "bob" "printer" ∷ [])

takes_chained : validate chained ≡ ok tt
unfolding interfaces
takes_chained = refl

refuses_looped : validate looped ≡ err (dependency_cycle "parser")
unfolding interfaces
refuses_looped = refl

refuses_unknown : validate (plan (uses "bob" "tokens" ∷ [])) ≡ err (unknown_dependency "tokens")
unfolding interfaces
refuses_unknown = refl

refuses_twice :
    validate (record chained { artifacts = made "lexer" "ann" ∷ made "lexer" "bob" ∷ [] })
    ≡ err (duplicate_artifact "lexer")
unfolding interfaces
refuses_twice = refl

needs_schema :
    validate_artifact (record (made "lexer" "ann") { format = json })
    ≡ err (bad_artifact "lexer" "format \"json\" requires a schema")
unfolding interfaces
needs_schema = refl

not_text :
    validate_artifact
      (record (made "lexer" "ann") { examples = record { input = string "1"; output = null } ∷ [] })
    ≡ err (bad_artifact "lexer" "examples must have string input and output in v1")
unfolding interfaces
not_text = refl

gets_both : consumed_by chained "cid" ≡ made "parser" "bob" ∷ made "lexer" "ann" ∷ []
unfolding interfaces
gets_both = refl

tells_both : consumers_of chained "lexer" ≡ "bob" ∷ "cid" ∷ []
unfolding interfaces
tells_both = refl

check_acyclic_iff_example :
    ((check_acyclic looped ≡ ok tt) ↔ ((k : String) → ¬ Requires looped k k))
    × ((e : ContractError)
        → check_acyclic looped ≡ err e
        → (k : String) × (e ≡ dependency_cycle k) × Requires looped k k)
check_acyclic_iff_example = check_acyclic_iff looped
