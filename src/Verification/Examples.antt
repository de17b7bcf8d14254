-- ===== src/Verification/Examples.antt =====
-- Verdict records of src/v2/verification.rs that attest one another, and the theorems at them.
use hacp.Common.{String, ◌≡◌, ◌↔◌, refl, true, List, [], ◌∷◌, err, lookup, insert, contains}
use hacp.Walk.{visit}
use hacp.Walk.Order.{listed, resolved}
use hacp.Walk.Search.{search}
use hacp.Contract.Terms.{accept}
use hacp.Verification.{Verification, cycle}
use hacp.Verification.Closure.{
  id_of, attested_by, attestation_closure, StandsOn, attestation_closure_finds,
  attestation_closure_fails,
}

-- What a test by `refl` has to unfold.
closure : Unit {0}
unfolding visit search attestation_closure contains lookup insert
closure = tt

abbrev record_of : String → List String → Verification
record_of id attests = record {
  verification_id = id;
  verifier = "urn:hacp:agent:vic";
  contract_id = "c-1";
  against_revision = "r";
  artifacts = "a" ∷ [];
  evidence = [];
  checks = [];
  verdict = accept;
  reasons = [];
  attests = attests;
}

abbrev tree : List Verification
tree = record_of "v-1" ("v-2" ∷ "v-3" ∷ []) ∷ record_of "v-2" ("v-3" ∷ []) ∷ record_of "v-3" [] ∷ []

abbrev ring : List Verification
ring = record_of "v-1" ("v-2" ∷ []) ∷ record_of "v-2" ("v-1" ∷ []) ∷ []

-- Without a check of the first id, its own cycle is met one step later.
finds_own_cycle : attestation_closure ring "v-1" ≡ err (cycle "v-2")
unfolding closure
finds_own_cycle = refl

attestation_closure_finds_example :
    (resolved id_of attested_by [] (record_of "v-3" [] ∷ record_of "v-2" ("v-3" ∷ []) ∷ []) ≡ true)
    × ((k : String)
        → (listed id_of k (record_of "v-3" [] ∷ record_of "v-2" ("v-3" ∷ []) ∷ []) ≡ true)
          ↔ StandsOn tree "v-1" k)
    × ((k : String) → StandsOn tree "v-1" k → ¬ StandsOn tree k k)
unfolding closure
attestation_closure_finds_example =
    attestation_closure_finds tree "v-1" (record_of "v-3" [] ∷ record_of "v-2" ("v-3" ∷ []) ∷ [])
      refl

attestation_closure_fails_example : StandsOn ring "v-1" "v-2" × StandsOn ring "v-2" "v-2"
unfolding closure
attestation_closure_fails_example = attestation_closure_fails ring "v-1" (cycle "v-2") refl
