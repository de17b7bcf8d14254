-- ===== src/Agent/Examples.antt =====
-- An agent of src/v2/agent.rs with capabilities, and the theorems at it.
use hacp.Common.{◌≡◌, refl, [], ◌∷◌, ok, err, contains, set_insert, chars, chars_all, strip_prefix}
use hacp.Envelope.Urn
use hacp.Agent.{
  Agent, delegation, supervision, bad_capability, validate_capability, new, with_capabilities,
  add_capabilities, declares, with_capabilities-declares,
}

-- What a test by `refl` has to unfold.
agents : Unit {0}
unfolding validate_capability new with_capabilities add_capabilities declares contains set_insert
    chars chars_all strip_prefix Urn.parse
agents = tt

abbrev made : Agent
made = record { id = "urn:hacp:agent:ann"; capabilities = delegation ∷ supervision ∷ [] }

versioned : validate_capability "hive-recursive-pairwise/1" ≡ ok tt
unfolding agents
versioned = refl

two_slashes : validate_capability "a/b/c" ≡ err (bad_capability "a/b/c")
unfolding agents
two_slashes = refl

with_capabilities-declares_example :
    declares made supervision ≡ contains supervision (supervision ∷ delegation ∷ [])
unfolding agents
with_capabilities-declares_example =
    with_capabilities-declares "urn:hacp:agent:ann" (supervision ∷ delegation ∷ []) made supervision
      refl
