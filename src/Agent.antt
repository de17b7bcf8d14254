-- ===== src/Agent.antt =====
-- src/v2/agent.rs: agents and the capabilities that they declare.
mod Examples
use Prim.Native.String.{len}
use hacp.Common.{
  ℕ, String, ◌≡◌, refl, Bool, true, false, not, ◌&&◌, ◌||◌, ltb, leb, eqb, List, [], ◌∷◌, Result,
  ok, err, ◌>>=◌, ◌>>◌, fail_if, map_err, chars, chars_all, count, last, is_some_and, get_or,
  is_ascii_lowercase, is_ascii_digit, contains, set_insert, contains-set_insert, ◌==◌, arith,
  Result-cases, inl, inr,
}
use hacp.Envelope.Urn
use hacp.Envelope.Urn.{UrnError}

-- `features`.
abbrev pub supervision : String
supervision = "supervision"

abbrev pub delegation : String
delegation = "delegation"

abbrev pub observer_events : String
observer_events = "observer-events"

abbrev pub artifact_digest : String
artifact_digest = "artifact-digest"

abbrev pub cross_branch : String
cross_branch = "cross-branch"

abbrev pub all_features : List String
all_features = supervision ∷ delegation ∷ observer_events ∷ artifact_digest ∷ cross_branch ∷ []

pub record Agent : Type 0 where
  pub id : String
  pub capabilities : List String

pub data AgentError : Type 0 where
  bad_id : UrnError → AgentError
  bad_capability : (found : String) → AgentError

-- `Agent::new`.
unfoldable pub new : String → Result AgentError Agent
new id = do map_err bad_id (Urn.parse id); ok (record { id = id; capabilities = [] })

abbrev is_capability_char : ℕ → Bool
is_capability_char c = is_ascii_lowercase c || is_ascii_digit c || eqb c b'-' || eqb c b'/'

unfoldable pub validate_capability : String → Result AgentError Unit
unfolding chars chars_all
validate_capability c = do
  let n = len c
  let slash_count = count (λ x. eqb x b'/') (chars c)
  let slash_placed_ok =
      not (eqb (get_or (chars c) 0 0) b'/') && not (is_some_and (λ x. eqb x b'/') (last (chars c)))
  fail_if
      (not (leb 1 n && leb n 32)
        || not (chars_all is_capability_char c)
        || ltb 1 slash_count
        || not slash_placed_ok)
      (bad_capability c)

-- The loop of `with_capabilities`.
unfoldable pub add_capabilities : Agent → List String → Result AgentError Agent
unfolding validate_capability set_insert
add_capabilities agent [] = ok agent
add_capabilities agent (c ∷ cs) = do
  validate_capability c
  add_capabilities (record agent { capabilities = set_insert c agent.capabilities }) cs

unfoldable pub with_capabilities : String → List String → Result AgentError Agent
unfolding new add_capabilities
with_capabilities id capabilities = do agent ← new id; add_capabilities agent capabilities

unfoldable pub declares : Agent → String → Bool
unfolding contains
declares agent capability = contains capability agent.capabilities

add_capabilities-declares :
    (agent made : Agent) (cs : List String) (c : String)
    → add_capabilities agent cs ≡ ok made
    → declares made c ≡ (contains c cs || declares agent c)
unfolding add_capabilities declares
add_capabilities-declares agent made [] c h = ground (arith, h)
add_capabilities-declares agent made (x ∷ cs) c h = elim (Result-cases (validate_capability x)) [
  | inl (e, bad) ↦ ground arith
  | inr (_, good) ↦
      let next : Agent = record agent { capabilities = set_insert x agent.capabilities } in
      let rest = add_capabilities-declares next made cs c (ground arith) in
      unfold contains in ground (arith, rest, contains-set_insert x c agent.capabilities)
]

-- The agent that `with_capabilities` returns declares the capabilities that it was given, and no others.
pub with_capabilities-declares :
    (id : String) (cs : List String) (made : Agent) (c : String)
    → with_capabilities id cs ≡ ok made
    → declares made c ≡ contains c cs
unfolding with_capabilities new
with_capabilities-declares id cs made c h = elim (Result-cases (Urn.parse id)) [
  | inl (e, bad) ↦ ground arith
  | inr (name, good) ↦
      let started : Agent = record { id = id; capabilities = [] } in
      let rest = add_capabilities-declares started made cs c (ground arith) in
      unfold declares contains in ground (arith, rest)
]
