-- ===== src/Contract/Formation.antt =====
-- `propose` of src/v2/contract.rs: which contracts a session may form.
use hacp.Common.{
  String, Bool, true, false, not, ◌&&◌, ◌||◌, Option, none, some, List, [], ◌∷◌, if◌then◌else◌, ltb,
  is_some, is_empty, Result, ok, err, ◌>>=◌, ◌>>◌, fail_if, ok_or, map_err, reverse, ◌==◌,
}
use hacp.Envelope.Urn
use hacp.Session.{Session, is_active, is_participant}
use hacp.Canon.{Crates}
use hacp.Grant.Org.{OrgChart, checked_chain}
use hacp.Grant.Ledger.{GrantLedger, grant, is_open}
use hacp.Contract.Terms.{Relationship, collaboration, delegation, Task, ContractLimits, proposed}
use hacp.Contract.{
  ContractError, not_a_party, delegation_needs_escalation_path, delegation_needs_grant_id,
  missing_delegation_context, grant_not_open, grant_party_mismatch, bad_escalation_urn,
  bad_escalation_path, of_grant, bad_limits, inactive_session, panics, Contract,
}

abbrev pub is_delegation : Relationship → Bool
is_delegation delegation = true
is_delegation collaboration = false

-- The URN checks of the declared path.
check_urns : List String → Result ContractError Unit
check_urns [] = ok tt
check_urns (urn ∷ urns) = map_err (bad_escalation_urn urn) (Urn.parse urn) >> check_urns urns

-- The first participant that is not the performer.
abbrev pub delegator : Session → String → Option String
delegator s performer =
    if not (s.participants.0 == performer)
    then some s.participants.0
    else if not (s.participants.1 == performer)
    then some s.participants.1
    else none

abbrev pub same_path : List String → List String → Bool
same_path [] [] = true
same_path (a ∷ as_) (b ∷ bs) = a == b && same_path as_ bs
same_path _ _ = false

-- The contract that a proposal starts with.
abbrev pub proposal :
    Session → String → Task → Relationship → Option String → List String → ContractLimits → Contract
proposal s contract_id task relationship grant_id path limits = record {
  contract_id = contract_id;
  task = task;
  relationship = relationship;
  grant_id = grant_id;
  participants = s.participants;
  escalation_path = path;
  limits = limits;
  state = proposed;
  rounds = 0;
  amendments = 0;
  reworks = 0;
  agreed_by = [];
  agreed_terms_digest = none;
  last_counter_by = none;
  amendment_participants = [];
  revisions = [];
  pending_submission = none;
  pending_submitter = none;
  rework_scope = none;
}

record Context : Type 0 where
  org : OrgChart
  ledger : GrantLedger
  at : String

abbrev context : Option OrgChart → Option GrantLedger → Option String → Result ContractError Context
context (some o) (some l) (some t) = ok (record { org = o; ledger = l; at = t })
context _ _ _ = err missing_delegation_context

module _ (crates : Crates) where
  unfoldable pub check_delegation :
      Session
      → Task
      → Option String
      → OrgChart
      → GrantLedger
      → String
      → List String
      → Result ContractError Unit
  unfolding check_urns
  check_delegation s task grant_id org ledger at path = do
    id ← ok_or grant_id panics
    check_urns path
    g ← map_err of_grant (grant ledger id)
    open_now ← map_err of_grant (is_open crates ledger id at)
    fail_if (not open_now) (grant_not_open id at)
    from ← ok_or (delegator s task.owner) panics
    fail_if (not (g.grantee == task.owner) || not (g.grantor == from))
        (grant_party_mismatch id g.grantor g.grantee from task.owner)
    chain ← map_err of_grant (checked_chain org g.grantor)
    let expected = reverse chain
    fail_if (not (same_path path expected)) (bad_escalation_path expected path)

  abbrev pub check_relationship :
      Session
      → Task
      → Relationship
      → Option String
      → Option OrgChart
      → Option GrantLedger
      → Option String
      → List String
      → Result ContractError Unit
  check_relationship s task collaboration grant_id org ledger at path = ok tt
  check_relationship s task delegation grant_id org ledger at path =
      context org ledger at >>= λ c. check_delegation s task grant_id c.org c.ledger c.at path

  unfoldable pub propose :
      Session
      → String
      → Task
      → Relationship
      → Option String
      → Option OrgChart
      → Option GrantLedger
      → Option String
      → List String
      → ContractLimits
      → Result ContractError Contract
  unfolding check_delegation
  propose s contract_id task relationship grant_id org ledger at path limits = do
    fail_if (not (is_active s.state)) (inactive_session s.state)
    fail_if (ltb limits.max_rounds 1 || ltb limits.max_amendments 1) bad_limits
    fail_if (is_delegation relationship && is_empty path) delegation_needs_escalation_path
    fail_if (is_delegation relationship && not (is_some grant_id)) delegation_needs_grant_id
    fail_if (not (is_participant s task.owner)) (not_a_party task.owner contract_id)
    check_relationship s task relationship grant_id org ledger at path
    ok (proposal s contract_id task relationship grant_id path limits)
