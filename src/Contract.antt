-- ===== src/Contract.antt =====
-- `Contract` of src/v2/contract.rs: the bilateral contract engine. A method on `&mut self` answers the
-- next contract and its result. `crates` stands for the crates that digests are made with.
pub mod Terms
pub mod Formation
pub mod Ops
pub mod Digests
pub mod Parties
pub mod Bounds
pub mod Agreement
pub mod Reach
pub mod Consent
pub mod History
pub mod Verdicts
pub mod Submissions
mod Examples
use hacp.Common.{
  ℕ, ◌+◌, String, Bool, true, false, not, ◌&&◌, ◌||◌, Option, none, some, List, [], ◌∷◌, ◌++◌,
  if◌then◌else◌, ltb, leb, eqb, length, is_some, is_some_and, last, is_empty, Result, ok, err,
  ◌>>=◌, ◌>>◌, fail_if, ok_or, map_err, attempt, ◌==◌, contains, set_insert, saturating_add,
  add_u64, decimal,
}
use Terms.{
  Relationship, collaboration, delegation, Task, ContractLimits, ContractState, proposed, countered,
  agreed, executing, amending, verifying, settled, rejected, withdrawn, no_agreement, Revision,
  Submission, Verdict, accept, rework, reject,
}
use hacp.Envelope.Urn
use hacp.Envelope.Urn.{UrnError}
use hacp.Session.{Session, SessionState, is_active, is_participant}
use hacp.Canon.{Crates, CanonError, digest_of}
use hacp.Canon.Json.{Value, number, string, object, members}
use hacp.Grant.Record.{CapabilityGrant, GrantError}
use hacp.Grant.Org.{OrgChart, checked_chain}
use hacp.Grant.Ledger.{GrantLedger, grant, is_open}
use hacp.Verification.{Verification, VerificationError}
use hacp.Verification

-- What the text of `InvalidVerification` says.
pub data Invalid : Type 0 where
  refused : VerificationError → Invalid
  no_pending_submission : Invalid
  wrong_record : Invalid

pub data ContractError : Type 0 where
  not_a_party : (who contract : String) → ContractError
  illegal_transition : (action : String) (state : ContractState) → ContractError
  rounds_exhausted : (rounds max : ℕ) → ContractError
  amendments_exhausted : (amendments max : ℕ) → ContractError
  delegation_needs_escalation_path : ContractError
  delegation_needs_grant_id : ContractError
  missing_delegation_context : ContractError
  grant_not_open : (grant_id at : String) → ContractError
  grant_party_mismatch : (grant_id grantor grantee delegator performer : String) → ContractError
  bad_escalation_urn : (found : String) (reason : UrnError) → ContractError
  bad_escalation_path : (expected found : List String) → ContractError
  of_grant : GrantError → ContractError
  bad_limits : ContractError
  stale_revision : (found expected : String) → ContractError
  not_both_agreed : (missing : String) → ContractError
  not_canonical : CanonError → ContractError
  inactive_session : SessionState → ContractError
  terms_mismatch : ContractError
  repeated_counter : String → ContractError
  invalid_verification : Invalid → ContractError
  -- No error of the code: the panic of an `expect`.
  panics : ContractError

pub record Contract : Type 0 where
  pub contract_id : String
  pub task : Task
  pub relationship : Relationship
  pub grant_id : Option String
  pub participants : String × String
  pub escalation_path : List String
  pub limits : ContractLimits
  pub state : ContractState
  pub rounds : ℕ
  pub amendments : ℕ
  pub reworks : ℕ
  pub agreed_by : List String
  pub agreed_terms_digest : Option String
  pub last_counter_by : Option String
  pub amendment_participants : List String
  pub revisions : List Revision
  pub pending_submission : Option Submission
  pub pending_submitter : Option String
  pub rework_scope : Option String

abbrev pub Outcome : Type 0 → Type 0
Outcome A = Contract × Result ContractError A

abbrev pub same_text : Option String → Option String → Bool
same_text none none = true
same_text (some a) (some b) = a == b
same_text _ _ = false

-- `Proposed | Countered | Amending`.
abbrev pub takes_counters : ContractState → Bool
takes_counters proposed = true
takes_counters countered = true
takes_counters amending = true
takes_counters _ = false

-- `Proposed | Countered | Agreed`.
abbrev pub is_pre_freeze : ContractState → Bool
is_pre_freeze proposed = true
is_pre_freeze countered = true
is_pre_freeze agreed = true
is_pre_freeze _ = false

abbrev pub is_agreed : ContractState → Bool
is_agreed agreed = true
is_agreed _ = false

abbrev pub is_executing : ContractState → Bool
is_executing executing = true
is_executing _ = false

abbrev pub is_amending : ContractState → Bool
is_amending amending = true
is_amending _ = false

abbrev pub is_verifying : ContractState → Bool
is_verifying verifying = true
is_verifying _ = false

abbrev pub is_party : Contract → String → Bool
is_party c who = who == c.participants.0 || who == c.participants.1

abbrev pub authorize : Contract → String → Result ContractError Unit
authorize c who = if is_party c who then ok tt else err (not_a_party who c.contract_id)

-- Where a unilateral amendment ends is the current revision; all else ends without agreement.
abbrev pub exhausted : Contract → ContractState
exhausted c =
    if is_amending c.state && ltb (length c.amendment_participants) 2
    then executing
    else no_agreement

abbrev countered_by : Contract → String → Contract
countered_by c by = record c {
  last_counter_by = some by;
  amendment_participants =
      if is_amending c.state
      then set_insert by c.amendment_participants
      else c.amendment_participants;
  rounds = saturating_add c.rounds 1;
  agreed_by = [];
  agreed_terms_digest = none;
}

unfoldable pub counter : Contract → String → Outcome Unit
counter c by = attempt c (authorize c by) λ _.
    if not (takes_counters c.state)
    then (c, err (illegal_transition "counter" c.state))
    else if same_text c.last_counter_by (some by)
    then (c, err (repeated_counter by))
    else let d = countered_by c by in
      if leb d.limits.max_rounds d.rounds
      then (record d { state = exhausted d }, err (rounds_exhausted d.rounds d.limits.max_rounds))
      else (record d { state = if is_amending c.state then amending else countered }, ok tt)

abbrev pub frozen_digest : Contract → Option String
frozen_digest c = elim (last c.revisions) [ none ↦ none | some r ↦ some r.digest ]

unfoldable pub withdraw : Contract → String → Outcome Unit
withdraw c by = attempt c (authorize c by) λ _.
    if not (is_pre_freeze c.state)
    then (c, err (illegal_transition "withdraw" c.state))
    else (record c { state = withdrawn }, ok tt)

unfoldable pub expire_negotiation : Contract → Outcome Unit
expire_negotiation c =
    if not (is_pre_freeze c.state || is_amending c.state)
    then (c, err (illegal_transition "expire negotiation" c.state))
    else (record c { state = exhausted c }, ok tt)

-- `unwrap_or_default`.
abbrev pub or_empty : Option String → String
or_empty none = ""
or_empty (some s) = s

unfoldable pub submit : Contract → String → Submission → Outcome Unit
submit c by submission = attempt c (authorize c by) λ _.
    if not (is_executing c.state)
    then (c, err (illegal_transition "submit" c.state))
    else if not (submission.against_revision == or_empty (frozen_digest c))
    then (c, err (stale_revision submission.against_revision (or_empty (frozen_digest c))))
    else (
      record c {
        pending_submission = some submission;
        pending_submitter = some by;
        state = verifying;
      },
      ok tt,
    )

abbrev ruled : Contract → Verdict → Contract
ruled c accept = record c { pending_submission = none; rework_scope = none; state = settled }
ruled c (rework scope) =
    if leb c.limits.max_rework c.reworks
    then record c { pending_submission = none; rework_scope = some scope; state = rejected }
    else record c {
      pending_submission = none;
      reworks = saturating_add c.reworks 1;
      rework_scope = some scope;
      state = executing;
    }
ruled c reject = record c { pending_submission = none; rework_scope = none; state = rejected }

unfoldable pub decide : Contract → Verdict → Outcome Unit
decide c verdict =
    if not (is_verifying c.state)
    then (c, err (illegal_transition "apply a verdict" c.state))
    else (record (ruled c verdict) { pending_submitter = none }, ok tt)

abbrev subset : List String → List String → Bool
subset [] ys = true
subset (x ∷ xs) ys = contains x ys && subset xs ys

-- Equality of the two lists as `BTreeSet`s.
abbrev pub same_set : List String → List String → Bool
same_set xs ys = subset xs ys && subset ys xs

abbrev check_record : Contract → Verification → Submission → Result ContractError Unit
check_record c v pending =
    fail_if
      (not (is_some c.pending_submitter)
        || same_text c.pending_submitter (some v.verifier)
        || not (v.contract_id == c.contract_id)
        || not (v.against_revision == pending.against_revision)
        || not (same_set v.artifacts pending.artifacts))
      (invalid_verification wrong_record)

unfoldable pub apply_verification : Contract → Verification → Outcome Unit
unfolding Verification.validate decide
apply_verification c v =
    attempt c (map_err (λ e. invalid_verification (refused e)) (Verification.validate v)) λ _.
      attempt c (authorize c v.verifier) λ _.
        attempt c (ok_or c.pending_submission (invalid_verification no_pending_submission))
          λ pending. attempt c (check_record c v pending) λ _. decide c v.verdict

unfoldable pub propose_amendment : Contract → String → Outcome Unit
propose_amendment c by = attempt c (authorize c by) λ _.
    if not (is_executing c.state)
    then (c, err (illegal_transition "propose an amendment" c.state))
    else if leb c.limits.max_amendments c.amendments
    then (c, err (amendments_exhausted c.amendments c.limits.max_amendments))
    else (
      record c {
        state = amending;
        agreed_by = [];
        agreed_terms_digest = none;
        rounds = 0;
        last_counter_by = none;
        amendment_participants = set_insert by [];
      },
      ok tt,
    )

-- The first participant that has not agreed, or the empty text.
abbrev pub missing : Contract → String
missing c =
    if not (contains c.participants.0 c.agreed_by)
    then c.participants.0
    else if not (contains c.participants.1 c.agreed_by)
    then c.participants.1
    else ""

-- A snapshot with names but no terms has no agreement about any content.
abbrev pub acceptances : Contract → List String
acceptances c = if is_some c.agreed_terms_digest then c.agreed_by else []

module _ (crates : Crates) where
  unfoldable pub check_terms : Contract → Value → Result ContractError String
  check_terms c terms = do
    digest ← map_err not_canonical (digest_of crates terms)
    fail_if (is_some_and (λ accepted. not (accepted == digest)) c.agreed_terms_digest)
        terms_mismatch
    ok digest

  unfoldable pub agree : Contract → String → Value → Outcome Unit
  unfolding check_terms
  agree c by terms = attempt c (authorize c by) λ _.
      if not (is_pre_freeze c.state)
      then (c, err (illegal_transition "agree" c.state))
      else attempt c (check_terms c terms) λ digest.
        let names = set_insert by (acceptances c) in
        (
          record c {
            agreed_terms_digest = some digest;
            agreed_by = names;
            state = if eqb (length names) 2 then agreed else proposed;
          },
          ok tt,
        )

  unfoldable pub revision_digest : String → ℕ → Value → Result ContractError String
  revision_digest contract_id n terms = map_err not_canonical (
      digest_of crates (
        object (
          members (
            ("contract_id", string contract_id)
            ∷ ("revision", number (decimal n))
            ∷ ("content", terms)
            ∷ []))))

  -- `self.revisions.len() as u64 + 1`.
  abbrev pub next_number : Contract → ℕ
  next_number c = add_u64 (length c.revisions) 1

  abbrev frozen : Contract → Value → String → Contract
  frozen c terms digest = record c {
    revisions =
        c.revisions ++ (record { number = next_number c; content = terms; digest = digest } ∷ []);
    agreed_by = [];
    agreed_terms_digest = none;
    state = executing;
  }

  unfoldable pub freeze : Contract → Value → Outcome String
  unfolding check_terms revision_digest
  freeze c terms =
      if not (is_agreed c.state)
      then (c, err (illegal_transition "freeze" c.state))
      else if not (missing c == "")
      then (c, err (not_both_agreed (missing c)))
      else attempt c (check_terms c terms) λ content_digest.
        if not (same_text c.agreed_terms_digest (some content_digest))
        then (c, err terms_mismatch)
        else attempt c (revision_digest c.contract_id (next_number c) terms)
            λ digest. (frozen c terms digest, ok digest)

  abbrev amended : Contract → Value → Outcome (Option String)
  amended c terms =
      let d : Contract = record c { amendments = saturating_add c.amendments 1 } in
      attempt d (revision_digest d.contract_id (next_number d) terms)
        λ digest. (frozen d terms digest, ok (some digest))

  unfoldable pub decide_amendment :
      Contract → String → Bool → Option Value → Outcome (Option String)
  unfolding check_terms revision_digest
  decide_amendment c by accepts terms = attempt c (authorize c by) λ _.
      if not (is_amending c.state)
      then (c, err (illegal_transition "decide an amendment" c.state))
      else let d : Contract = record c {
        amendment_participants = set_insert by c.amendment_participants;
      } in
        if not accepts
        then (record d { state = executing; agreed_by = []; agreed_terms_digest = none }, ok none)
        else attempt d
            (ok_or terms (illegal_transition "accept an amendment without terms" d.state))
            λ content. attempt d (check_terms d content) λ content_digest.
              let names = set_insert by (acceptances d) in
              let e : Contract = record d {
                agreed_terms_digest = some content_digest;
                agreed_by = names;
              } in
              if ltb (length names) 2 then (e, ok none) else amended e content
