-- ===== src/Contract/Verdicts.antt =====
-- What settles or ends a contract of src/v2/contract.rs.
use hacp.Common.{
  ◌≡◌, ◌≢◌, inl, inr, Bool, true, false, not, some, arith, any, is_empty, is_some, is_ok,
  Option-cases, ok, eq_iff,
}
use hacp.Canon.{Crates}
use hacp.Contract.Terms.{
  ContractState, verifying, settled, rejected, withdrawn, no_agreement, Submission, accept,
}
use hacp.Verification
use hacp.Verification.{Verification, Check, is_accept}
use hacp.Contract.{Contract, apply_verification, is_party, same_set, same_text, check_record}
use hacp.Contract.Ops.{Call, decides, verifies, perform}

-- `Settled`, `Rejected`, `Withdrawn` and `NoAgreement`.
abbrev pub is_final : ContractState → Bool
is_final settled = true
is_final rejected = true
is_final withdrawn = true
is_final no_agreement = true
is_final _ = false

-- A settled, rejected or withdrawn contract, or one that ended without agreement, refuses every call
-- and stays as it is.
pub perform_final :
    (crates : Crates) (c : Contract) (k : Call)
    → is_final c.state ≡ true
    → ((perform crates c k).0 ≡ c) × ((perform crates c k).1 ≢ ok tt)
unfolding perform
perform_final crates c (verifies v) h = (ground arith, λ e. ground arith)
perform_final crates c (decides x) h = (ground arith, λ e. ground arith)
perform_final crates c k h = (ground arith, λ e. ground arith)

validate-accept :
    (v : Verification)
    → is_ok (Verification.validate v) ≡ true
    → v.verdict ≡ accept
    → (is_empty v.artifacts ≡ false)
      × (any (λ (k : Check). k.passed) v.checks ≡ true)
      × (any (λ (k : Check). not k.passed) v.checks ≡ false)
unfolding Verification.validate
validate-accept v h e = (ground arith, ground arith, ground arith)

record_of :
    (c : Contract) (v : Verification) (pending : Submission)
    → check_record c v pending ≡ ok tt
    → (is_some c.pending_submitter ≡ true)
      × (same_text c.pending_submitter (some v.verifier) ≡ false)
      × (v.contract_id ≡ c.contract_id)
      × (v.against_revision ≡ pending.against_revision)
      × (same_set v.artifacts pending.artifacts ≡ true)
record_of c v pending h = (
  ground arith,
  ground arith,
  ground (arith, eq_iff v.contract_id c.contract_id),
  ground (arith, eq_iff v.against_revision pending.against_revision),
  ground arith,
)

apply_verification_passed :
    (c : Contract) (v : Verification)
    → (apply_verification c v).1 ≡ ok tt
    → (is_ok (Verification.validate v) ≡ true)
      × (is_party c v.verifier ≡ true)
      × ((pending : Submission) × (c.pending_submission ≡ some pending)
          × (check_record c v pending ≡ ok tt)
          × (c.state ≡ verifying))
unfolding apply_verification
apply_verification_passed c v h = elim (Option-cases c.pending_submission) [
  | inl absent ↦ absurd (ground arith)
  | inr (pending, submitted) ↦
      (ground arith, ground arith, (pending, ground arith, ground arith, ground arith))
]

-- Where `apply_verification` succeeds, the verifier is a participant other than the recorded
-- submitter, the record is about this contract and the pending submission's revision and artifacts,
-- and if its verdict is to accept, then there is an artifact,
-- some check has passed and none has failed.
pub apply_verification_grounds :
    (c : Contract) (v : Verification)
    → (apply_verification c v).1 ≡ ok tt
    → (is_party c v.verifier ≡ true)
      × (c.pending_submitter ≢ some v.verifier)
      × (is_some c.pending_submitter ≡ true)
      × (v.contract_id ≡ c.contract_id)
      × (c.state ≡ verifying)
      × ((pending : Submission) × (c.pending_submission ≡ some pending)
          × (v.against_revision ≡ pending.against_revision)
          × (same_set v.artifacts pending.artifacts ≡ true))
      × (v.verdict ≡ accept
          → (is_empty v.artifacts ≡ false)
            × (any (λ (k : Check). k.passed) v.checks ≡ true)
            × (any (λ (k : Check). not k.passed) v.checks ≡ false))
apply_verification_grounds c v h =
    let (valid, party, (pending, submitted, checked, waiting)) = apply_verification_passed c v h in
    let (named, other, contract, revision, artifacts) = record_of c v pending checked in
    (
      party,
      λ e. ground (arith, eq_iff v.verifier v.verifier),
      named,
      contract,
      waiting,
      (pending, submitted, revision, artifacts),
      λ e. validate-accept v valid e,
    )
