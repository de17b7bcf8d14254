-- ===== src/Verification.antt =====
-- src/v2/verification.rs: verdict records and what a verdict has to stand on.
mod Closure
mod Examples
use hacp.Common.{
  String, Bool, true, false, not, ◌&&◌, ◌||◌, List, any, is_empty, Result, ok, ◌>>◌, fail_if,
  map_err,
}
use hacp.Envelope.Urn
use hacp.Envelope.Urn.{UrnError}
use hacp.Artifact.Shape.{is_digest_shape, is_hex_id}
use hacp.Contract.Terms.{Verdict, accept}

pub record Check : Type 0 where
  pub name : String
  pub passed : Bool
  pub detail : String

pub record Verification : Type 0 where
  pub verification_id : String
  pub verifier : String
  pub contract_id : String
  pub against_revision : String
  pub artifacts : List String
  pub evidence : List String
  pub checks : List Check
  pub verdict : Verdict
  pub reasons : List String
  pub attests : List String

pub data VerificationError : Type 0 where
  bad_id : (found : String) → VerificationError
  bad_verifier : UrnError → VerificationError
  bad_revision : (found : String) → VerificationError
  signals_are_not_evidence : VerificationError
  failed_checks : VerificationError
  cycle : String → VerificationError
  unknown_verification : String → VerificationError
  -- No error of the code: the fuel of the model ran out.
  diverges : VerificationError

-- `matches!(self.verdict, Verdict::Accept)`.
abbrev pub is_accept : Verdict → Bool
is_accept accept = true
is_accept _ = false

unfoldable pub validate : Verification → Result VerificationError Unit
validate v = do
  fail_if (not (is_hex_id "v-" v.verification_id)) (bad_id v.verification_id)
  map_err bad_verifier (Urn.parse v.verifier)
  fail_if (not (is_digest_shape v.against_revision)) (bad_revision v.against_revision)
  fail_if
      (is_accept v.verdict
        && (is_empty v.artifacts || not (any (λ (c : Check). c.passed) v.checks)))
      signals_are_not_evidence
  fail_if (is_accept v.verdict && any (λ (c : Check). not c.passed) v.checks) failed_checks

-- `Verification::decide`: the record, where it is valid.
unfoldable pub decide : Verification → Result VerificationError Verification
unfolding validate
decide v = do validate v; ok v
