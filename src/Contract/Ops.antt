-- ===== src/Contract/Ops.antt =====
-- The calls that change a contract of src/v2/contract.rs, as data, and a run of them.
use hacp.Common.{String, Bool, Option, List, [], ◌∷◌, ok, ◌>>◌}
use hacp.Canon.{Crates}
use hacp.Canon.Json.{Value}
use hacp.Contract.Terms.{Submission, Verdict}
use hacp.Verification.{Verification}
use hacp.Contract.{
  Contract, Outcome, counter, agree, freeze, withdraw, expire_negotiation, submit, decide,
  apply_verification, propose_amendment, decide_amendment,
}

pub data Call : Type 0 where
  counters : (by : String) → Call
  agrees : (by : String) (terms : Value) → Call
  freezes : (terms : Value) → Call
  withdraws : (by : String) → Call
  expires : Call
  submits : (by : String) (submission : Submission) → Call
  decides : (verdict : Verdict) → Call
  verifies : (v : Verification) → Call
  amends : (by : String) → Call
  answers : (by : String) (accepts : Bool) (terms : Option Value) → Call

-- The result without its value.
abbrev done : {A : Type 0} → Outcome A → Outcome Unit
done (c, r) = (c, r >> ok tt)

module _ (crates : Crates) where
  unfoldable pub perform : Contract → Call → Outcome Unit
  unfolding counter agree freeze withdraw expire_negotiation submit decide apply_verification
      propose_amendment decide_amendment
  perform c (counters by) = counter c by
  perform c (agrees by terms) = agree crates c by terms
  perform c (freezes terms) = done (freeze crates c terms)
  perform c (withdraws by) = withdraw c by
  perform c expires = expire_negotiation c
  perform c (submits by submission) = submit c by submission
  perform c (decides verdict) = decide c verdict
  perform c (verifies v) = apply_verification c v
  perform c (amends by) = propose_amendment c by
  perform c (answers by accepts terms) = done (decide_amendment crates c by accepts terms)

  unfoldable pub run : Contract → List Call → Contract
  unfolding perform
  run c [] = c
  run c (k ∷ ks) = run (perform c k).0 ks
