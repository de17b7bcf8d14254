-- ===== src/Contract/Reach.antt =====
-- The contracts of src/v2/contract.rs that can arise: one that a session proposes, and what calls
-- make of it.
use hacp.Common.{
  decimal, ℕ, ◌≤◌, ◌<◌, String, ◌≡◌, refl, ◌≢◌, Bool, true, false, Option, none, List, [], ◌∷◌,
  arith, Result, ok, err, u64_max, subst, ltb, ◌||◌, not, ◌&&◌, is_some, is_empty, fail_if, ◌>>◌,
}
use hacp.Session.{Session, is_active, is_participant}
use hacp.Canon.{Crates}
use hacp.Grant.Org.{OrgChart}
use hacp.Grant.Ledger.{GrantLedger}
use hacp.Contract.Terms.{Relationship, Task, ContractLimits, proposed}
use hacp.Contract.{
  Contract, ContractError, bad_limits, delegation_needs_escalation_path, delegation_needs_grant_id,
  inactive_session, not_a_party,
}
use hacp.Contract.Formation.{proposal, propose, is_delegation, check_relationship}
use hacp.Contract.Ops.{Call, perform}
use hacp.Contract.Bounds.{IsBounded, perform-IsBounded}

-- The contract, after the calls in the list, the last one first; refused calls count.
pub data Reaches (crates : Crates) : List Call → Contract → Type 0 where
  start :
      (s : Session) (contract_id : String) (task : Task) (relationship : Relationship)
      (grant_id : Option String) (org : Option OrgChart) (ledger : Option GrantLedger)
      (at : Option String) (path : List String) (limits : ContractLimits) (c : Contract)
      → s.participants.0 ≢ s.participants.1
      → limits.max_amendments ≤ u64_max
      → propose crates s contract_id task relationship grant_id org ledger at path limits ≡ ok c
      → Reaches crates [] c
  step :
      (past : List Call) (c : Contract) (k : Call)
      → Reaches crates past c
      → Reaches crates (k ∷ past) (perform crates c k).0

-- A contract as `propose` makes it.
pub record IsFresh (c : Contract) : Type 0 where
  pub proposed_now : c.state ≡ proposed
  pub no_rounds : c.rounds ≡ 0
  pub no_amendments : c.amendments ≡ 0
  pub no_reworks : c.reworks ≡ 0
  pub nobody : c.agreed_by ≡ []
  pub no_terms : c.agreed_terms_digest ≡ none
  pub no_revisions : c.revisions ≡ []
  pub no_submission : c.pending_submission ≡ none
  pub no_submitter : c.pending_submitter ≡ none
  pub some_round : 0 < c.limits.max_rounds

-- The checks of `propose`, in their order, have all passed.
checks_ok :
    (idle small pathless ungranted foreign : Bool) (e e' : ContractError)
    (r : Result ContractError Unit) (made c : Contract)
    → (do
      fail_if idle e
      fail_if small bad_limits
      fail_if pathless delegation_needs_escalation_path
      fail_if ungranted delegation_needs_grant_id
      fail_if foreign e'
      r
      ok made)
      ≡ ok c
    → (small ≡ false) × (made ≡ c)
checks_ok false false false false false e e' (ok u) made c h = (refl, cc h)
checks_ok false false false false false e e' (err x) made c h = absurd (cc h)
checks_ok true b b' b'' b''' e e' r made c h = absurd (cc h)
checks_ok false true b b' b'' e e' r made c h = absurd (cc h)
checks_ok false false true b b' e e' r made c h = absurd (cc h)
checks_ok false false false true b e e' r made c h = absurd (cc h)
checks_ok false false false false true e e' r made c h = absurd (cc h)

module _ (crates : Crates) (s : Session) (contract_id : String) (task : Task)
    (relationship : Relationship) (grant_id : Option String) (org : Option OrgChart)
    (ledger : Option GrantLedger) (at : Option String) (path : List String)
    (limits : ContractLimits) (c : Contract) where
  propose_ok :
      propose crates s contract_id task relationship grant_id org ledger at path limits ≡ ok c
      → ((ltb limits.max_rounds 1 || ltb limits.max_amendments 1) ≡ false)
        × (proposal s contract_id task relationship grant_id path limits ≡ c)
  unfolding propose
  propose_ok h =
      checks_ok (not (is_active s.state)) (ltb limits.max_rounds 1 || ltb limits.max_amendments 1)
        (is_delegation relationship && is_empty path)
        (is_delegation relationship && not (is_some grant_id)) (not (is_participant s task.owner))
        (inactive_session s.state) (not_a_party task.owner contract_id)
        (check_relationship crates s task relationship grant_id org ledger at path)
        (proposal s contract_id task relationship grant_id path limits) c h

  pub propose-IsFresh :
      propose crates s contract_id task relationship grant_id org ledger at path limits ≡ ok c
      → IsFresh c × (c.participants ≡ s.participants) × (c.limits ≡ limits)
  propose-IsFresh h =
      let (limits_hold, same) = propose_ok h in
      subst (λ x. IsFresh x × (x.participants ≡ s.participants) × (x.limits ≡ limits)) same
        (
          record {
            proposed_now = refl;
            no_rounds = refl;
            no_amendments = refl;
            no_reworks = refl;
            nobody = refl;
            no_terms = refl;
            no_revisions = refl;
            no_submission = refl;
            no_submitter = refl;
            some_round = ground arith;
          },
          refl,
          refl,
        )

-- Where serde_json takes no decimal text of a number for a float: after any calls since the proposal,
-- while terms are negotiated, fewer rounds are spent than the bound allows; the amendments stay
-- within their bound, and below it while one is negotiated; and the reworks stay within theirs.
pub Reaches-IsBounded :
    (crates : Crates) (past : List Call) (c : Contract)
    → ((n : ℕ) → crates.is_f64 (decimal n) ≡ false)
    → Reaches crates past c
    → IsBounded c
Reaches-IsBounded crates _ c plain (start s i task r g org l at p lim _ distinct word formed) =
    let (fresh, _, same) = propose-IsFresh crates s i task r g org l at p lim c formed in
    record {
      word = ground (arith, same);
      some_round = fresh.some_round;
      rounds = λ h. omega (arith, fresh.no_rounds, fresh.some_round);
      amendments = omega (arith, fresh.no_amendments);
      amending_below = λ h. absurd (ground (arith, fresh.proposed_now));
      reworks = omega (arith, fresh.no_reworks);
    }
Reaches-IsBounded crates _ _ plain (step past c k reached) =
    perform-IsBounded crates plain c k (Reaches-IsBounded crates past c plain reached)
