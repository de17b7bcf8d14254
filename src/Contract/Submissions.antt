-- ===== src/Contract/Submissions.antt =====
-- The pending submission and the frozen revisions that a contract of src/v2/contract.rs has in each
-- state.
use hacp.Common.{
  String, ◌≡◌, refl, ap, subst, ◌⊎◌, inl, inr, Bool, true, false, some, List, [], ◌∷◌, ◌++◌, arith,
  is_some, is_empty, Result-cases, ◌==◌, eq_iff,
}
use hacp.Canon.{Crates}
use hacp.Contract.Terms.{
  ContractState, executing, amending, verifying, settled, rejected, Revision, Submission,
}
use hacp.Contract.{Contract, is_verifying, is_party, frozen_digest, or_empty, freeze, next_number}
use hacp.Contract.Ops.{Call, submits, decides, freezes, answers, perform}
use hacp.Contract.Parties.{perform-parties}
use hacp.Contract.History.{perform-Appends}
use hacp.Contract.Reach.{Reaches, start, step, propose-IsFresh}

-- A revision was frozen and the contract is in use, or has had its verdict.
abbrev pub is_frozen : ContractState → Bool
is_frozen executing = true
is_frozen amending = true
is_frozen verifying = true
is_frozen settled = true
is_frozen rejected = true
is_frozen _ = false

pub record IsTracked (c : Contract) : Type 0 where
  pub pending : is_some c.pending_submission ≡ is_verifying c.state
  pub submitter : is_some c.pending_submitter ≡ is_verifying c.state
  pub insider : (who : String) → c.pending_submitter ≡ some who → is_party c who ≡ true
  pub current :
      (s : Submission)
      → c.pending_submission ≡ some s
      → s.against_revision ≡ or_empty (frozen_digest c)
  pub frozen : is_frozen c.state ≡ true → is_empty c.revisions ≡ false

is_empty-snoc : (rs : List Revision) (r : Revision) → is_empty (rs ++ (r ∷ [])) ≡ false
is_empty-snoc [] r = refl
is_empty-snoc (x ∷ rs) r = refl

module _ (crates : Crates) (c : Contract) (v : IsTracked c) where
  perform-pending :
      (k : Call)
      → is_some (perform crates c k).0.pending_submission
        ≡ is_verifying (perform crates c k).0.state
  unfolding perform
  perform-pending (decides x) = ground (arith, v.pending)
  perform-pending k = ground (arith, v.pending)

  perform-submitter :
      (k : Call)
      → is_some (perform crates c k).0.pending_submitter ≡ is_verifying (perform crates c k).0.state
  unfolding perform
  perform-submitter (decides x) = ground (arith, v.submitter)
  perform-submitter k = ground (arith, v.submitter)

  perform-insider :
      (k : Call) (who : String)
      → (perform crates c k).0.pending_submitter ≡ some who
      → is_party c who ≡ true
  unfolding perform
  perform-insider (submits by s) who h =
      let which : (c.pending_submitter ≡ some who) ⊎ ((by ≡ who) × (is_party c by ≡ true)) =
        ground arith in
      elim which [
        | inl old ↦ v.insider who old
        | inr (same, party) ↦ subst (λ x. is_party c x ≡ true) same party
      ]
  perform-insider k who h = ground (arith, v.insider who)

  perform-current :
      (k : Call) (s : Submission)
      → (perform crates c k).0.pending_submission ≡ some s
      → s.against_revision ≡ or_empty (frozen_digest (perform crates c k).0)
  unfolding perform
  perform-current (submits by given) s h =
      let which : (((perform crates c (submits by given)).0 ≡ c) × (c.pending_submission ≡ some s))
          ⊎ ((given ≡ s)
              × ((given.against_revision == or_empty (frozen_digest c)) ≡ true)
              × ((perform crates c (submits by given)).0.revisions ≡ c.revisions)) =
        ground arith in
      elim which [
        | inl (kept, old) ↦ ground (arith, v.current s, ap frozen_digest kept)
        | inr (same, answers_it, kept) ↦
            ground (arith, eq_iff given.against_revision (or_empty (frozen_digest c)))
      ]
  perform-current (freezes terms) s h =
      let waiting : is_verifying c.state ≡ true = ground (arith, v.pending) in
      ground (arith, v.current s)
  perform-current (answers by accepts terms) s h =
      let waiting : is_verifying c.state ≡ true = ground (arith, v.pending) in
      ground (arith, v.current s)
  perform-current k s h = ground (arith, v.current s)

  perform-frozen :
      (k : Call)
      → is_frozen (perform crates c k).0.state ≡ true
      → is_empty (perform crates c k).0.revisions ≡ false
  unfolding perform
  perform-frozen (freezes terms) h = elim (Result-cases (freeze crates c terms).1) [
    | inl (e, bad) ↦ ground (arith, v.frozen)
    | inr (digest, good) ↦ ground (
      arith,
      is_empty-snoc c.revisions
          (record { number = next_number crates c; content = terms; digest = digest }),
    )
  ]
  perform-frozen (answers by accepts terms) h =
      elim (perform-Appends crates c (answers by accepts terms)) [
        | inl same ↦ let was : is_frozen c.state ≡ true = ground arith in rw same (v.frozen was)
        | inr (r, added, _, _) ↦ rw added (is_empty-snoc c.revisions r)
      ]
  perform-frozen k h = ground (arith, v.frozen)

  perform-IsTracked : (k : Call) → IsTracked (perform crates c k).0
  perform-IsTracked k =
      let (same, _, _) = perform-parties crates c k in
      record {
        pending = perform-pending k;
        submitter = perform-submitter k;
        insider = λ who h. rw same (perform-insider k who h);
        current = perform-current k;
        frozen = perform-frozen k;
      }

-- After any calls since the proposal, a submission and a submitter are recorded exactly while the
-- contract is being verified; the submitter is a participant; the submission answers the current
-- frozen revision; and a contract that is executed, amended, verified, settled or rejected has one.
pub Reaches-IsTracked :
    (crates : Crates) (past : List Call) (c : Contract) → Reaches crates past c → IsTracked c
Reaches-IsTracked crates _ c (start s i task r g org l at p lim _ distinct word formed) =
    let (fresh, _, _) = propose-IsFresh crates s i task r g org l at p lim c formed in
    record {
      pending = ground (arith, fresh.no_submission, fresh.proposed_now);
      submitter = ground (arith, fresh.no_submitter, fresh.proposed_now);
      insider = λ who h. absurd (ground (arith, fresh.no_submitter));
      current = λ x h. absurd (ground (arith, fresh.no_submission));
      frozen = λ h. absurd (ground (arith, fresh.proposed_now));
    }
Reaches-IsTracked crates _ _ (step past c k reached) =
    perform-IsTracked crates c (Reaches-IsTracked crates past c reached) k
