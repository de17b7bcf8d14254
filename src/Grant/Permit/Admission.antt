-- ===== src/Grant/Permit/Admission.antt =====
-- When a permit of src/v2/grant.rs admits a session.
use hacp.Common.{
  String, ◌≡◌, refl, sym, ◌∙◌, ap, subst, ◌⊎◌, inl, inr, true, false, ◌&&◌, some, arith, is_ok,
  Bool-cases, Option-cases, ok, ◌==◌, eq_iff, eq_refl, str_lt, str_is_empty,
}
use hacp.Canon.{Crates}
use hacp.Grant.Record.{check_timestamp}
use hacp.Grant.Org.{OrgChart, lca}
use hacp.Grant.Org
use hacp.Grant.Org.Lca.{lca_comm}
use hacp.Grant.Ledger.{GrantLedger, is_open}
use hacp.Grant.Permit.{
  CollaborationRequest, CollaborationPermit, PermitBasis, by_supervisor, by_grant, check_request,
  by_lca, authorizes, check_basis, holds_grant, authorize_session,
}

module _ (crates : Crates) (p : CollaborationPermit) (org : OrgChart) (l : GrantLedger) where
  authorizes_comm :
      (a b at : String) → is_ok (authorizes crates p a b at) ≡ is_ok (authorizes crates p b a at)
  unfolding authorizes
  authorizes_comm a b at = ground arith

  check_basis_comm :
      (a b task_class at : String) (basis : PermitBasis)
      → is_ok (check_basis crates p org l a b task_class at basis)
        ≡ is_ok (check_basis crates p org l b a task_class at basis)
  check_basis_comm a b task_class at (by_supervisor s) = ground (arith, lca_comm org a b)
  check_basis_comm a b task_class at (by_grant id) = refl

  -- Whether a permit admits a session does not depend on the order in which the two agents are given.
  pub authorize_session_comm :
      (a b task_class at : String)
      → is_ok (authorize_session crates p org l a b task_class at)
        ≡ is_ok (authorize_session crates p org l b a task_class at)
  unfolding authorize_session
  authorize_session_comm a b task_class at =
      ground (arith, authorizes_comm a b at, check_basis_comm a b task_class at p.basis)

  passed :
      (a b task_class at : String)
      → authorize_session crates p org l a b task_class at ≡ ok tt
      → (authorizes crates p a b at ≡ ok tt)
        × ((p.task_class == task_class) ≡ true)
        × (check_basis crates p org l a b task_class at p.basis ≡ ok tt)
  unfolding authorize_session
  passed a b task_class at h = (ground arith, ground arith, ground arith)

  authorized_pair :
      (a b at : String)
      → authorizes crates p a b at ≡ ok tt
      → (str_lt p.expires at ≡ false)
        × (((a ≡ p.requester) × (b ≡ p.peer)) ⊎ ((a ≡ p.peer) × (b ≡ p.requester)))
  unfolding authorizes
  authorized_pair a b at h = (
    ground arith,
    elim (Bool-cases (a == p.requester && b == p.peer)) [
      | inl straight ↦ inl (ground (arith, eq_iff a p.requester), ground (arith, eq_iff b p.peer))
      | inr other ↦
          let crossed : (a == p.peer && b == p.requester) ≡ true = ground arith in
          inr (ground (arith, eq_iff a p.peer), ground (arith, eq_iff b p.requester))
    ],
  )

  supervised :
      (a b task_class at supervisor : String)
      → check_basis crates p org l a b task_class at (by_supervisor supervisor) ≡ ok tt
      → (p.issued_by ≡ supervisor) × (lca org a b ≡ some supervisor)
  supervised a b task_class at supervisor h = (
    ground (arith, eq_iff p.issued_by supervisor),
    elim (Option-cases (lca org a b)) [
      | inl absent ↦ absurd (ground arith)
      | inr (found, e) ↦ ground (arith, eq_iff found supervisor)
    ],
  )

  granted :
      (a b task_class at grant_id : String)
      → check_basis crates p org l a b task_class at (by_grant grant_id) ≡ ok tt
      → (p.issued_by ≡ p.requester)
        × (is_open crates l grant_id at ≡ ok true)
        × (holds_grant crates l p.requester grant_id task_class at ≡ true)
  granted a b task_class at grant_id h =
      (ground (arith, eq_iff p.issued_by p.requester), ground arith, ground arith)

  -- A permit admits a session only until it expires, only for its own pair and task class; on a
  -- grant's basis only while the grant is open, held by the requester with the scope of the task
  -- class, and issued by the requester; on a supervisor's basis only while the chart's lowest common
  -- supervisor of the two is the issuer.
  pub authorize_session_grounds :
      (a b task_class at : String)
      → authorize_session crates p org l a b task_class at ≡ ok tt
      → (str_lt p.expires at ≡ false)
        × (p.task_class ≡ task_class)
        × ((((a ≡ p.requester) × (b ≡ p.peer)) ⊎ ((a ≡ p.peer) × (b ≡ p.requester))))
        × ((supervisor : String)
            → p.basis ≡ by_supervisor supervisor
            → (p.issued_by ≡ supervisor) × (lca org a b ≡ some supervisor))
        × ((grant_id : String)
            → p.basis ≡ by_grant grant_id
            → (p.issued_by ≡ p.requester)
              × (is_open crates l grant_id at ≡ ok true)
              × (holds_grant crates l p.requester grant_id task_class at ≡ true))
  authorize_session_grounds a b task_class at h =
      let (pair, class, basis) = passed a b task_class at h in
      let (in_time, which) = authorized_pair a b at pair in
      (
        in_time,
        (eq_iff p.task_class task_class).0 class,
        which,
        λ supervisor e.
            supervised a b task_class at supervisor
              (ap (check_basis crates p org l a b task_class at) (sym e) ∙ basis),
        λ grant_id e.
            granted a b task_class at grant_id
              (ap (check_basis crates p org l a b task_class at) (sym e) ∙ basis),
      )

abbrev ruling : String → CollaborationRequest → String → CollaborationPermit
ruling permit_id request issuer = record {
  permit_id = permit_id;
  request_id = request.request_id;
  task_class = request.task_class;
  requester = request.requester;
  peer = request.peer;
  issued_by = issuer;
  basis = by_supervisor issuer;
  expires = request.expires;
}

request_checked :
    (crates : Crates) (request : CollaborationRequest)
    → check_request crates request ≡ ok tt
    → (check_timestamp crates request.expires ≡ ok tt) × (str_is_empty request.task_class ≡ false)
unfolding check_request
request_checked crates request h = (ground arith, ground arith)

by_lca_made :
    (crates : Crates) (permit_id : String) (org : OrgChart) (request : CollaborationRequest)
    (issuer : String) (p : CollaborationPermit)
    → by_lca crates permit_id org request issuer ≡ ok p
    → (check_request crates request ≡ ok tt)
      × (Org.validate org ≡ ok tt)
      × (lca org request.requester request.peer ≡ some issuer)
      × (ruling permit_id request issuer ≡ p)
unfolding by_lca
by_lca_made crates permit_id org request issuer p h =
    elim (Option-cases (lca org request.requester request.peer)) [
      | inl absent ↦ absurd (ground arith)
      | inr (supervisor, found) ↦
          let same : issuer ≡ supervisor = ground (arith, eq_iff issuer supervisor) in
          (ground arith, ground arith, found ∙ ap some (sym same), ground arith)
    ]

admits_ruled :
    (crates : Crates) (permit_id : String) (org : OrgChart) (l : GrantLedger)
    (request : CollaborationRequest) (issuer at : String)
    → check_timestamp crates at ≡ ok tt
    → str_lt request.expires at ≡ false
    → Org.validate org ≡ ok tt
    → lca org request.requester request.peer ≡ some issuer
    → check_timestamp crates request.expires ≡ ok tt
    → str_is_empty request.task_class ≡ false
    → is_ok (
        authorize_session crates
          (ruling permit_id request issuer)
          org
          l
          request.requester
          request.peer
          request.task_class
          at)
      ≡ true
unfolding authorize_session authorizes
admits_ruled crates permit_id org l request issuer at stamp soon valid ruled expiry class = ground (
  arith,
  eq_refl request.requester,
  eq_refl request.peer,
  eq_refl request.task_class,
  eq_refl issuer,
)

-- A permit that the lowest common supervisor issued admits a session of its pair, in either order,
-- for the task class of the request, at every valid time until the request expires.
pub by_lca_admits :
    (crates : Crates) (permit_id : String) (org : OrgChart) (l : GrantLedger)
    (request : CollaborationRequest) (issuer at : String) (p : CollaborationPermit)
    → by_lca crates permit_id org request issuer ≡ ok p
    → check_timestamp crates at ≡ ok tt
    → str_lt request.expires at ≡ false
    → (is_ok (authorize_session crates p org l request.requester request.peer request.task_class at)
        ≡ true)
      × (is_ok
            (authorize_session crates p org l request.peer request.requester request.task_class at)
          ≡ true)
by_lca_admits crates permit_id org l request issuer at p h stamp soon =
    let (checked, valid, ruled, same) = by_lca_made crates permit_id org request issuer p h in
    let (expiry, class) = request_checked crates request checked in
    let straight =
      admits_ruled crates permit_id org l request issuer at stamp soon valid ruled expiry class in
    let both =
      subst
        (λ x.
          is_ok
            (authorize_session crates x org l request.requester request.peer request.task_class at)
          ≡ true)
        same straight in
    (
      both,
      sym (
            authorize_session_comm crates p org l request.requester request.peer request.task_class
              at)
          ∙ both,
    )
