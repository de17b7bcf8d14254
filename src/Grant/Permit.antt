-- ===== src/Grant/Permit.antt =====
-- `CollaborationRequest` and `CollaborationPermit` of src/v2/grant.rs: who may open a session across
-- branches. The id that `fresh_permit_id` draws at random is an argument.
pub mod Admission
pub mod Expiry
mod Examples
use hacp.Common.{
  ℕ, zero, suc, String, Bool, true, false, not, ◌&&◌, ◌||◌, Option, none, some, List, [], ◌∷◌,
  if◌then◌else◌, length, any, is_some_and, Result, ok, err, ◌>>=◌, ◌>>◌, fail_if, ok_or, map_err,
  ◌==◌, str_lt, str_is_empty, str_min, contains, lookup,
}
use hacp.Envelope.Urn
use hacp.Canon.{Crates}
use hacp.Grant.Record.{
  CapabilityGrant, GrantError, not_delegable, closed_grant, chain_mismatch, bad_urn, why, hex_id,
  check_timestamp,
}
use hacp.Grant.Org.{OrgChart, lca, chain}
use hacp.Grant.Org
use hacp.Grant.Ledger.{
  GrantLedger, walk_fuel, has_scope, cross_branch, held_by, is_open, preauthorizes,
  preauthorization_allows_peer,
}

pub record CollaborationRequest : Type 0 where
  pub request_id : String
  pub requester : String
  pub peer : String
  pub task_class : String
  pub expires : String

pub data PermitBasis : Type 0 where
  by_supervisor : (supervisor : String) → PermitBasis
  by_grant : (grant_id : String) → PermitBasis

pub record CollaborationPermit : Type 0 where
  pub permit_id : String
  pub request_id : String
  pub task_class : String
  pub requester : String
  pub peer : String
  pub issued_by : String
  pub basis : PermitBasis
  pub expires : String

pub data CrossBranchError : Type 0 where
  not_lca : (issuer a b : String) → CrossBranchError
  no_lca : (a b : String) → CrossBranchError
  no_preauthorization : (requester class : String) → CrossBranchError
  wrong_pair : (permit a b : String) → CrossBranchError
  expired : String → CrossBranchError
  of_grant : GrantError → CrossBranchError
  -- No error of the code: the panic of indexing the grants with an id that is not recorded.
  panics : CrossBranchError
  -- Nor this: the loop over the parents does not end.
  diverges : CrossBranchError

-- The loop that shortens the expiry to those of the grant and all above it.
unfoldable pub shortened :
    ℕ → GrantLedger → String → String → Option (Result CrossBranchError String)
shortened zero l expires id = none
shortened (suc fuel) l expires id = elim (lookup id l.grants) [
  | none ↦ some (err panics)
  | some g ↦ elim g.parent [
    | none ↦ some (ok (str_min expires g.valid_until))
    | some parent ↦ shortened fuel l (str_min expires g.valid_until) parent
  ]
]

abbrev pub or_diverges : Option (Result CrossBranchError String) → Result CrossBranchError String
or_diverges none = err diverges
or_diverges (some r) = r

-- `lca.as_deref() == Some(supervisor)`.
abbrev pub is_supervisor : Option String → String → Bool
is_supervisor none s = false
is_supervisor (some x) s = x == s

module _ (crates : Crates) where
  unfoldable pub check_request : CollaborationRequest → Result GrantError Unit
  check_request r = do
    hex_id "cr-" r.request_id
    map_err (λ e. bad_urn (why e)) (Urn.parse r.requester)
    map_err (λ e. bad_urn (why e)) (Urn.parse r.peer)
    fail_if (r.requester == r.peer || str_is_empty r.task_class)
        (not_delegable "distinct peers and a task class are required")
    check_timestamp crates r.expires

  unfoldable pub by_lca :
      String
      → OrgChart
      → CollaborationRequest
      → String
      → Result CrossBranchError CollaborationPermit
  unfolding check_request
  by_lca permit_id org request issuer = do
    map_err of_grant (Org.validate org)
    map_err of_grant (check_request request)
    supervisor ←
        ok_or (lca org request.requester request.peer) (no_lca request.requester request.peer)
    fail_if (not (issuer == supervisor)) (not_lca issuer request.requester request.peer)
    ok (record {
      permit_id = permit_id;
      request_id = request.request_id;
      task_class = request.task_class;
      requester = request.requester;
      peer = request.peer;
      issued_by = issuer;
      basis = by_supervisor supervisor;
      expires = request.expires;
    })

  unfoldable pub check_peer_branch :
      GrantLedger
      → OrgChart
      → CollaborationRequest
      → String
      → CapabilityGrant
      → Result CrossBranchError Unit
  check_peer_branch l org request grant_id g =
      if not (contains g.grantor (chain org request.peer))
      then err (of_grant (chain_mismatch g.grantor request.peer))
      else do
        allowed ←
            map_err of_grant
              (preauthorization_allows_peer l grant_id org request.requester request.peer)
        fail_if (not allowed) (of_grant (chain_mismatch g.grantor request.peer))

  unfoldable pub by_preauthorization :
      String
      → OrgChart
      → GrantLedger
      → CollaborationRequest
      → String
      → Result CrossBranchError CollaborationPermit
  unfolding check_request check_peer_branch shortened
  by_preauthorization permit_id org l request at = do
    map_err of_grant (Org.validate org)
    map_err of_grant (check_request request)
    map_err of_grant (check_timestamp crates at)
    grant_id ←
        ok_or (preauthorizes crates l request.requester request.task_class at)
          (no_preauthorization request.requester request.task_class)
    g ← ok_or (lookup grant_id l.grants) panics
    check_peer_branch l org request grant_id g
    expires ← or_diverges (shortened (walk_fuel l) l request.expires grant_id)
    fail_if (str_lt expires at) (expired expires)
    ok (record {
      permit_id = permit_id;
      request_id = request.request_id;
      task_class = request.task_class;
      requester = request.requester;
      peer = request.peer;
      issued_by = request.requester;
      basis = by_grant grant_id;
      expires = expires;
    })

  unfoldable pub authorizes :
      CollaborationPermit → String → String → String → Result CrossBranchError Unit
  authorizes p a b at = do
    map_err of_grant (check_timestamp crates at)
    map_err of_grant (check_timestamp crates p.expires)
    fail_if (str_lt p.expires at) (expired p.expires)
    fail_if (not ((a == p.requester && b == p.peer) || (a == p.peer && b == p.requester)))
        (wrong_pair p.permit_id a b)

  -- Whether the grantor stands above the peer, and the peer is allowed.
  unfoldable pub grantor_authorizes_peer :
      CollaborationPermit → OrgChart → GrantLedger → String → Result GrantError Bool
  grantor_authorizes_peer p org l grant_id =
      if is_some_and (λ (g : CapabilityGrant). contains g.grantor (chain org p.peer))
        (lookup grant_id l.grants)
      then preauthorization_allows_peer l grant_id org p.requester p.peer
      else ok false

  abbrev pub holds_grant : GrantLedger → String → String → String → String → Bool
  holds_grant l agent grant_id task_class at =
      any (λ (g : CapabilityGrant). g.grant_id == grant_id && has_scope (cross_branch task_class) g)
        (held_by crates l agent at)

  -- The condition of the code stops at the first part that holds, before it asks whether the grant is
  -- open.
  abbrev pub check_grant_basis :
      CollaborationPermit
      → GrantLedger
      → String
      → String
      → String
      → Bool
      → Result CrossBranchError Unit
  check_grant_basis p l grant_id task_class at authorized =
      if not (p.issued_by == p.requester) then err (of_grant (closed_grant grant_id)) else do
        open_now ← map_err of_grant (is_open crates l grant_id at)
        fail_if
            (not open_now
              || not authorized
              || not (holds_grant l p.requester grant_id task_class at))
            (of_grant (closed_grant grant_id))

  abbrev pub check_basis :
      CollaborationPermit
      → OrgChart
      → GrantLedger
      → String
      → String
      → String
      → String
      → PermitBasis
      → Result CrossBranchError Unit
  check_basis p org l a b task_class at (by_supervisor supervisor) = do
    map_err of_grant (Org.validate org)
    fail_if (not (p.issued_by == supervisor) || not (is_supervisor (lca org a b) supervisor))
        (not_lca p.issued_by a b)
  check_basis p org l a b task_class at (by_grant grant_id) = do
    authorized ← map_err of_grant (grantor_authorizes_peer p org l grant_id)
    check_grant_basis p l grant_id task_class at authorized

  unfoldable pub authorize_session :
      CollaborationPermit
      → OrgChart
      → GrantLedger
      → String
      → String
      → String
      → String
      → Result CrossBranchError Unit
  unfolding authorizes grantor_authorizes_peer
  authorize_session p org l a b task_class at = do
    authorizes p a b at
    fail_if (str_is_empty task_class || not (p.task_class == task_class))
        (no_preauthorization p.requester task_class)
    check_basis p org l a b task_class at p.basis
