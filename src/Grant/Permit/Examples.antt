-- ===== src/Grant/Permit/Examples.antt =====
-- Permits of src/v2/grant.rs on a small chart, and the theorems at them.
use hacp.Common.{
  String, ◌≡◌, refl, ◌⊎◌, true, false, none, some, List, [], ◌∷◌, all, ok, err, is_ok, str_lt,
  str_le, as_bytes, contains, set_insert, lookup, insert,
}
use hacp.Envelope.Urn
use hacp.Artifact.Shape.{is_hex_id}
use hacp.Canon.{validate_timestamp}
use hacp.Canon.Examples.{sample_crates}
use hacp.Grant.Record.{CapabilityGrant, closed_grant, check_shape}
use hacp.Grant.Org.{chain, validate, lca}
use hacp.Grant.Examples.{chart, noon}
use hacp.Grant.Ledger.{
  GrantLedger, empty_ledger, is_open, open_walk, peer_walk, preauthorizes,
  preauthorization_allows_peer, issue, revoke, held_by,
}
use hacp.Grant.Ledger.Ops.{issues, run}
use hacp.Grant.Ledger.Invariant.{Lineage}
use hacp.Grant.Permit.{
  CollaborationRequest, CollaborationPermit, by_supervisor, by_grant, of_grant, not_lca, by_lca,
  by_preauthorization, check_request, authorize_session, holds_grant, grantor_authorizes_peer,
}
use hacp.Grant.Permit.Admission.{authorize_session_grounds, by_lca_admits}
use hacp.Grant.Permit.Expiry.{within, by_preauthorization-within}

-- What a test by `refl` has to unfold.
permits : Unit {0}
unfolding Urn.parse is_hex_id as_bytes validate_timestamp check_shape validate chain lca by_lca
    by_preauthorization check_request authorize_session grantor_authorizes_peer preauthorizes
    preauthorization_allows_peer is_open open_walk peer_walk held_by issue revoke run contains
    set_insert lookup insert
permits = tt

abbrev ann : String
ann = "urn:hacp:agent:ann"

abbrev bob : String
bob = "urn:hacp:agent:bob"

abbrev boss : String
boss = "urn:hacp:agent:boss"

abbrev request : CollaborationRequest
request = record {
  request_id = "cr-000000000001";
  requester = ann;
  peer = bob;
  task_class = "review";
  expires = "2026-09-01T00:00:00Z";
}

abbrev ruled : CollaborationPermit
ruled = record {
  permit_id = "cp-000000000001";
  request_id = "cr-000000000001";
  task_class = "review";
  requester = ann;
  peer = bob;
  issued_by = boss;
  basis = by_supervisor boss;
  expires = "2026-09-01T00:00:00Z";
}

rules : by_lca sample_crates "cp-000000000001" chart request boss ≡ ok ruled
unfolding permits
rules = refl

only_the_lowest :
    by_lca sample_crates "cp-000000000001" chart request "urn:hacp:agent:left"
    ≡ err (not_lca "urn:hacp:agent:left" ann bob)
unfolding permits
only_the_lowest = refl

abbrev standing : CapabilityGrant
standing = record {
  grant_id = "g-000000000001";
  grantor = boss;
  grantee = ann;
  scopes = record { name = "cross-branch/review"; delegable = false } ∷ [];
  valid_from = "2026-07-01T00:00:00Z";
  valid_until = "2026-08-01T00:00:00Z";
  parent = none;
  peer = none;
}

abbrev ledger : GrantLedger
ledger = run sample_crates empty_ledger (issues standing noon ∷ [])

-- The grant ends before the request does.
abbrev preauthorized : CollaborationPermit
preauthorized = record ruled {
  issued_by = ann;
  basis = by_grant "g-000000000001";
  expires = "2026-08-01T00:00:00Z";
}

preauthorizes_peer :
    by_preauthorization sample_crates "cp-000000000001" chart ledger request noon ≡ ok preauthorized
unfolding permits
preauthorizes_peer = refl

admitted : authorize_session sample_crates preauthorized chart ledger ann bob "review" noon ≡ ok tt
unfolding permits
admitted = refl

revoked :
    authorize_session sample_crates preauthorized chart
      (revoke ledger "g-000000000001").0
      ann
      bob
      "review"
      noon
    ≡ err (of_grant (closed_grant "g-000000000001"))
unfolding permits
revoked = refl

authorize_session_grounds_example :
    (str_lt preauthorized.expires noon ≡ false)
    × (preauthorized.task_class ≡ "review")
    × (((ann ≡ preauthorized.requester) × (bob ≡ preauthorized.peer))
        ⊎ ((ann ≡ preauthorized.peer) × (bob ≡ preauthorized.requester)))
    × ((supervisor : String)
        → preauthorized.basis ≡ by_supervisor supervisor
        → (preauthorized.issued_by ≡ supervisor) × (lca chart ann bob ≡ some supervisor))
    × ((grant_id : String)
        → preauthorized.basis ≡ by_grant grant_id
        → (preauthorized.issued_by ≡ preauthorized.requester)
          × (is_open sample_crates ledger grant_id noon ≡ ok true)
          × (holds_grant sample_crates ledger preauthorized.requester grant_id "review" noon
              ≡ true))
authorize_session_grounds_example =
    authorize_session_grounds sample_crates preauthorized chart ledger ann bob "review" noon
      admitted

by_lca_admits_example :
    (is_ok (authorize_session sample_crates ruled chart empty_ledger ann bob "review" noon) ≡ true)
    × (is_ok (authorize_session sample_crates ruled chart empty_ledger bob ann "review" noon)
        ≡ true)
by_lca_admits_example =
    by_lca_admits sample_crates "cp-000000000001" chart empty_ledger request boss noon ruled rules
      (unfold permits in refl) refl

by_preauthorization-within_example :
    (grant_id : String) × (path : List String) × (preauthorized.basis ≡ by_grant grant_id)
    × Lineage ledger.grants grant_id path
    × (all (within ledger preauthorized.expires) path ≡ true)
    × (str_le preauthorized.expires request.expires ≡ true)
    × (str_lt preauthorized.expires noon ≡ false)
by_preauthorization-within_example =
    by_preauthorization-within sample_crates (issues standing noon ∷ []) "cp-000000000001" chart
      request noon preauthorized preauthorizes_peer
