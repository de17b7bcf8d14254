-- ===== src/Grant/Examples.antt =====
-- Runs of src/v2/grant.rs on a small chart and a small ledger, and the theorems at them.
use hacp.Common.{
  String, ◌≡◌, refl, ◌≢◌, ◌↔◌, true, false, not, ◌&&◌, ◌||◌, none, some, List, [], ◌∷◌, ok, err,
  is_some, any, all, as_bytes, ◌==◌, contains, set_insert, lookup, insert,
}
use hacp.Envelope.Urn
use hacp.Artifact.Shape.{is_hex_id}
use hacp.Canon.{validate_timestamp}
use hacp.Canon.Examples.{sample_crates}
use hacp.Grant.Record.{
  CapabilityGrant, GrantError, check_shape, not_delegable, closed_grant, cycle, same_grant,
  collect_delegable,
}
use hacp.Grant.Org.{OrgChart, checked_chain, skip_first, validate, lca, same_parent}
use hacp.Grant.Org.Chains.{IsChain, IsAbove, checked_chain_iff}
use hacp.Grant.Org.Lca.{lca_lowest}
use hacp.Grant.Ledger.{
  GrantLedger, empty_ledger, is_open, covers, issue, revoke, preauthorization_allows_peer,
  peer_walk, open_walk, walk_fuel, check_scopes, check_parent,
}
use hacp.Grant.Ledger.Ops.{Call, issues, revokes, perform, run}
use hacp.Grant.Ledger.Invariant.{Lineage, top, link, IsSound, run-IsSound}
use hacp.Grant.Ledger.Walk.{open_walk_enough}
use hacp.Grant.Ledger.Open.{stands, is_open-Lineage}
use hacp.Grant.Ledger.Authority.{IsDelegated, covers_authority}
use hacp.Grant.Ledger.Revocation.{revoke_closes}
use hacp.Grant.Ledger.Peers.{bound, bound_elsewhere, preauthorization_allows_peer-Lineage}

-- What a test by `refl` has to unfold.
ledger : Unit {0}
unfolding Urn.parse validate_timestamp validate lca checked_chain run perform issue revoke is_open
    covers open_walk check_shape check_parent check_scopes same_grant as_bytes is_hex_id
    collect_delegable preauthorization_allows_peer peer_walk contains set_insert lookup insert
ledger = tt

abbrev boss : String
boss = "urn:hacp:agent:boss"

abbrev left : String
left = "urn:hacp:agent:left"

abbrev right : String
right = "urn:hacp:agent:right"

abbrev ann : String
ann = "urn:hacp:agent:ann"

abbrev bob : String
bob = "urn:hacp:agent:bob"

abbrev pub chart : OrgChart
chart = record { parent_of = (ann, left) ∷ (bob, right) ∷ (left, boss) ∷ (right, boss) ∷ [] }

abbrev ring : OrgChart
ring = record { parent_of = (ann, bob) ∷ (bob, ann) ∷ [] }

valid_chart : validate chart ≡ ok tt
unfolding ledger
valid_chart = refl

refuses_ring : validate ring ≡ err (cycle ann)
unfolding ledger
refuses_ring = refl

meets : lca chart ann bob ≡ some boss
unfolding ledger
meets = refl

-- The supervisor of a supervised agent is no lowest common supervisor with it.
alone : lca chart left boss ≡ none
unfolding ledger
alone = refl

checked_chain_iff_example :
    ((path : List String) → (checked_chain chart ann ≡ ok path) ↔ IsChain chart ann path)
    × ((e : GrantError)
        → checked_chain chart ann ≡ err e
        → (p : String) × (e ≡ cycle p) × IsAbove chart ann p × IsAbove chart p p)
checked_chain_iff_example = checked_chain_iff chart ann

abbrev bent : OrgChart
bent = record { parent_of = (ann, left) ∷ (left, right) ∷ (right, boss) ∷ (boss, right) ∷ [] }

-- The cycle is found above the agent, where the walk first comes back.
bent_chain : checked_chain bent ann ≡ err (cycle right)
unfolding ledger
bent_chain = refl

lca_lowest_example :
    (pa : List String) × (pb : List String) × IsChain chart ann pa
    × IsChain chart bob pb
    × (contains boss (skip_first pa) ≡ true)
    × (contains boss (skip_first pb) ≡ true)
    × (boss ≢ ann)
    × (boss ≢ bob)
    × ((t : String)
        → contains t (skip_first pa) ≡ true
        → contains t (skip_first pb) ≡ true
        → (cs : List String) × IsChain chart boss cs × (contains t cs ≡ true))
lca_lowest_example = lca_lowest chart ann bob boss meets

abbrev pub noon : String
noon = "2026-07-01T12:00:00Z"

abbrev charter_grant : CapabilityGrant
charter_grant = record {
  grant_id = "g-000000000001";
  grantor = "deployment";
  grantee = left;
  scopes =
      record { name = "deploy"; delegable = true }
      ∷ record { name = "audit"; delegable = false }
      ∷ [];
  valid_from = "2026-07-01T00:00:00Z";
  valid_until = "2026-08-01T00:00:00Z";
  parent = none;
  peer = none;
}

abbrev lower_grant : CapabilityGrant
lower_grant = record charter_grant {
  grant_id = "g-000000000002";
  grantor = left;
  grantee = ann;
  scopes = record { name = "deploy"; delegable = false } ∷ [];
  parent = some "g-000000000001";
  peer = some bob;
}

abbrev history : List Call
history = issues charter_grant noon ∷ issues lower_grant noon ∷ []

abbrev issued : GrantLedger
issued = record {
  grants = ("g-000000000001", charter_grant) ∷ ("g-000000000002", lower_grant) ∷ [];
  revoked = [];
}

becomes_issued : run sample_crates empty_ledger history ≡ issued
unfolding ledger
becomes_issued = refl

refuses_audit :
    (issue sample_crates issued
      (record lower_grant {
        grant_id = "g-000000000003";
        scopes = record { name = "audit"; delegable = false } ∷ [];
      })
      noon).1
    ≡ err (not_delegable "audit")
unfolding ledger
refuses_audit = refl

refuses_closed :
    (issue sample_crates
      (revoke issued "g-000000000001").0
      (record lower_grant { grant_id = "g-000000000003" })
      noon).1
    ≡ err (closed_grant "g-000000000001")
unfolding ledger
refuses_closed = refl

run-IsSound_example : IsSound sample_crates (run sample_crates empty_ledger history).grants
run-IsSound_example = run-IsSound sample_crates history

open_walk_enough_example :
    is_some (open_walk (walk_fuel issued) issued noon [] "g-000000000002") ≡ true
open_walk_enough_example = open_walk_enough issued noon "g-000000000002"

abbrev path : List String
path = "g-000000000002" ∷ "g-000000000001" ∷ []

lineage : (l : GrantLedger) → l.grants ≡ issued.grants → Lineage l.grants "g-000000000002" path
unfolding lookup
lineage l e = rw e (
    link "g-000000000002" "g-000000000001" lower_grant ("g-000000000001" ∷ []) refl refl
      (top "g-000000000001" charter_grant refl refl))

is_open-Lineage_example :
    is_open sample_crates issued "g-000000000002" noon ≡ ok (all (stands issued noon) path)
is_open-Lineage_example =
    is_open-Lineage sample_crates issued "g-000000000002" noon path (lineage issued refl)
      (unfold ledger in refl)

covers_authority_example :
    (id : String) × (g : CapabilityGrant) × (p : List String) × (lookup id
        (run sample_crates empty_ledger history).grants
      ≡ some g)
    × (g.grantee ≡ ann)
    × Lineage (run sample_crates empty_ledger history).grants id p
    × (all (stands (run sample_crates empty_ledger history) noon) p ≡ true)
    × IsDelegated (run sample_crates empty_ledger history).grants "deploy" id
covers_authority_example =
    covers_authority sample_crates history ann "deploy" noon (unfold ledger in refl)

abbrev revocation : GrantLedger
revocation = (revoke issued "g-000000000001").0

revoke_closes_example :
    is_open sample_crates
      (run sample_crates revocation (revokes "g-00000000000f" ∷ []))
      "g-000000000002"
      noon
    ≡ ok false
revoke_closes_example =
    revoke_closes sample_crates issued "g-000000000001" (revokes "g-00000000000f" ∷ [])
      "g-000000000002" noon path (unfold ledger in refl)
      (lineage (run sample_crates revocation (revokes "g-00000000000f" ∷ []))
        (unfold ledger in refl))
      (unfold ledger in refl) (unfold ledger in refl)

preauthorization_allows_peer-Lineage_example :
    preauthorization_allows_peer issued "g-000000000002" chart ann bob
    ≡ ok (
        not (any (bound_elsewhere issued bob) path)
        && (not (any (bound issued) path)
            || (not (ann == bob)
                && same_parent (lookup ann chart.parent_of) (lookup bob chart.parent_of))))
preauthorization_allows_peer-Lineage_example =
    preauthorization_allows_peer-Lineage issued "g-000000000002" path chart ann bob
      (lineage issued refl)

-- The two agents have different supervisors.
not_siblings : preauthorization_allows_peer issued "g-000000000002" chart ann bob ≡ ok false
unfolding ledger
not_siblings = refl
