-- ===== src/Grant/Ledger/Peers.antt =====
-- The peer restriction of src/v2/grant.rs along a lineage.
use hacp.Common.{
  ℕ, zero, suc, ◌≤◌, String, ◌≡◌, Bool, true, false, not, ◌&&◌, ◌||◌, none, some, List, [], arith,
  length, is_some, is_some_and, if◌then◌else◌, Option-cases, Bool-cases, inl, inr, ok, any, ◌==◌,
  contains, set_insert, lookup, unseen, unseen-le-length, unseen-insert_lt,
}
use hacp.Grant.Record.{CapabilityGrant}
use hacp.Grant.Org.{OrgChart, same_parent}
use hacp.Grant.Ledger.{GrantLedger, peer_walk, walk_fuel, preauthorization_allows_peer}
use hacp.Grant.Ledger.Open.{SeenLonger, SeenLonger-up, unseen_current}
use hacp.Grant.Ledger.Invariant.{Grants, Lineage, top, link}

-- A lineage is no longer than the ledger.
Lineage-le-unseen :
    {m : Grants} {id : String} {path : List String} (seen : List String)
    → Lineage m id path
    → SeenLonger m seen path
    → length path ≤ unseen seen m
Lineage-le-unseen {m} seen (top id g found t) h =
    let new = unseen_current seen (top id g found t) h in
    omega (arith, unseen-insert_lt id g seen m found new)
Lineage-le-unseen {m} seen (link id p g path found linked c) h =
    let whole = link id p g path found linked c in
    let new = unseen_current seen whole h in
    omega (
      arith,
      unseen-insert_lt id g seen m found new,
      Lineage-le-unseen (set_insert id seen) c (SeenLonger-up seen whole h),
    )

pub Lineage-le-length :
    {m : Grants} {id : String} {path : List String} → Lineage m id path → length path ≤ length m
Lineage-le-length {m} {path} c =
    let nothing : SeenLonger m [] path = λ s e. absurd (unfold contains in cc e) in
    omega (arith, Lineage-le-unseen [] c nothing, unseen-le-length [] m)

-- The grant is restricted to another peer; the grant is restricted to some peer.
abbrev pub bound_elsewhere : GrantLedger → String → String → Bool
bound_elsewhere l peer id =
    is_some_and (λ (g : CapabilityGrant). is_some_and (λ b. not (b == peer)) g.peer)
      (lookup id l.grants)

abbrev pub bound : GrantLedger → String → Bool
bound l id = is_some_and (λ (g : CapabilityGrant). is_some g.peer) (lookup id l.grants)

module _ (l : GrantLedger) (peer : String) (fuel : ℕ) (restricted : Bool) (id : String)
    (g : CapabilityGrant) (found : lookup id l.grants ≡ some g) where
  walk_free_top :
      g.peer ≡ none
      → g.parent ≡ none
      → peer_walk (suc fuel) l peer restricted id ≡ some (ok (some restricted))
  unfolding peer_walk
  walk_free_top free t = rw (found, peer_walk) (rw (free, peer_walk) (rw (t, peer_walk)))

  walk_free_up :
      (p : String)
      → g.peer ≡ none
      → g.parent ≡ some p
      → peer_walk (suc fuel) l peer restricted id ≡ peer_walk fuel l peer restricted p
  unfolding peer_walk
  walk_free_up p free t = rw (found, peer_walk) (rw (free, peer_walk) (rw (t, peer_walk)))

  walk_elsewhere :
      (b : String)
      → g.peer ≡ some b
      → (b == peer) ≡ false
      → peer_walk (suc fuel) l peer restricted id ≡ some (ok none)
  unfolding peer_walk
  walk_elsewhere b named e = rw (found, peer_walk) (rw (named, peer_walk) (rw (e, peer_walk)))

  walk_bound_top :
      (b : String)
      → g.peer ≡ some b
      → (b == peer) ≡ true
      → g.parent ≡ none
      → peer_walk (suc fuel) l peer restricted id ≡ some (ok (some true))
  unfolding peer_walk
  walk_bound_top b named e t =
      rw (found, peer_walk) (rw (named, peer_walk) (rw (e, peer_walk) (rw (t, peer_walk))))

  walk_bound_up :
      (b p : String)
      → g.peer ≡ some b
      → (b == peer) ≡ true
      → g.parent ≡ some p
      → peer_walk (suc fuel) l peer restricted id ≡ peer_walk fuel l peer true p
  unfolding peer_walk
  walk_bound_up b p named e t =
      rw (found, peer_walk) (rw (named, peer_walk) (rw (e, peer_walk) (rw (t, peer_walk))))

peer_walk-Lineage :
    (l : GrantLedger) (peer : String) (fuel : ℕ) (restricted : Bool) {id : String}
    {path : List String}
    → Lineage l.grants id path
    → length path ≤ fuel
    → peer_walk fuel l peer restricted id
      ≡ some (
          ok (
            if any (bound_elsewhere l peer) path
            then none
            else some (restricted || any (bound l) path)))
peer_walk-Lineage l peer zero r (top id g found t) h = absurd (omega arith)
peer_walk-Lineage l peer zero r (link id p g path found linked c) h = absurd (omega arith)
peer_walk-Lineage l peer (suc fuel) r (top id g found t) h = elim (Option-cases g.peer) [
  | inl free ↦ ground (arith, walk_free_top l peer fuel r id g found free t)
  | inr (b, named) ↦ elim (Bool-cases (b == peer)) [
    | inl same ↦ ground (arith, walk_bound_top l peer fuel r id g found b named same t)
    | inr other ↦ ground (arith, walk_elsewhere l peer fuel r id g found b named other)
  ]
]
peer_walk-Lineage l peer (suc fuel) r (link id p g path found linked c) h =
    elim (Option-cases g.peer) [
      | inl free ↦ ground (
        arith,
        walk_free_up l peer fuel r id g found p free linked,
        peer_walk-Lineage l peer fuel r c (omega arith),
      )
      | inr (b, named) ↦ elim (Bool-cases (b == peer)) [
        | inl same ↦ ground (
          arith,
          walk_bound_up l peer fuel r id g found b p named same linked,
          peer_walk-Lineage l peer fuel true c (omega arith),
        )
        | inr other ↦ ground (arith, walk_elsewhere l peer fuel r id g found b named other)
      ]
    ]

-- The loop over the parents of a grant that descends from a charter ends, and the peer is allowed
-- exactly if no grant on the lineage is restricted to another peer and, where some grant is
-- restricted at all, requester and peer differ and have the same direct supervisor.
pub preauthorization_allows_peer-Lineage :
    (l : GrantLedger) (id : String) (path : List String) (org : OrgChart) (requester peer : String)
    → Lineage l.grants id path
    → preauthorization_allows_peer l id org requester peer
      ≡ ok (
          not (any (bound_elsewhere l peer) path)
          && (not (any (bound l) path)
              || (not (requester == peer)
                  && same_parent (lookup requester org.parent_of) (lookup peer org.parent_of))))
unfolding preauthorization_allows_peer
preauthorization_allows_peer-Lineage l id path org requester peer c =
    let walked =
      peer_walk-Lineage l peer (walk_fuel l) false c (omega (arith, Lineage-le-length c)) in
    rw walked (ground arith)
