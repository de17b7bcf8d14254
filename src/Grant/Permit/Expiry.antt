-- ===== src/Grant/Permit/Expiry.antt =====
-- How long a preauthorized permit of src/v2/grant.rs lasts.
use hacp.Common.{
  ℕ, zero, suc, ◌<◌, String, ◌≡◌, sym, ◌∙◌, ap, subst, Bool, true, false, none, some, List, arith,
  length, all, is_some_and, Option-cases, inl, inr, ok, Result-cases, str_le, str_lt, str_min,
  str_le_trans, str_le_total, lookup,
}
use hacp.Canon.{Crates}
use hacp.Grant.Record.{CapabilityGrant}
use hacp.Grant.Org.{OrgChart}
use hacp.Grant.Ledger.{GrantLedger, empty_ledger, walk_fuel, preauthorizes}
use hacp.Grant.Ledger.Invariant.{Lineage, top, link, run-IsSound}
use hacp.Grant.Ledger.Ops.{Call, run}
use hacp.Grant.Ledger.Peers.{Lineage-le-length}
use hacp.Grant.Permit.{
  CollaborationRequest, CollaborationPermit, by_grant, shortened, or_diverges, by_preauthorization,
}

-- The expiry is no later than the end of the grant's window.
abbrev pub within : GrantLedger → String → String → Bool
within l expires id =
    is_some_and (λ (g : CapabilityGrant). str_le expires g.valid_until) (lookup id l.grants)

str_min_le : (a b : String) → (str_le (str_min a b) a ≡ true) × (str_le (str_min a b) b ≡ true)
str_min_le a b = (
  ground (arith, str_le_total a b, str_le_total a a),
  ground (arith, str_le_total a b, str_le_total b b),
)

module _ (l : GrantLedger) where
  shortened_top :
      (fuel : ℕ) (expires id : String) (g : CapabilityGrant)
      → lookup id l.grants ≡ some g
      → g.parent ≡ none
      → shortened (suc fuel) l expires id ≡ some (ok (str_min expires g.valid_until))
  unfolding shortened
  shortened_top fuel expires id g found t = rw (found, shortened) (rw (t, shortened))

  shortened_up :
      (fuel : ℕ) (expires id parent : String) (g : CapabilityGrant)
      → lookup id l.grants ≡ some g
      → g.parent ≡ some parent
      → shortened (suc fuel) l expires id ≡ shortened fuel l (str_min expires g.valid_until) parent
  unfolding shortened
  shortened_up fuel expires id parent g found t = rw (found, shortened) (rw (t, shortened))

  -- The loop ends on a lineage, with an expiry no later than the one before and than the end of any
  -- window on the lineage.
  shortened-within :
      (fuel : ℕ) (expires : String) {id : String} {path : List String}
      → Lineage l.grants id path
      → length path < suc fuel
      → (r : String) × (shortened fuel l expires id ≡ some (ok r))
        × (str_le r expires ≡ true)
        × (all (within l r) path ≡ true)
  shortened-within zero expires (top id g found t) h = absurd (omega arith)
  shortened-within zero expires (link id p g path found linked c) h = absurd (omega arith)
  shortened-within (suc fuel) expires (top id g found t) h = (
    str_min expires g.valid_until,
    shortened_top fuel expires id g found t,
    (str_min_le expires g.valid_until).0,
    ground (arith, str_min_le expires g.valid_until),
  )
  shortened-within (suc fuel) expires (link id p g path found linked c) h =
      let shorter = str_min expires g.valid_until in
      let (r, e, less, rest) = shortened-within fuel shorter c (omega arith) in
      let (below, window) = str_min_le expires g.valid_until in
      (
        r,
        shortened_up fuel expires id p g found linked ∙ e,
        str_le_trans r shorter expires less below,
        ground (arith, str_le_trans r shorter g.valid_until),
      )

module _ (crates : Crates) (permit_id : String) (org : OrgChart) (l : GrantLedger)
    (request : CollaborationRequest) (at : String) (p : CollaborationPermit) where
  -- What a permit on a grant's basis was made of.
  by_preauthorization_made :
      by_preauthorization crates permit_id org l request at ≡ ok p
      → (grant_id : String) × (g : CapabilityGrant) × (lookup grant_id l.grants ≡ some g)
        × (preauthorizes crates l request.requester request.task_class at ≡ some grant_id)
        × (p.basis ≡ by_grant grant_id)
        × (or_diverges (shortened (walk_fuel l) l request.expires grant_id) ≡ ok p.expires)
        × (str_lt p.expires at ≡ false)
  unfolding by_preauthorization
  by_preauthorization_made h =
      elim (Option-cases (preauthorizes crates l request.requester request.task_class at)) [
        | inl absent ↦ absurd (ground arith)
        | inr (grant_id, chosen) ↦ elim (Option-cases (lookup grant_id l.grants)) [
          | inl missing ↦ absurd (ground arith)
          | inr (g, found) ↦
              elim (Result-cases
                (or_diverges (shortened (walk_fuel l) l request.expires grant_id))) [
                  | inl (e, bad) ↦ absurd (ground arith)
                  | inr (expires, short) ↦
                      let last : p.expires ≡ expires = ground arith in
                      (
                        grant_id,
                        g,
                        found,
                        chosen,
                        ground arith,
                        short ∙ ap ok (sym last),
                        ground arith,
                      )
                ]
        ]
      ]

-- In a ledger that was empty at first, after any calls: a permit on the basis of a preauthorization
-- names a recorded grant whose lineage leads to a charter; the permit lasts no longer than the
-- request asks, nor than any window on that lineage; and it has not expired when it is issued.
pub by_preauthorization-within :
    (crates : Crates) (cs : List Call) (permit_id : String) (org : OrgChart)
    (request : CollaborationRequest) (at : String) (p : CollaborationPermit)
    → by_preauthorization crates permit_id org (run crates empty_ledger cs) request at ≡ ok p
    → (grant_id : String) × (path : List String) × (p.basis ≡ by_grant grant_id)
      × Lineage (run crates empty_ledger cs).grants grant_id path
      × (all (within (run crates empty_ledger cs) p.expires) path ≡ true)
      × (str_le p.expires request.expires ≡ true)
      × (str_lt p.expires at ≡ false)
by_preauthorization-within crates cs permit_id org request at p h =
    let l = run crates empty_ledger cs in
    let (grant_id, g, found, chosen, basis, short, live) =
      by_preauthorization_made crates permit_id org l request at p h in
    let (path, line) = (run-IsSound crates cs).rooted grant_id g found in
    let (r, e, less, windows) =
      shortened-within l (walk_fuel l) request.expires line
        (omega (arith, Lineage-le-length line)) in
    let same : r ≡ p.expires = ground (arith, e, short) in
    (
      grant_id,
      path,
      basis,
      line,
      subst (λ x. all (within l x) path ≡ true) same windows,
      subst (λ x. str_le x request.expires ≡ true) same less,
      live,
    )
