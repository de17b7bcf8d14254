-- ===== src/Grant/Ledger/Invariant.antt =====
-- What holds of a ledger of src/v2/grant.rs between two calls.
use hacp.Common.{
  String, ◌≡◌, sym, subst, ◌⊎◌, none, some, List, [], ◌∷◌, arith, Option-cases, Bool-cases,
  Result-cases, inl, inr, ok, ◌==◌, eq_iff, eq_refl, lookup, insert, lookup-insert, Distinct,
  insert-Distinct,
}
use hacp.Canon.{Crates}
use hacp.Grant.Record.{CapabilityGrant, check_shape, check_timestamp, delegable}
use hacp.Grant.Ledger.{
  GrantLedger, empty_ledger, check_parent, check_link, check_scopes, issue, revoke,
}
use hacp.Grant.Ledger.Ops.{Call, issues, revokes, perform, run}

abbrev pub Grants : Type 0
Grants = List (String × CapabilityGrant)

-- The ids from a grant up its parents to a charter.
pub data Lineage (m : Grants) : String → List String → Type 0 where
  top :
      (id : String) (g : CapabilityGrant)
      → lookup id m ≡ some g
      → g.parent ≡ none
      → Lineage m id (id ∷ [])
  link :
      (id parent : String) (g : CapabilityGrant) (path : List String)
      → lookup id m ≡ some g
      → g.parent ≡ some parent
      → Lineage m parent path
      → Lineage m id (id ∷ path)

-- What `issue` has checked of a grant under its parent.
abbrev pub IsLinked : Grants → CapabilityGrant → String → Type 0
IsLinked m g parent =
    (pg : CapabilityGrant) × (lookup parent m ≡ some pg)
    × (pg.grantee ≡ g.grantor)
    × (check_scopes (delegable pg) g.scopes ≡ ok tt)

module _ (crates : Crates) where
  pub record IsSound (m : Grants) : Type 0 where
    pub distinct : Distinct m
    pub keyed : (id : String) (g : CapabilityGrant) → lookup id m ≡ some g → g.grant_id ≡ id
    pub shaped :
        (id : String) (g : CapabilityGrant) → lookup id m ≡ some g → check_shape crates g ≡ ok tt
    pub linked :
        (id : String) (g : CapabilityGrant) (parent : String)
        → lookup id m ≡ some g
        → g.parent ≡ some parent
        → IsLinked m g parent
    pub rooted :
        (id : String) (g : CapabilityGrant)
        → lookup id m ≡ some g
        → (path : List String) × Lineage m id path

Extends : Grants → Grants → Type 0
Extends m n = (id : String) (g : CapabilityGrant) → lookup id m ≡ some g → lookup id n ≡ some g

Lineage-Extends :
    {m n : Grants} {id : String} {path : List String}
    → Extends m n
    → Lineage m id path
    → Lineage n id path
unfolding Extends
Lineage-Extends x (top id g h t) = top id g (x id g h) t
Lineage-Extends x (link id p g path h l t) = link id p g path (x id g h) l (Lineage-Extends x t)

insert-Extends :
    (id : String) (g : CapabilityGrant) (m : Grants)
    → lookup id m ≡ none
    → Extends m (insert id g m)
unfolding Extends
insert-Extends id g m h j w k = ground (arith, lookup-insert id j g m, eq_iff j id)

module _ (crates : Crates) where
  check_parent-IsLinked :
      (l : GrantLedger) (g : CapabilityGrant) (at parent : String)
      → check_parent crates l g at parent ≡ ok tt
      → IsLinked l.grants g parent
  unfolding check_parent
  check_parent-IsLinked l g at parent h = elim (Option-cases (lookup parent l.grants)) [
    | inl missing ↦ absurd (ground arith)
    | inr (pg, found) ↦ (
      pg,
      found,
      ground (arith, eq_iff pg.grantee g.grantor),
      ground (arith, eq_iff pg.grantee g.grantor),
    )
  ]

  -- A recorded grant was checked, and its id was new; otherwise the ledger is as it was.
  pub issue_cases :
      (l : GrantLedger) (g : CapabilityGrant) (at : String)
      → ((issue crates l g at).0 ≡ l)
        ⊎ (((issue crates l g at).0 ≡ record l { grants = insert g.grant_id g l.grants })
            × (lookup g.grant_id l.grants ≡ none)
            × (check_shape crates g ≡ ok tt)
            × ((parent : String) → g.parent ≡ some parent → IsLinked l.grants g parent))
  unfolding issue
  issue_cases l g at = elim (Option-cases (lookup g.grant_id l.grants)) [
    | inr (old, found) ↦ inl (ground arith)
    | inl new ↦ elim (Result-cases (check_shape crates g)) [
      | inl (e, bad) ↦ inl (ground arith)
      | inr (u, shape) ↦ elim (Result-cases (check_timestamp crates at)) [
        | inl (e, bad) ↦ inl (ground arith)
        | inr (u', stamp) ↦ elim (Result-cases (check_link crates l g at g.parent)) [
          | inl (e, bad) ↦ inl (ground arith)
          | inr (u'', linked) ↦ inr (
            ground arith,
            new,
            ground arith,
            λ p e. check_parent-IsLinked l g at p (ground arith),
          )
        ]
      ]
    ]
  ]

module _ (crates : Crates) (m : Grants) (g : CapabilityGrant)
    (new : lookup g.grant_id m ≡ none) where
  -- What is found after the insertion is the new grant, or was there before.
  found_cases :
      (id : String) (h : CapabilityGrant)
      → lookup id (insert g.grant_id g m) ≡ some h
      → ((id ≡ g.grant_id) × (h ≡ g)) ⊎ (lookup id m ≡ some h)
  found_cases id h e = elim (Bool-cases (id == g.grant_id)) [
    | inl here ↦
        inl ((eq_iff id g.grant_id).0 here, ground (arith, lookup-insert g.grant_id id g m))
    | inr there ↦ inr (ground (arith, lookup-insert g.grant_id id g m))
  ]

  IsLinked-later :
      (h : CapabilityGrant) (p : String) → IsLinked m h p → IsLinked (insert g.grant_id g m) h p
  IsLinked-later h p (pg, found, same, scopes) =
      (pg, unfold Extends in insert-Extends g.grant_id g m new p pg found, same, scopes)

  rooted_new :
      ((id : String) (h : CapabilityGrant)
        → lookup id m ≡ some h
        → (path : List String) × Lineage m id path)
      → ((p : String) → g.parent ≡ some p → IsLinked m g p)
      → (path : List String) × Lineage (insert g.grant_id g m) g.grant_id path
  rooted_new rooted links =
      let self : lookup g.grant_id (insert g.grant_id g m) ≡ some g =
        ground (arith, lookup-insert g.grant_id g.grant_id g m, eq_refl g.grant_id) in
      elim (Option-cases g.parent) [
        | inl none_above ↦ (g.grant_id ∷ [], top g.grant_id g self none_above)
        | inr (p, above) ↦
            let (pg, found, same, scopes) = links p above in
            let (path, line) = rooted p pg found in
            (
              g.grant_id ∷ path,
              link g.grant_id p g path self above
                  (Lineage-Extends (insert-Extends g.grant_id g m new) line),
            )
      ]

  insert-IsSound :
      IsSound crates m
      → check_shape crates g ≡ ok tt
      → ((p : String) → g.parent ≡ some p → IsLinked m g p)
      → IsSound crates (insert g.grant_id g m)
  insert-IsSound v shape links = record {
    distinct = insert-Distinct g.grant_id g m new v.distinct;
    keyed =
        λ id h e. elim (found_cases id h e) [ inl (at, same) ↦ cc | inr old ↦ v.keyed id h old ];
    shaped =
        λ id h e. elim (found_cases id h e) [ inl (at, same) ↦ cc | inr old ↦ v.shaped id h old ];
    linked = λ id h p e q. elim (found_cases id h e) [
      | inl (at, same) ↦ IsLinked-later h p (subst (λ x. IsLinked m x p) (sym same) (links p (cc)))
      | inr old ↦ IsLinked-later h p (v.linked id h p old q)
    ];
    rooted = λ id h e. elim (found_cases id h e) [
      | inl (at, same) ↦
          let (path, line) = rooted_new v.rooted links in
          (path, subst (λ x. Lineage (insert g.grant_id g m) x path) (sym at) line)
      | inr old ↦
          let (path, line) = v.rooted id h old in
          (path, Lineage-Extends (insert-Extends g.grant_id g m new) line)
    ];
  }

module _ (crates : Crates) where
  perform-IsSound :
      (l : GrantLedger) (c : Call)
      → IsSound crates l.grants
      → IsSound crates (perform crates l c).0.grants
  unfolding perform
  perform-IsSound l (revokes id) v = elim (Option-cases (lookup id l.grants)) [
    | inl missing ↦ rw (missing, revoke) v
    | inr (g, found) ↦ rw (found, revoke) v
  ]
  perform-IsSound l (issues g at) v = elim (issue_cases crates l g at) [
    | inl same ↦ subst (λ (x : GrantLedger). IsSound crates x.grants) (sym same) v
    | inr (same, new, shape, links) ↦
        subst (λ (x : GrantLedger). IsSound crates x.grants) (sym same)
          (insert-IsSound crates l.grants g new v shape links)
  ]

  run-IsSound_from :
      (l : GrantLedger) (cs : List Call)
      → IsSound crates l.grants
      → IsSound crates (run crates l cs).grants
  unfolding run
  run-IsSound_from l [] v = v
  run-IsSound_from l (c ∷ cs) v = run-IsSound_from (perform crates l c).0 cs (perform-IsSound l c v)

  empty-IsSound : IsSound crates []
  unfolding lookup
  empty-IsSound = record {
    distinct = tt;
    keyed = λ id g e. cc e;
    shaped = λ id g e. cc e;
    linked = λ id g p e q. absurd (ground arith);
    rooted = λ id g e. absurd (ground arith);
  }

-- A ledger that was empty at first is sound after any calls, refused ones included: every grant is
-- recorded under its id with a valid shape; its parent, if it has one, is recorded, has the grantor
-- as its grantee and every one of its scopes as delegable; and its parents lead to a charter, with
-- no cycle.
pub run-IsSound :
    (crates : Crates) (cs : List Call) → IsSound crates (run crates empty_ledger cs).grants
run-IsSound crates cs = run-IsSound_from crates empty_ledger cs (empty-IsSound crates)
