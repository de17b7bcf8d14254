-- ===== src/Grant/Ledger/Authority.antt =====
-- The rule of src/v2/grant.rs that a grantee's authority lies within what its grantor may delegate,
-- along every chain, and what a revocation closes.
use hacp.Common.{
  String, ◌≡◌, refl, sym, ◌∙◌, subst, Bool, true, false, ◌&&◌, ◌||◌, none, some, List, [], ◌∷◌,
  arith, is_some, Result-cases, inl, inr, ok, unwrap_or, any, all, filter, ◌==◌, eq_iff, lookup,
  insert, lookup-insert, values, any-values,
}
use hacp.Canon.{Crates}
use hacp.Canon.Sort.{insert_by_key, sort_by_key}
use hacp.Grant.Record.{ScopeElement, CapabilityGrant, check_timestamp, collect_delegable, delegable}
use hacp.Grant.Ledger.{
  GrantLedger, empty_ledger, is_open, is_delegable, check_scopes, has_scope, covers,
}
use hacp.Grant.Ledger.Ops.{Call, run}
use hacp.Grant.Ledger.Open.{stands, is_open-Lineage}
use hacp.Grant.Ledger.Invariant.{Grants, Lineage, top, link, IsSound, run-IsSound}

-- A scope that came down from a charter: each grant holds it, and each parent holds it as delegable
-- and was granted to the one that grants it on.
pub data IsDelegated (m : Grants) (scope : String) : String → Type 0 where
  chartered :
      (id : String) (g : CapabilityGrant)
      → lookup id m ≡ some g
      → g.parent ≡ none
      → has_scope scope g ≡ true
      → IsDelegated m scope id
  passed_on :
      (id parent : String) (g pg : CapabilityGrant)
      → lookup id m ≡ some g
      → g.parent ≡ some parent
      → has_scope scope g ≡ true
      → lookup parent m ≡ some pg
      → pg.grantee ≡ g.grantor
      → is_delegable (delegable pg) scope ≡ true
      → IsDelegated m scope parent
      → IsDelegated m scope id

check_scopes_sound :
    (upstream : List (String × Bool)) (scopes : List ScopeElement) (scope : String)
    → check_scopes upstream scopes ≡ ok tt
    → any (λ (s : ScopeElement). s.name == scope) scopes ≡ true
    → is_delegable upstream scope ≡ true
unfolding check_scopes
check_scopes_sound upstream [] scope h e = absurd (ground arith)
check_scopes_sound upstream (s ∷ scopes) scope h e =
    ground (arith, eq_iff s.name scope, check_scopes_sound upstream scopes scope)

collect_delegable_sound :
    (scopes : List ScopeElement) (m : List (String × Bool)) (scope : String)
    → is_some (lookup scope (collect_delegable scopes m)) ≡ true
    → (any (λ (s : ScopeElement). s.name == scope) scopes || is_some (lookup scope m)) ≡ true
unfolding collect_delegable
collect_delegable_sound [] m scope h = h
collect_delegable_sound (s ∷ scopes) m scope h = ground (
  arith,
  collect_delegable_sound scopes (insert s.name s.delegable m) scope,
  lookup-insert s.name scope s.delegable m,
  eq_iff scope s.name,
  eq_iff s.name scope,
)

has_scope_of_delegable :
    (g : CapabilityGrant) (scope : String)
    → is_delegable (delegable g) scope ≡ true
    → has_scope scope g ≡ true
has_scope_of_delegable g scope h =
    let nothing : lookup {V = Bool} scope [] ≡ none = unfold lookup in refl in
    ground (arith, nothing, collect_delegable_sound g.scopes [] scope)

module _ (crates : Crates) {m : Grants} (v : IsSound crates m) (scope : String) where
  Lineage-IsDelegated :
      {id : String} {path : List String}
      → Lineage m id path
      → (g : CapabilityGrant) → lookup id m ≡ some g
      → has_scope scope g ≡ true
      → IsDelegated m scope id
  Lineage-IsDelegated (top id _ found above) g at holds = chartered id g at (ground arith) holds
  Lineage-IsDelegated (link id p _ path found above line) g at holds =
      let linked : g.parent ≡ some p = ground arith in
      let (pg, at_p, same, scopes) = v.linked id g p at linked in
      let down = check_scopes_sound (delegable pg) g.scopes scope scopes holds in
      passed_on id p g pg at linked holds at_p same down
        (Lineage-IsDelegated line pg at_p (has_scope_of_delegable pg scope down))

any-filter :
    (p q : CapabilityGrant → Bool) (gs : List CapabilityGrant)
    → any p (filter q gs) ≡ any (λ g. q g && p g) gs
any-filter p q [] = refl
any-filter p q (g ∷ gs) = ground (arith, any-filter p q gs)

any-insert_by_key :
    (p : CapabilityGrant → Bool) (k : String) (g : CapabilityGrant) (m : Grants)
    → any p (values (insert_by_key (k, g) m)) ≡ (p g || any p (values m))
unfolding insert_by_key
any-insert_by_key p k g [] = refl
any-insert_by_key p k g ((j, h) ∷ m) = ground (arith, any-insert_by_key p k g m)

any-sort_by_key :
    (p : CapabilityGrant → Bool) (m : Grants) → any p (values (sort_by_key m)) ≡ any p (values m)
unfolding sort_by_key
any-sort_by_key p [] = refl
any-sort_by_key p ((k, g) ∷ m) =
    ground (arith, any-sort_by_key p m, any-insert_by_key p k g (sort_by_key m))

stamp_of_open :
    (crates : Crates) (l : GrantLedger) (id at : String)
    → unwrap_or false (is_open crates l id at) ≡ true
    → check_timestamp crates at ≡ ok tt
unfolding is_open
stamp_of_open crates l id at h = elim (Result-cases (check_timestamp crates at)) [
  | inl (e, bad) ↦ absurd (ground arith)
  | inr (u, good) ↦ ground arith
]

module _ (crates : Crates) (cs : List Call) where
  -- In a ledger that was empty at first, after any calls: if an agent is covered for a scope, it
  -- holds a recorded grant with that scope whose lineage leads to a charter; every grant on the
  -- lineage is in force; and down the lineage the scope was delegable at each grantor, which was the
  -- grantee of the grant above.
  pub covers_authority :
      (agent scope at : String)
      → covers crates (run crates empty_ledger cs) agent scope at ≡ true
      → (id : String) × (g : CapabilityGrant) × (path : List String) × (lookup id
            (run crates empty_ledger cs).grants
          ≡ some g)
        × (g.grantee ≡ agent)
        × Lineage (run crates empty_ledger cs).grants id path
        × (all (stands (run crates empty_ledger cs) at) path ≡ true)
        × IsDelegated (run crates empty_ledger cs).grants scope id
  unfolding covers
  covers_authority agent scope at h =
      let l = run crates empty_ledger cs in
      let v = run-IsSound crates cs in
      let held = λ (g : CapabilityGrant).
        g.grantee == agent && unwrap_or false (is_open crates l g.grant_id at) in
      let (id, g, found, passed) =
        any-values (λ g. held g && has_scope scope g) l.grants v.distinct
          (sym (any-sort_by_key (λ g. held g && has_scope scope g) l.grants)
            ∙ sym (any-filter (has_scope scope) held (values (sort_by_key l.grants)))
            ∙ h) in
      let (path, line) = v.rooted id g found in
      let key = v.keyed id g found in
      let answer : unwrap_or false (is_open crates l g.grant_id at) ≡ true = ground arith in
      let open_now : unwrap_or false (is_open crates l id at) ≡ true =
        subst (λ x. unwrap_or false (is_open crates l x at) ≡ true) key answer in
      let exact =
        is_open-Lineage crates l id at path line (stamp_of_open crates l id at open_now) in
      (
        id,
        g,
        path,
        found,
        ground (arith, eq_iff g.grantee agent),
        line,
        ground (arith, exact),
        Lineage-IsDelegated crates v scope line g found (ground arith),
      )
