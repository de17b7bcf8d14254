-- ===== src/Grant/Ledger/Revocation.antt =====
-- What a revocation in a ledger of src/v2/grant.rs closes, for good.
use hacp.Common.{
  String, ◌≡◌, refl, sym, ◌∙◌, ap, subst, true, false, ◌||◌, ◌==◌, List, [], ◌∷◌, arith,
  Option-cases, inl, inr, ok, all, eq_iff, eq_refl, contains, contains-set_insert, lookup,
}
use hacp.Canon.{Crates}
use hacp.Grant.Record.{check_timestamp}
use hacp.Grant.Ledger.{GrantLedger, is_open, revoke}
use hacp.Grant.Ledger.Ops.{Call, issues, revokes, perform, run}
use hacp.Grant.Ledger.Open.{stands, is_open-Lineage}
use hacp.Grant.Ledger.Invariant.{Lineage, issue_cases}

module _ (crates : Crates) (r : String) where
  perform_revoked :
      (l : GrantLedger) (c : Call)
      → contains r l.revoked ≡ true
      → contains r (perform crates l c).0.revoked ≡ true
  unfolding perform
  perform_revoked l (issues g at) h = elim (issue_cases crates l g at) [
    | inl same ↦ subst (λ (x : GrantLedger). contains r x.revoked ≡ true) (sym same) h
    | inr (same, _, _, _) ↦ subst (λ (x : GrantLedger). contains r x.revoked ≡ true) (sym same) h
  ]
  perform_revoked l (revokes id) h = elim (Option-cases (lookup id l.grants)) [
    | inl missing ↦ rw (missing, revoke) h
    | inr (g, found) ↦ rw (found, revoke) (ground (arith, contains-set_insert id r l.revoked))
  ]

  run_revoked :
      (l : GrantLedger) (cs : List Call)
      → contains r l.revoked ≡ true
      → contains r (run crates l cs).revoked ≡ true
  unfolding run
  run_revoked l [] h = h
  run_revoked l (c ∷ cs) h = run_revoked (perform crates l c).0 cs (perform_revoked l c h)

revoke_marks :
    (l : GrantLedger) (r : String)
    → (revoke l r).1 ≡ ok tt
    → contains r (revoke l r).0.revoked ≡ true
unfolding revoke
revoke_marks l r h = elim (Option-cases (lookup r l.grants)) [
  | inl missing ↦ absurd (ground arith)
  | inr (g, found) ↦
      rw (found, revoke) (ground (arith, contains-set_insert r r l.revoked, eq_refl r))
]

not_all_stand :
    (l : GrantLedger) (r at : String) (path : List String)
    → contains r l.revoked ≡ true
    → contains r path ≡ true
    → all (stands l at) path ≡ false
not_all_stand l r at [] h e = absurd (unfold contains in cc e)
not_all_stand l r at (id ∷ path) h e =
    let here : contains r (id ∷ path) ≡ (r == id || contains r path) = unfold contains in refl in
    ground (arith, here, eq_iff r id, not_all_stand l r at path h)

-- After a grant is revoked, whatever is issued or revoked later, every grant whose lineage passes
-- through it is closed at every valid timestamp.
pub revoke_closes :
    (crates : Crates) (l : GrantLedger) (r : String) (cs : List Call) (id at : String)
    (path : List String)
    → (revoke l r).1 ≡ ok tt
    → Lineage (run crates (revoke l r).0 cs).grants id path
    → contains r path ≡ true
    → check_timestamp crates at ≡ ok tt
    → is_open crates (run crates (revoke l r).0 cs) id at ≡ ok false
revoke_closes crates l r cs id at path h line through stamp =
    let later = run crates (revoke l r).0 cs in
    let marked = run_revoked crates r (revoke l r).0 cs (revoke_marks l r h) in
    is_open-Lineage crates later id at path line stamp
    ∙ ap ok (not_all_stand later r at path marked through)
