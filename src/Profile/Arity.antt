-- ===== src/Profile/Arity.antt =====
-- The arity that `validate_org` of src/v2/profile.rs enforces.
use hacp.Common.{
  ◌≤◌, String, ◌≡◌, refl, true, false, List, [], ◌∷◌, length, values, contains, set_extend,
  contains-set_extend, arith, Bool-cases, Result-cases, inl, inr, ok, ltb, ◌==◌, eq_iff, subst, sym,
}
use hacp.Grant.Org.{OrgChart, children, reports_to}
use hacp.Grant.Org
use hacp.Profile.{supervisors, check_arity, validate_org}

check_arity-length :
    (org : OrgChart) (agents : List String) (agent : String)
    → check_arity org agents ≡ ok tt
    → contains agent agents ≡ true
    → length (children org agent) ≤ 2
unfolding check_arity contains
check_arity-length org [] agent h m = absurd (cc m)
check_arity-length org (a ∷ agents) agent h m =
    elim (Bool-cases (ltb 2 (length (children org a)))) [
      | inl many ↦ absurd (ground arith)
      | inr few ↦ elim (Bool-cases (agent == a)) [
        | inl same ↦
            subst (λ x. length (children org x) ≤ 2) (sym ((eq_iff agent a).0 same)) (ground arith)
        | inr other ↦ check_arity-length org agents agent (ground arith) (ground arith)
      ]
    ]

no_reports :
    (agent : String) (m : List (String × String))
    → contains agent (values m) ≡ false
    → reports_to agent m ≡ []
unfolding contains
no_reports agent [] h = refl
no_reports agent ((c, p) ∷ m) h = ground (arith, no_reports agent m, eq_iff agent p, eq_iff p agent)

no_children :
    (org : OrgChart) (agent : String)
    → contains agent (values org.parent_of) ≡ false
    → length (children org agent) ≤ 2
unfolding children
no_children org agent h = rw (no_reports agent org.parent_of h) (omega arith)

-- In a chart that the profile accepts no agent has more than two direct subordinates.
pub validate_org-length :
    (org : OrgChart) (agent : String) → validate_org org ≡ ok tt → length (children org agent) ≤ 2
unfolding validate_org supervisors
validate_org-length org agent h = elim (Result-cases (Org.validate org)) [
  | inl (e, bad) ↦ absurd (ground arith)
  | inr (_, good) ↦ elim (Bool-cases (contains agent (values org.parent_of))) [
    | inr none_below ↦ no_children org agent none_below
    | inl above ↦
        check_arity-length org (set_extend (values org.parent_of) []) agent (ground arith)
          (ground (arith, contains-set_extend (values org.parent_of) agent []))
  ]
]
