-- ===== src/Grant/Org/Lca.antt =====
-- The lowest common supervisor of src/v2/grant.rs.
use hacp.Common.{
  suc, ◌<◌, String, ◌≡◌, refl, sym, ◌∙◌, ap, subst, ◌≢◌, ◌⊎◌, true, false, some, List, [], ◌∷◌,
  arith, length, Option-cases, Bool-cases, Result-cases, inl, inr, contains, eq_iff, ◌==◌, ◌||◌,
}
use hacp.Grant.Org.{OrgChart, checked_chain, skip_first, find_in, lca}
use hacp.Grant.Org.Chains.{IsChain, root, up, IsChain-unique, checked_chain_iff}

contains-cons : (t x : String) (xs : List String) → contains t (x ∷ xs) ≡ (t == x || contains t xs)
unfolding contains
contains-cons t x xs = refl

contains-nil : (t : String) → contains t [] ≡ false
unfolding contains
contains-nil t = refl

-- Who stands on the chain of `a` is `a`, or has a shorter chain.
above :
    {org : OrgChart} {a : String} {path : List String} (t : String)
    → IsChain org a path
    → contains t path ≡ true
    → (pt : List String) × IsChain org t pt × ((t ≡ a) ⊎ (length pt < length path))
above {org} t (root a h) e =
    let same : t ≡ a = ground (arith, contains-cons t a [], contains-nil t, eq_iff t a) in
    (a ∷ [], subst (λ x. IsChain org x (a ∷ [])) (sym same) (root a h), inl same)
above {org} t (up a p path h c) e = elim (Bool-cases (t == a)) [
  | inl here ↦
      let same : t ≡ a = (eq_iff t a).0 here in
      (a ∷ path, subst (λ x. IsChain org x (a ∷ path)) (sym same) (up a p path h c), inl same)
  | inr there ↦
      let later : contains t path ≡ true = ground (arith, contains-cons t a path) in
      let (pt, chain, which) = above t c later in
      let shorter : (t ≡ p) ⊎ (length pt < length path) → length pt < suc (length path) = elim [
        | inl same ↦
            let equal = IsChain-unique (subst (λ x. IsChain org x pt) same chain) c in
            omega (arith, ap length equal)
        | inr less ↦ omega arith
      ] in
      (pt, chain, inr (shorter which))
]

find_in_sound :
    (set nodes : List String) (s : String)
    → find_in set nodes ≡ some s
    → (contains s nodes ≡ true) × (contains s set ≡ true)
find_in_sound set [] s h = absurd (ground arith)
find_in_sound set (x ∷ nodes) s h = (
  ground (arith, contains-cons s x nodes, eq_iff s x, find_in_sound set nodes s),
  ground (arith, eq_iff s x, find_in_sound set nodes s),
)

-- Of the nodes of a chain that lie in the set, the first found has all the others above it.
find_in_first :
    {org : OrgChart} {x : String} {nodes : List String} (set : List String) (s t : String)
    → IsChain org x nodes
    → find_in set nodes ≡ some s
    → contains t nodes ≡ true
    → contains t set ≡ true
    → (cs : List String) × IsChain org s cs × (contains t cs ≡ true)
find_in_first {org} set s t (root a h) f e m =
    let same : s ≡ a = ground arith in
    (a ∷ [], subst (λ z. IsChain org z (a ∷ [])) (sym same) (root a h), e)
find_in_first {org} set s t (up a p path h c) f e m = elim (Bool-cases (contains a set)) [
  | inl found ↦
      let same : s ≡ a = ground arith in
      (a ∷ path, subst (λ z. IsChain org z (a ∷ path)) (sym same) (up a p path h c), e)
  | inr missing ↦
      find_in_first set s t c (ground arith) (ground (arith, contains-cons t a path, eq_iff t a)) m
]

find_in_complete :
    (set nodes : List String) (s : String)
    → contains s nodes ≡ true
    → contains s set ≡ true
    → (t : String) × (find_in set nodes ≡ some t)
find_in_complete set [] s h k = absurd (ground (arith, contains-nil s))
find_in_complete set (x ∷ nodes) s h k = elim (Bool-cases (contains x set)) [
  | inl found ↦ (x, ground arith)
  | inr missing ↦
      let (t, e) =
        find_in_complete set nodes s (ground (arith, contains-cons s x nodes, eq_iff s x)) k in
      (t, ground arith)
]

-- A supervisor on the chain of `a` has a shorter chain than `a`.
supervisor_shorter :
    {org : OrgChart} {a : String} {path : List String} (s : String)
    → IsChain org a path
    → contains s (skip_first path) ≡ true
    → (ps : List String) × IsChain org s ps × (length ps < length path)
supervisor_shorter s (root a h) e = absurd (ground (arith, contains-nil s))
supervisor_shorter {org} s (up a p path h c) e =
    let (ps, chain, which) = above s c e in
    let shorter : (s ≡ p) ⊎ (length ps < length path) → length ps < suc (length path) = elim [
      | inl same ↦
          let equal = IsChain-unique (subst (λ x. IsChain org x ps) same chain) c in
          omega (arith, ap length equal)
      | inr less ↦ omega arith
    ] in
    (ps, chain, shorter which)

supervisor-ne :
    {org : OrgChart} {a : String} {path : List String} (s : String)
    → IsChain org a path
    → contains s (skip_first path) ≡ true
    → s ≢ a
supervisor-ne {org} {path} s c e same =
    let (ps, chain, shorter) = supervisor_shorter s c e in
    let equal = IsChain-unique (subst (λ x. IsChain org x ps) same chain) c in
    absurd (omega (arith, ap length equal))

first_supervisor :
    {org : OrgChart} {a : String} {path : List String} (set : List String) (s t : String)
    → IsChain org a path
    → find_in set (skip_first path) ≡ some s
    → contains t (skip_first path) ≡ true
    → contains t set ≡ true
    → (cs : List String) × IsChain org s cs × (contains t cs ≡ true)
first_supervisor set s t (root a h) f e m = absurd (ground arith)
first_supervisor set s t (up a p path h c) f e m = find_in_first set s t c f e m

-- The supervisors that are found from both sides are the same.
first_supervisors_agree :
    {org : OrgChart} {a b : String} {pa pb : List String} (s t : String)
    → IsChain org a pa
    → IsChain org b pb
    → find_in (skip_first pb) (skip_first pa) ≡ some s
    → find_in (skip_first pa) (skip_first pb) ≡ some t
    → s ≡ t
first_supervisors_agree {org} {pa} {pb} s t ca cb f g =
    let (s_a, s_b) = find_in_sound (skip_first pb) (skip_first pa) s f in
    let (t_b, t_a) = find_in_sound (skip_first pa) (skip_first pb) t g in
    let (cs, chain_s, t_above) = first_supervisor (skip_first pb) s t ca f t_a t_b in
    let (ct, chain_t, s_above) = first_supervisor (skip_first pa) t s cb g s_b s_a in
    let (ct', again_t, t_where) = above t chain_s t_above in
    let (cs', again_s, s_where) = above s chain_t s_above in
    let same_t = IsChain-unique chain_t again_t in
    let same_s = IsChain-unique chain_s again_s in settle ct' cs' same_t same_s t_where s_where
  where
    settle :
        {cs ct : List String} (ct' cs' : List String)
        → ct ≡ ct'
        → cs ≡ cs'
        → (t ≡ s) ⊎ (length ct' < length cs)
        → (s ≡ t) ⊎ (length cs' < length ct)
        → s ≡ t
    settle ct' cs' p q (inl same) k = sym same
    settle ct' cs' p q (inr h) (inl same) = same
    settle ct' cs' p q (inr h) (inr k) = absurd (omega (arith, ap length p, ap length q))

found_agree :
    {org : OrgChart} {a b : String} {pa pb : List String}
    → IsChain org a pa
    → IsChain org b pb
    → find_in (skip_first pb) (skip_first pa) ≡ find_in (skip_first pa) (skip_first pb)
found_agree {pa} {pb} ca cb = elim (Option-cases (find_in (skip_first pb) (skip_first pa))) [
  | inl missing ↦ elim (Option-cases (find_in (skip_first pa) (skip_first pb))) [
    | inl too ↦ missing ∙ sym too
    | inr (t, g) ↦
        let (t_b, t_a) = find_in_sound (skip_first pa) (skip_first pb) t g in
        let (s, f) = find_in_complete (skip_first pb) (skip_first pa) t t_a t_b in
        absurd (cc (sym missing ∙ f))
  ]
  | inr (s, f) ↦
      let (s_a, s_b) = find_in_sound (skip_first pb) (skip_first pa) s f in
      let (t, g) = find_in_complete (skip_first pa) (skip_first pb) s s_b s_a in
      f ∙ ap some (first_supervisors_agree s t ca cb f g) ∙ sym g
]

module _ (org : OrgChart) (a b : String) where
  -- The lowest common supervisor stands above both agents on their declared chains, is neither of
  -- them, and every common supervisor stands on its own chain: none is lower.
  pub lca_lowest :
      (s : String)
      → lca org a b ≡ some s
      → (pa : List String) × (pb : List String) × IsChain org a pa
        × IsChain org b pb
        × (contains s (skip_first pa) ≡ true)
        × (contains s (skip_first pb) ≡ true)
        × (s ≢ a)
        × (s ≢ b)
        × ((t : String)
            → contains t (skip_first pa) ≡ true
            → contains t (skip_first pb) ≡ true
            → (cs : List String) × IsChain org s cs × (contains t cs ≡ true))
  unfolding lca
  lca_lowest s h = elim (Result-cases (checked_chain org a)) [
    | inl (e, no_a) ↦ absurd (ground arith)
    | inr (pa, chain_a) ↦ elim (Result-cases (checked_chain org b)) [
      | inl (e, no_b) ↦ absurd (ground arith)
      | inr (pb, chain_b) ↦
          let f : find_in (skip_first pb) (skip_first pa) ≡ some s = ground arith in
          let ca = ((checked_chain_iff org a).0 pa).0 chain_a in
          let cb = ((checked_chain_iff org b).0 pb).0 chain_b in
          let (s_a, s_b) = find_in_sound (skip_first pb) (skip_first pa) s f in
          (
            pa,
            pb,
            ca,
            cb,
            s_a,
            s_b,
            supervisor-ne s ca s_a,
            supervisor-ne s cb s_b,
            λ t t_a t_b. first_supervisor (skip_first pb) s t ca f t_a t_b,
          )
    ]
  ]

  -- The lowest common supervisor does not depend on the order of the two agents.
  pub lca_comm : lca org a b ≡ lca org b a
  unfolding lca
  lca_comm = elim (Result-cases (checked_chain org a)) [
    | inl (e, no_a) ↦ elim (Result-cases (checked_chain org b)) [
      | inl (e', no_b) ↦ ground arith
      | inr (pb, chain_b) ↦ ground arith
    ]
    | inr (pa, chain_a) ↦ elim (Result-cases (checked_chain org b)) [
      | inl (e, no_b) ↦ ground arith
      | inr (pb, chain_b) ↦
          let ca = ((checked_chain_iff org a).0 pa).0 chain_a in
          let cb = ((checked_chain_iff org b).0 pb).0 chain_b in
          let both = found_agree ca cb in ground (arith, both)
    ]
  ]
