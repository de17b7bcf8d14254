-- ===== src/Grant/Org/Chains.antt =====
-- The walk up the chart of src/v2/grant.rs finds the declared chain.
use hacp.Common.{
  ℕ, zero, suc, ◌≤◌, String, ◌≡◌, refl, sym, ◌∙◌, ap, subst, ◌↔◌, true, false, Option, none, some,
  List, [], ◌∷◌, arith, length, is_some, Option-cases, Bool-cases, inl, inr, Result, ok, err,
  contains, set_insert, contains-set_insert, lookup, unseen-le-length, eq_iff, eq_refl, ◌==◌, ◌⊎◌,
}
use hacp.Grant.Record.{GrantError, cycle}
use hacp.Grant.Org.{OrgChart, push, climb, climb_fuel, checked_chain, skip_first}
use hacp.Grant.Org.Walk.{climb_root, climb_up, climb_cycle, is_some-push, climb_total}

-- The declared chain of an agent: from it up to a root, each next one the parent of the one before.
pub data IsChain (org : OrgChart) : String → List String → Type 0 where
  root : (a : String) → lookup a org.parent_of ≡ none → IsChain org a (a ∷ [])
  up :
      (a p : String) (path : List String)
      → lookup a org.parent_of ≡ some p
      → IsChain org p path
      → IsChain org a (a ∷ path)

push-eq-ok :
    (p : String) (r : Option (Result GrantError (List String))) (path : List String)
    → push p r ≡ some (ok path)
    → (rest : List String) × (r ≡ some (ok rest)) × (path ≡ p ∷ rest)
push-eq-ok p (some (ok rest)) path h = (rest, refl, ground arith)
push-eq-ok p none path h = absurd (ground arith)
push-eq-ok p (some (err e)) path h = absurd (ground arith)

climb_sound :
    (fuel : ℕ) (org : OrgChart) (seen : List String) (current : String) (path : List String)
    → climb fuel org seen current ≡ some (ok path)
    → IsChain org current (current ∷ path)
climb_sound zero org seen current path h = absurd (unfold climb in ground arith)
climb_sound (suc fuel) org seen current path h =
    elim (Option-cases (lookup current org.parent_of)) [
      | inl top ↦
          let e : path ≡ [] = ground (arith, climb_root fuel org seen current top) in
          rw e (root current top)
      | inr (p, found) ↦ elim (Bool-cases (contains p seen)) [
        | inl again ↦ absurd (ground (arith, climb_cycle fuel org seen current p found again))
        | inr new ↦
            let (rest, e, same) =
              push-eq-ok p (climb fuel org (set_insert p seen) p) path
                (sym (climb_up fuel org seen current p found new) ∙ h) in
            rw same
              (up current p (p ∷ rest) found (climb_sound fuel org (set_insert p seen) p rest e))
      ]
    ]

-- Two chains of one agent are the same.
pub IsChain-unique :
    {org : OrgChart} {a : String} {path other : List String}
    → IsChain org a path
    → IsChain org a other
    → path ≡ other
IsChain-unique (root a h) (root _ k) = refl
IsChain-unique (root a h) (up _ p path k c) = absurd (ground arith)
IsChain-unique (up a p path h c) (root _ k) = absurd (ground arith)
IsChain-unique {org} (up a p path h c) (up _ q other k d) =
    let same : q ≡ p = ground arith in
    ap (λ rest. a ∷ rest) (IsChain-unique c (subst (λ x. IsChain org x other) same d))

-- What the walk has seen: agents whose chains are at least as long as that of the current one.
abbrev SeenAbove : OrgChart → List String → List String → Type 0
SeenAbove org seen path =
    (s : String)
    → contains s seen ≡ true
    → (above : List String) × IsChain org s above × (length path ≤ length above)

SeenAbove-up :
    {org : OrgChart} (seen : List String) (p : String) {path : List String} (current : String)
    → IsChain org p path
    → SeenAbove org seen (current ∷ path)
    → SeenAbove org (set_insert p seen) path
SeenAbove-up {org} seen p {path} current c h s e = elim (Bool-cases (s == p)) [
  | inl here ↦
      let same : s ≡ p = (eq_iff s p).0 here in
      (path, subst (λ x. IsChain org x path) (sym same) c, omega arith)
  | inr other ↦
      let old : contains s seen ≡ true = ground (arith, contains-set_insert p s seen) in
      let (above, chain, longer) = h s old in (above, chain, omega arith)
]

-- The parent of the current agent is not yet seen: its chain is shorter than any that was.
unseen_parent :
    {org : OrgChart} (seen : List String) (current p : String) (path : List String)
    → IsChain org p path
    → SeenAbove org seen (current ∷ path)
    → contains p seen ≡ false
unseen_parent seen current p path c h = elim (Bool-cases (contains p seen)) [
  | inl again ↦
      let (above, chain, longer) = h p again in
      let same = IsChain-unique c chain in absurd (omega (arith, ap length same))
  | inr new ↦ new
]

IsChain-head :
    {org : OrgChart} {a : String} {path : List String}
    → IsChain org a path
    → a ∷ skip_first path ≡ path
IsChain-head (root a h) = refl
IsChain-head (up a p path h c) = refl

climb_complete :
    (fuel : ℕ) {org : OrgChart} (seen : List String) {current : String} {path : List String}
    → IsChain org current path
    → SeenAbove org seen path
    → is_some (climb fuel org seen current) ≡ true
    → climb fuel org seen current ≡ some (ok (skip_first path))
climb_complete zero seen c h t = absurd (unfold climb in cc t)
climb_complete (suc fuel) {org} seen (root a top) h t = climb_root fuel org seen a top
climb_complete (suc fuel) {org} seen (up a p path found c) h t =
    let new = unseen_parent seen a p path c h in
    let step = climb_up fuel org seen a p found new in
    let inner : is_some (climb fuel org (set_insert p seen) p) ≡ true =
      sym (is_some-push p _) ∙ sym (ap is_some step) ∙ t in
    let rest = climb_complete fuel (set_insert p seen) c (SeenAbove-up seen p a c h) inner in
    step ∙ ap (push p) rest ∙ ap (λ l. some (ok l)) (IsChain-head c)

push-eq-err :
    (p : String) (r : Option (Result GrantError (List String))) (e : GrantError)
    → push p r ≡ some (err e)
    → r ≡ some (err e)
push-eq-err p none e h = absurd (ground arith)
push-eq-err p (some (ok path)) e h = absurd (ground arith)
push-eq-err p (some (err x)) e h = ground arith

-- One or more steps up the chart lead from one agent to another.
pub data IsAbove (org : OrgChart) : String → String → Type 0 where
  parent : (a p : String) → lookup a org.parent_of ≡ some p → IsAbove org a p
  beyond : (a b p : String) → IsAbove org a b → lookup b org.parent_of ≡ some p → IsAbove org a p

-- What the walk has seen: the current agent, and agents that it came up from.
abbrev SeenBelow : OrgChart → List String → String → Type 0
SeenBelow org seen current =
    (s : String) → contains s seen ≡ true → (s ≡ current) ⊎ IsAbove org s current

-- The parent of the current agent is above all that the walk has seen.
parent-IsAbove :
    {org : OrgChart} (seen : List String) {current : String} (p : String)
    → SeenBelow org seen current
    → lookup current org.parent_of ≡ some p
    → (s : String) → contains s seen ≡ true
    → IsAbove org s p
parent-IsAbove {org} seen {current} p below found s h = elim (below s h) [
  | inl same ↦ subst (λ x. IsAbove org x p) (sym same) (parent current p found)
  | inr under ↦ beyond s current p under found
]

SeenBelow-up :
    {org : OrgChart} (seen : List String) {current : String} (p : String)
    → SeenBelow org seen current
    → lookup current org.parent_of ≡ some p
    → SeenBelow org (set_insert p seen) p
SeenBelow-up seen p below found s h = elim (Bool-cases (s == p)) [
  | inl here ↦ inl ((eq_iff s p).0 here)
  | inr other ↦
      let old : contains s seen ≡ true = ground (arith, contains-set_insert p s seen) in
      inr (parent-IsAbove seen p below found s old)
]

-- What an error of the walk says: a cycle, at an agent above itself and above all that was seen.
abbrev pub ReportsCycle : OrgChart → List String → GrantError → Type 0
ReportsCycle org seen e =
    (p : String) × (e ≡ cycle p)
    × IsAbove org p p
    × ((s : String) → contains s seen ≡ true → IsAbove org s p)

climb_err :
    (fuel : ℕ) (org : OrgChart) (seen : List String) (current : String) (e : GrantError)
    → SeenBelow org seen current
    → climb fuel org seen current ≡ some (err e)
    → ReportsCycle org seen e
climb_err zero org seen current e below h = absurd (unfold climb in ground arith)
climb_err (suc fuel) org seen current e below h =
    elim (Option-cases (lookup current org.parent_of)) [
      | inl top ↦ absurd (ground (arith, climb_root fuel org seen current top))
      | inr (p, found) ↦
          let higher = parent-IsAbove seen p below found in
          elim (Bool-cases (contains p seen)) [
            | inl again ↦
                let same : e ≡ cycle p =
                  ground (arith, climb_cycle fuel org seen current p found again) in
                (p, same, higher p again, higher)
            | inr new ↦
                let step = climb_up fuel org seen current p found new in
                let (q, same, loop, above) =
                  climb_err fuel org (set_insert p seen) p e (SeenBelow-up seen p below found)
                    (push-eq-err p _ e (sym step ∙ h)) in
                (q, same, loop, λ s old. above s (ground (arith, contains-set_insert p s seen)))
          ]
    ]

contains-single : (a : String) → contains a (set_insert a []) ≡ true
contains-single a = ground (arith, contains-set_insert a a [], eq_refl a)

only_seen : (a s : String) → contains s (set_insert a []) ≡ true → s ≡ a
unfolding contains
only_seen a s h = ground (arith, contains-set_insert a s [], eq_iff s a)

module _ (org : OrgChart) (a : String) where
  -- The fuel is enough: the walk never runs out of it.
  pub climb_enough : is_some (climb (climb_fuel org) org (set_insert a []) a) ≡ true
  climb_enough =
      climb_total (climb_fuel org) org (set_insert a []) a
        (omega (arith, unseen-le-length (set_insert a []) org.parent_of))

  checked-ReportsCycle :
      (e : GrantError) → checked_chain org a ≡ err e → ReportsCycle org (set_insert a []) e
  unfolding checked_chain
  checked-ReportsCycle e h = elim (Option-cases (climb (climb_fuel org) org (set_insert a []) a)) [
    | inl out ↦ absurd (ground (arith, climb_enough))
    | inr (ok rest, found) ↦ absurd (ground arith)
    | inr (err x, found) ↦
        climb_err (climb_fuel org) org (set_insert a []) a e (λ s h. inl (only_seen a s h))
          (ground arith)
  ]

  IsChain-of_checked : (path : List String) → checked_chain org a ≡ ok path → IsChain org a path
  unfolding checked_chain
  IsChain-of_checked path h = elim (Option-cases (climb (climb_fuel org) org (set_insert a []) a)) [
    | inl e ↦ absurd (ground (arith, climb_enough))
    | inr (ok rest, e) ↦
        let same : path ≡ a ∷ rest = ground arith in
        rw same (climb_sound (climb_fuel org) org (set_insert a []) a rest e)
    | inr (err x, e) ↦ absurd (ground arith)
  ]

  checked_of_chain : (path : List String) → IsChain org a path → checked_chain org a ≡ ok path
  unfolding checked_chain
  checked_of_chain path c =
      let start : SeenAbove org (set_insert a []) path = λ s e.
        let same : s ≡ a = only_seen a s e in
        (path, subst (λ x. IsChain org x path) (sym same) c, omega arith) in
      let found = climb_complete (climb_fuel org) (set_insert a []) c start climb_enough in
      rw found (ap ok (IsChain-head c))

  -- The walk up the chart ends by itself. It answers with a list exactly if the list is the agent's
  -- declared chain, from the agent up to a root. Every error is a cycle, at an agent that stands above
  -- the first agent and above itself.
  pub checked_chain_iff :
      ((path : List String) → (checked_chain org a ≡ ok path) ↔ IsChain org a path)
      × ((e : GrantError)
          → checked_chain org a ≡ err e
          → (p : String) × (e ≡ cycle p) × IsAbove org a p × IsAbove org p p)
  checked_chain_iff = (λ path. (IsChain-of_checked path, checked_of_chain path), failure)
    where
      failure :
          (e : GrantError)
          → checked_chain org a ≡ err e
          → (p : String) × (e ≡ cycle p) × IsAbove org a p × IsAbove org p p
      failure e h =
          let (p, same, loop, above) = checked-ReportsCycle e h in
          (p, same, above a (contains-single a), loop)
