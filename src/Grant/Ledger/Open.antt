-- ===== src/Grant/Ledger/Open.antt =====
-- `is_open` of src/v2/grant.rs decides whether every grant on the lineage is in force.
use hacp.Common.{
  ℕ, zero, suc, ◌<◌, String, ◌≡◌, refl, sym, ◌∙◌, ap, subst, Bool, true, false, some, List, [], ◌∷◌,
  arith, length, is_some, is_some_and, Bool-cases, inl, inr, ok, all, ◌==◌, eq_iff, contains,
  set_insert, contains-set_insert, lookup,
}
use hacp.Canon.{Crates}
use hacp.Grant.Record.{check_timestamp}
use hacp.Grant.Ledger.{GrantLedger, in_force, open_walk, walk_fuel, is_open}
use hacp.Grant.Ledger.Walk.{open_walk_closed, open_walk_root, open_walk_up, open_walk_enough}
use hacp.Grant.Ledger.Invariant.{Grants, Lineage, top, link}

-- The grant is recorded, not revoked, and its window is open.
abbrev pub stands : GrantLedger → String → String → Bool
stands l at id = is_some_and (λ g. in_force l id g at) (lookup id l.grants)

pub Lineage-unique :
    {m : Grants} {id : String} {path other : List String}
    → Lineage m id path
    → Lineage m id other
    → path ≡ other
Lineage-unique (top id g h t) (top _ g' h' t') = refl
Lineage-unique (top id g h t) (link _ p g' path h' l c) = absurd (ground arith)
Lineage-unique (link id p g path h l c) (top _ g' h' t') = absurd (ground arith)
Lineage-unique {m} (link id p g path h l c) (link _ q g' other h' l' d) =
    let same : q ≡ p = ground arith in
    ap (λ rest. id ∷ rest) (Lineage-unique c (subst (λ x. Lineage m x other) same d))

-- What the walk has seen: grants whose lineages are longer than that of the current one.
abbrev pub SeenLonger : Grants → List String → List String → Type 0
SeenLonger m seen path =
    (s : String)
    → contains s seen ≡ true
    → (longer : List String) × Lineage m s longer × (length path < length longer)

pub unseen_current :
    {m : Grants} {id : String} {path : List String} (seen : List String)
    → Lineage m id path
    → SeenLonger m seen path
    → contains id seen ≡ false
unseen_current {id} seen c h = elim (Bool-cases (contains id seen)) [
  | inl again ↦
      let (longer, line, more) = h id again in
      let same = Lineage-unique c line in absurd (omega (arith, ap length same))
  | inr new ↦ new
]

pub SeenLonger-up :
    {m : Grants} {id : String} {path : List String} (seen : List String)
    → Lineage m id (id ∷ path)
    → SeenLonger m seen (id ∷ path)
    → SeenLonger m (set_insert id seen) path
SeenLonger-up {m} {id} {path} seen c h s e = elim (Bool-cases (s == id)) [
  | inl here ↦
      let same : s ≡ id = (eq_iff s id).0 here in
      (id ∷ path, subst (λ x. Lineage m x (id ∷ path)) (sym same) c, omega arith)
  | inr other ↦
      let old : contains s seen ≡ true = ground (arith, contains-set_insert id s seen) in
      let (longer, line, more) = h s old in (longer, line, omega arith)
]

module _ (l : GrantLedger) (at : String) where
  open_walk-Lineage :
      (fuel : ℕ) (seen : List String) {id : String} {path : List String}
      → Lineage l.grants id path
      → SeenLonger l.grants seen path
      → is_some (open_walk fuel l at seen id) ≡ true
      → open_walk fuel l at seen id ≡ some (ok (all (stands l at) path))
  open_walk-Lineage zero seen c h t = absurd (unfold open_walk in cc t)
  open_walk-Lineage (suc fuel) seen (top id g found t) h some_answer =
      let new = unseen_current seen (top id g found t) h in
      elim (Bool-cases (in_force l id g at)) [
        | inl stands_now ↦ ground (arith, open_walk_root l at fuel seen id g new found stands_now t)
        | inr falls ↦ ground (arith, open_walk_closed l at fuel seen id g new found falls)
      ]
  open_walk-Lineage (suc fuel) seen (link id p g path found linked c) h some_answer =
      let whole = link id p g path found linked c in
      let new = unseen_current seen whole h in
      elim (Bool-cases (in_force l id g at)) [
        | inl stands_now ↦
            let step = open_walk_up l at fuel seen id p g new found stands_now linked in
            let rest =
              open_walk-Lineage fuel (set_insert id seen) c (SeenLonger-up seen whole h)
                (sym (ap is_some step) ∙ some_answer) in
            ground (arith, step, rest)
        | inr falls ↦ ground (arith, open_walk_closed l at fuel seen id g new found falls)
      ]

-- At a valid timestamp, a grant that descends from a charter is open exactly if every grant on its
-- lineage is recorded, not revoked, and in its window; the walk ends without reporting a cycle.
pub is_open-Lineage :
    (crates : Crates) (l : GrantLedger) (id at : String) (path : List String)
    → Lineage l.grants id path
    → check_timestamp crates at ≡ ok tt
    → is_open crates l id at ≡ ok (all (stands l at) path)
unfolding is_open
is_open-Lineage crates l id at path c h =
    let nothing : SeenLonger l.grants [] path = λ s e. absurd (unfold contains in cc e) in
    rw h (rw (open_walk-Lineage l at (walk_fuel l) [] c nothing (open_walk_enough l at id)))
