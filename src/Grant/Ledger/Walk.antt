-- ===== src/Grant/Ledger/Walk.antt =====
-- The walk of `is_open` in src/v2/grant.rs, one step at a time, and that it ends.
use hacp.Common.{
  ℕ, zero, suc, ◌<◌, String, ◌≡◌, true, false, none, some, List, [], arith, is_some, Option-cases,
  Bool-cases, inl, inr, ok, err, contains, set_insert, lookup, unseen, unseen-le-length,
  unseen-insert_lt,
}
use hacp.Grant.Record.{CapabilityGrant, cycle, unknown_grant}
use hacp.Grant.Ledger.{GrantLedger, in_force, open_walk, walk_fuel}

module _ (l : GrantLedger) (at : String) where
  pub open_walk_unknown :
      (fuel : ℕ) (seen : List String) (id : String)
      → contains id seen ≡ false
      → lookup id l.grants ≡ none
      → open_walk (suc fuel) l at seen id ≡ some (err (unknown_grant id))
  unfolding open_walk
  open_walk_unknown fuel seen id new h = rw (new, open_walk) (rw (h, open_walk))

  pub open_walk_seen :
      (fuel : ℕ) (seen : List String) (id : String)
      → contains id seen ≡ true
      → open_walk (suc fuel) l at seen id ≡ some (err (cycle id))
  unfolding open_walk
  open_walk_seen fuel seen id h = rw (h, open_walk)

  pub open_walk_closed :
      (fuel : ℕ) (seen : List String) (id : String) (g : CapabilityGrant)
      → contains id seen ≡ false
      → lookup id l.grants ≡ some g
      → in_force l id g at ≡ false
      → open_walk (suc fuel) l at seen id ≡ some (ok false)
  unfolding open_walk
  open_walk_closed fuel seen id g new h closed =
      rw (new, open_walk) (rw (h, open_walk) (rw (closed, open_walk)))

  pub open_walk_root :
      (fuel : ℕ) (seen : List String) (id : String) (g : CapabilityGrant)
      → contains id seen ≡ false
      → lookup id l.grants ≡ some g
      → in_force l id g at ≡ true
      → g.parent ≡ none
      → open_walk (suc fuel) l at seen id ≡ some (ok true)
  unfolding open_walk
  open_walk_root fuel seen id g new h open_now top =
      rw (new, open_walk) (rw (h, open_walk) (rw (open_now, open_walk) (rw (top, open_walk))))

  pub open_walk_up :
      (fuel : ℕ) (seen : List String) (id parent : String) (g : CapabilityGrant)
      → contains id seen ≡ false
      → lookup id l.grants ≡ some g
      → in_force l id g at ≡ true
      → g.parent ≡ some parent
      → open_walk (suc fuel) l at seen id ≡ open_walk fuel l at (set_insert id seen) parent
  unfolding open_walk
  open_walk_up fuel seen id parent g new h open_now linked =
      rw (new, open_walk) (rw (h, open_walk) (rw (open_now, open_walk) (rw (linked, open_walk))))

  pub open_walk_total :
      (fuel : ℕ) (seen : List String) (id : String)
      → unseen seen l.grants < fuel
      → is_some (open_walk fuel l at seen id) ≡ true
  open_walk_total zero seen id h = absurd (omega arith)
  open_walk_total (suc fuel) seen id h = elim (Bool-cases (contains id seen)) [
    | inl again ↦ ground (arith, open_walk_seen fuel seen id again)
    | inr new ↦ elim (Option-cases (lookup id l.grants)) [
      | inl missing ↦ ground (arith, open_walk_unknown fuel seen id new missing)
      | inr (g, found) ↦ elim (Bool-cases (in_force l id g at)) [
        | inr closed ↦ ground (arith, open_walk_closed fuel seen id g new found closed)
        | inl open_now ↦ elim (Option-cases g.parent) [
          | inl top ↦ ground (arith, open_walk_root fuel seen id g new found open_now top)
          | inr (p, linked) ↦ rw (open_walk_up fuel seen id p g new found open_now linked) (
              open_walk_total fuel (set_insert id seen) p
                (omega (arith, unseen-insert_lt id g seen l.grants found new)))
        ]
      ]
    ]
  ]

  -- The fuel is enough: the walk never runs out of it.
  pub open_walk_enough : (id : String) → is_some (open_walk (walk_fuel l) l at [] id) ≡ true
  open_walk_enough id =
      open_walk_total (walk_fuel l) [] id (omega (arith, unseen-le-length [] l.grants))
