-- ===== src/Grant/Org/Walk.antt =====
-- The walk up the chart of src/v2/grant.rs, one step at a time, and that it ends.
use hacp.Common.{
  ℕ, zero, suc, ◌<◌, String, ◌≡◌, refl, true, false, Option, none, some, List, [], arith, is_some,
  Option-cases, Bool-cases, inl, inr, Result, ok, err, contains, set_insert, lookup, unseen,
  unseen-insert_lt,
}
use hacp.Grant.Record.{GrantError, cycle}
use hacp.Grant.Org.{OrgChart, push, climb}

pub climb_root :
    (fuel : ℕ) (org : OrgChart) (seen : List String) (current : String)
    → lookup current org.parent_of ≡ none
    → climb (suc fuel) org seen current ≡ some (ok [])
unfolding climb
climb_root fuel org seen current h = rw (h, climb)

pub climb_up :
    (fuel : ℕ) (org : OrgChart) (seen : List String) (current parent : String)
    → lookup current org.parent_of ≡ some parent
    → contains parent seen ≡ false
    → climb (suc fuel) org seen current
      ≡ push parent (climb fuel org (set_insert parent seen) parent)
unfolding climb
climb_up fuel org seen current parent h n = rw (h, climb) (rw (n, climb))

pub climb_cycle :
    (fuel : ℕ) (org : OrgChart) (seen : List String) (current parent : String)
    → lookup current org.parent_of ≡ some parent
    → contains parent seen ≡ true
    → climb (suc fuel) org seen current ≡ some (err (cycle parent))
unfolding climb
climb_cycle fuel org seen current parent h n = rw (h, climb) (rw (n, climb))

pub is_some-push :
    (p : String) (r : Option (Result GrantError (List String))) → is_some (push p r) ≡ is_some r
is_some-push p none = refl
is_some-push p (some (ok path)) = refl
is_some-push p (some (err e)) = refl

pub climb_total :
    (fuel : ℕ) (org : OrgChart) (seen : List String) (current : String)
    → suc (unseen seen org.parent_of) < fuel
    → is_some (climb fuel org seen current) ≡ true
climb_total zero org seen current h = absurd (omega arith)
climb_total (suc zero) org seen current h = absurd (omega arith)
climb_total (suc (suc fuel)) org seen current h =
    elim (Option-cases (lookup current org.parent_of)) [
      | inl root ↦ rw (climb_root (suc fuel) org seen current root)
      | inr (p, up) ↦ elim (Bool-cases (contains p seen)) [
        | inl again ↦ rw (climb_cycle (suc fuel) org seen current p up again)
        | inr new ↦ rw (climb_up (suc fuel) org seen current p up new) (
            rw is_some-push (elim (Option-cases (lookup p org.parent_of)) [
              | inl top ↦ rw (climb_root fuel org (set_insert p seen) p top)
              | inr (q, below) ↦ ground (
                arith,
                unseen-insert_lt p q seen org.parent_of,
                climb_total (suc fuel) org (set_insert p seen) p,
              )
            ]))
      ]
    ]
