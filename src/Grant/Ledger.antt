-- ===== src/Grant/Ledger.antt =====
-- `GrantLedger` of src/v2/grant.rs, the enforcement point of delegation. A walk up the parent grants
-- takes fuel, and `none` says that the fuel ran out.
pub mod Ops
pub mod Walk
pub mod Invariant
pub mod Open
pub mod Authority
pub mod Revocation
pub mod Peers
use Prim.Native.String.{◌++◌}
use hacp.Common.{
  ℕ, zero, suc, String, Bool, true, false, not, ◌&&◌, ◌||◌, Option, none, some, List, [], ◌∷◌,
  if◌then◌else◌, length, any, filter, Result, ok, err, ◌>>=◌, ◌>>◌, fail_if, ok_or, unwrap_or,
  attempt, ◌==◌, contains, set_insert, lookup, insert, values,
}
use hacp.Canon.{Crates}
use hacp.Canon.Sort.{sort_by_key}
use hacp.Grant.Record.{
  ScopeElement, CapabilityGrant, GrantError, not_delegable, unknown_grant, closed_grant,
  chain_mismatch, duplicate_grant, cycle, or_diverges, check_timestamp, check_shape, window_open,
  delegable, same_grant,
}
use hacp.Grant.Org.{OrgChart, same_parent}

pub record GrantLedger : Type 0 where
  pub grants : List (String × CapabilityGrant)
  pub revoked : List String

-- `GrantLedger::default()`.
abbrev pub empty_ledger : GrantLedger
empty_ledger = record { grants = []; revoked = [] }

unfoldable pub grant : GrantLedger → String → Result GrantError CapabilityGrant
grant l grant_id = ok_or (lookup grant_id l.grants) (unknown_grant grant_id)

-- `self.revoked.contains(id) || !grant.window_open(at)`, negated.
abbrev pub in_force : GrantLedger → String → CapabilityGrant → String → Bool
in_force l id g at = not (contains id l.revoked) && window_open g at

-- The loop of `is_open`.
unfoldable pub open_walk :
    ℕ → GrantLedger → String → List String → String → Option (Result GrantError Bool)
open_walk zero l at seen id = none
open_walk (suc fuel) l at seen id = elim (contains id seen) [
  | true ↦ some (err (cycle id))
  | false ↦ elim (lookup id l.grants) [
    | none ↦ some (err (unknown_grant id))
    | some g ↦ elim (in_force l id g at) [
      | false ↦ some (ok false)
      | true ↦ elim g.parent [
        | none ↦ some (ok true)
        | some parent ↦ open_walk fuel l at (set_insert id seen) parent
      ]
    ]
  ]
]

-- Enough fuel for every walk.
abbrev pub walk_fuel : GrantLedger → ℕ
walk_fuel l = suc (suc (length l.grants))

-- The loop of `preauthorization_allows_peer`: whether some grant on the chain is restricted to the
-- peer, or `none` where one is restricted to another.
unfoldable pub peer_walk :
    ℕ → GrantLedger → String → Bool → String → Option (Result GrantError (Option Bool))
peer_walk zero l peer restricted id = none
peer_walk (suc fuel) l peer restricted id = elim (lookup id l.grants) [
  | none ↦ some (err (unknown_grant id))
  | some g ↦ elim g.peer [
    | none ↦ elim g.parent [
      | none ↦ some (ok (some restricted))
      | some parent ↦ peer_walk fuel l peer restricted parent
    ]
    | some bound ↦ elim (bound == peer) [
      | false ↦ some (ok none)
      | true ↦ elim g.parent [
        | none ↦ some (ok (some true))
        | some parent ↦ peer_walk fuel l peer true parent
      ]
    ]
  ]
]

abbrev allows : Option Bool → Bool → Bool
allows none siblings = false
allows (some restricted) siblings = not (restricted && not siblings)

unfoldable pub preauthorization_allows_peer :
    GrantLedger → String → OrgChart → String → String → Result GrantError Bool
preauthorization_allows_peer l grant_id org requester peer = do
  walked ← or_diverges (peer_walk (walk_fuel l) l peer false grant_id)
  ok (
      allows walked (
        not (requester == peer)
        && same_parent (lookup requester org.parent_of) (lookup peer org.parent_of)))

-- `upstream.get(name)` is `Some(true)`.
abbrev pub is_delegable : List (String × Bool) → String → Bool
is_delegable upstream name = elim (lookup name upstream) [ some true ↦ true | _ ↦ false ]

unfoldable pub check_scopes : List (String × Bool) → List ScopeElement → Result GrantError Unit
check_scopes upstream [] = ok tt
check_scopes upstream (s ∷ scopes) =
    if is_delegable upstream s.name
    then check_scopes upstream scopes
    else err (not_delegable s.name)

abbrev pub has_scope : String → CapabilityGrant → Bool
has_scope name g = any (λ (s : ScopeElement). s.name == name) g.scopes

abbrev pub cross_branch : String → String
cross_branch task_class = "cross-branch/" ++ task_class

abbrev pub find_grant : String → List CapabilityGrant → Option String
find_grant wanted [] = none
find_grant wanted (g ∷ held) =
    if has_scope wanted g then some g.grant_id else find_grant wanted held

module _ (crates : Crates) where
  unfoldable pub is_open : GrantLedger → String → String → Result GrantError Bool
  is_open l grant_id at = do
    check_timestamp crates at
    or_diverges (open_walk (walk_fuel l) l at [] grant_id)

  unfoldable pub check_parent :
      GrantLedger → CapabilityGrant → String → String → Result GrantError Unit
  unfolding is_open
  check_parent l g at parent_id = do
    parent ← ok_or (lookup parent_id l.grants) (unknown_grant parent_id)
    open_now ← is_open l parent_id at
    fail_if (not open_now) (closed_grant parent_id)
    fail_if (not (parent.grantee == g.grantor)) (chain_mismatch g.grantor parent.grantee)
    check_scopes (delegable parent) g.scopes

  abbrev check_link :
      GrantLedger → CapabilityGrant → String → Option String → Result GrantError Unit
  check_link l g at none = ok tt
  check_link l g at (some parent_id) = check_parent l g at parent_id

  unfoldable pub issue :
      GrantLedger → CapabilityGrant → String → GrantLedger × Result GrantError Unit
  issue l g at = attempt l (check_shape crates g) λ _. attempt l (check_timestamp crates at) λ _.
      elim (lookup g.grant_id l.grants) [
        | some existing ↦
            if same_grant existing g then (l, ok tt) else (l, err (duplicate_grant g.grant_id))
        | none ↦
            attempt l (check_link l g at g.parent)
              λ _. (record l { grants = insert g.grant_id g l.grants }, ok tt)
      ]

  -- The grants stand in the order of their ids.
  unfoldable pub held_by : GrantLedger → String → String → List CapabilityGrant
  unfolding sort_by_key
  held_by l agent at =
      filter
        (λ (g : CapabilityGrant). g.grantee == agent && unwrap_or false (is_open l g.grant_id at))
        (values (sort_by_key l.grants))

  unfoldable pub covers : GrantLedger → String → String → String → Bool
  unfolding held_by
  covers l agent scope at = any (has_scope scope) (held_by l agent at)

  unfoldable pub preauthorizes : GrantLedger → String → String → String → Option String
  unfolding held_by
  preauthorizes l agent task_class at = find_grant (cross_branch task_class) (held_by l agent at)

unfoldable pub revoke : GrantLedger → String → GrantLedger × Result GrantError Unit
revoke l grant_id = elim (lookup grant_id l.grants) [
  | some _ ↦ (record l { revoked = set_insert grant_id l.revoked }, ok tt)
  | none ↦ (l, err (unknown_grant grant_id))
]
