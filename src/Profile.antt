-- ===== src/Profile.antt =====
-- src/v2/profile.rs: the recursive pairwise profile over the chart and the ledger.
mod Arity
mod Examples
use Prim.Native.String.{◌++◌}
use hacp.Common.{
  ℕ, String, Bool, true, false, not, ◌&&◌, ◌||◌, Option, none, some, List, [], ◌∷◌, any, find,
  length, ltb, contains, set_extend, values, Result, ok, err, ◌>>◌, fail_if, map_err, ok_or,
  attempt, if◌then◌else◌, ◌==◌,
}
use hacp.Canon.{Crates}
use hacp.Grant.Record.{ScopeElement, CapabilityGrant, GrantError, chain_mismatch, not_delegable}
use hacp.Grant.Org.{OrgChart, children}
use hacp.Grant.Org
use hacp.Grant.Ledger.{GrantLedger, held_by, issue}

abbrev pub hive_profile : String
hive_profile = "hive-recursive-pairwise/1"

abbrev pub max_direct_subordinates : ℕ
max_direct_subordinates = 2

pub data ProfileError : Type 0 where
  arity_exceeded : (agent : String) → (count max : ℕ) → ProfileError
  not_declared : String → ProfileError
  invalid_org : GrantError → ProfileError

-- `HiveProfile::binds`.
unfoldable pub binds : List String → List String → Bool
binds features_a features_b =
    any (λ f. f == hive_profile) features_a && any (λ f. f == hive_profile) features_b

-- The supervisors, sorted and without repetitions.
unfoldable pub supervisors : OrgChart → List String
unfolding set_extend
supervisors org = set_extend (values org.parent_of) []

-- The loop over the supervisors.
unfoldable pub check_arity : OrgChart → List String → Result ProfileError Unit
unfolding children
check_arity org [] = ok tt
check_arity org (supervisor ∷ rest) =
    let count = length (children org supervisor) in
    fail_if (ltb max_direct_subordinates count)
      (arity_exceeded supervisor count max_direct_subordinates)
    >> check_arity org rest

unfoldable pub validate_org : OrgChart → Result ProfileError Unit
unfolding Org.validate supervisors check_arity
validate_org org = map_err invalid_org (Org.validate org) >> check_arity org (supervisors org)

-- A scope of a name that may be delegated.
abbrev delegates : String → CapabilityGrant → Bool
delegates scope g = any (λ (s : ScopeElement). s.name == scope && s.delegable) g.scopes

module _ (crates : Crates) where
  unfoldable pub authorize_siblings :
      GrantLedger
      → OrgChart
      → (supervisor child peer task_class grant_id valid_from valid_until : String)
      → GrantLedger × Result GrantError Unit
  unfolding children Org.validate held_by issue contains
  authorize_siblings l org supervisor child peer task_class grant_id valid_from valid_until =
      let subordinates = children org supervisor in
      if child == peer || not (contains child subordinates) || not (contains peer subordinates)
      then (l, err (chain_mismatch supervisor peer))
      else attempt l (Org.validate org) (λ _.
        let scope = "cross-branch/" ++ task_class in
        attempt l
          (ok_or (find (delegates scope) (held_by crates l supervisor valid_from))
            (not_delegable scope))
          (λ upstream.
            issue crates l
              (record {
                grant_id = grant_id;
                grantor = supervisor;
                grantee = child;
                scopes = (record { name = scope; delegable = false }) ∷ [];
                valid_from = valid_from;
                valid_until = valid_until;
                parent = some upstream.grant_id;
                peer = some peer;
              })
              valid_from))

abbrev pub supervisor_verifier_independent : String → String → Bool
supervisor_verifier_independent supervisor verifier = not (supervisor == verifier)
