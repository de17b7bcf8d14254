-- ===== src/Grant/Record.antt =====
-- `CapabilityGrant` of src/v2/grant.rs and its errors. `crates` stands for the crates that check a
-- timestamp.
use hacp.Common.{
  String, Bool, true, false, not, ◌&&◌, Option, none, some, List, [], ◌∷◌, if◌then◌else◌, Result,
  ok, err, ◌>>◌, fail_if, map_err, str_le, str_lt, ◌==◌, insert,
}
use hacp.Envelope.Urn
use hacp.Envelope.Urn.{UrnError}
use hacp.Artifact.Shape.{is_hex_id}
use hacp.Canon.{Crates, validate_timestamp}

pub record ScopeElement : Type 0 where
  pub name : String
  pub delegable : Bool

pub record CapabilityGrant : Type 0 where
  pub grant_id : String
  pub grantor : String
  pub grantee : String
  pub scopes : List ScopeElement
  pub valid_from : String
  pub valid_until : String
  pub parent : Option String
  pub peer : Option String

-- The text of `BadUrn`: the URN, or why it is refused.
pub data BadUrnText : Type 0 where
  the_urn : String → BadUrnText
  why : UrnError → BadUrnText

pub data GrantError : Type 0 where
  not_delegable : String → GrantError
  unknown_grant : String → GrantError
  closed_grant : String → GrantError
  chain_mismatch : (grantor grantee : String) → GrantError
  bad_window : (from until : String) → GrantError
  bad_id : String → GrantError
  bad_urn : BadUrnText → GrantError
  bad_timestamp : String → GrantError
  duplicate_grant : String → GrantError
  cycle : String → GrantError
  -- No error of the code: the fuel of a walk ran out.
  diverges : GrantError

-- The answer of a walk, or `diverges` where its fuel ran out.
abbrev pub or_diverges : {A : Type 0} → Option (Result GrantError A) → Result GrantError A
or_diverges none = err diverges
or_diverges (some r) = r

abbrev pub hex_id : String → String → Result GrantError Unit
hex_id prefix id = if is_hex_id prefix id then ok tt else err (bad_id id)

abbrev pub deployment_charterer : String
deployment_charterer = "deployment"

abbrev pub check_urn : String → Result GrantError String
check_urn urn = map_err (λ e. bad_urn (the_urn urn)) (Urn.parse urn)

abbrev check_peer : Option String → Result GrantError String
check_peer none = ok ""
check_peer (some peer) = check_urn peer

-- A charter by the deployment itself has no URN to check.
abbrev check_grantor : Option String → String → Result GrantError String
check_grantor none grantor =
    if grantor == deployment_charterer then ok grantor else check_urn grantor
check_grantor (some parent) grantor = check_urn grantor

module _ (crates : Crates) where
  abbrev pub check_timestamp : String → Result GrantError Unit
  check_timestamp at = map_err (λ e. bad_timestamp at) (validate_timestamp crates at)

  unfoldable pub check_shape : CapabilityGrant → Result GrantError Unit
  check_shape g = do
    hex_id "g-" g.grant_id
    check_grantor g.parent g.grantor >> check_urn g.grantee >> check_peer g.peer >> ok tt
    check_timestamp g.valid_from
    check_timestamp g.valid_until
    fail_if (str_lt g.valid_until g.valid_from) (bad_window g.valid_from g.valid_until)

  unfoldable pub charter :
      String
      → String
      → String
      → List ScopeElement
      → String
      → String
      → Result GrantError CapabilityGrant
  unfolding check_shape
  charter grant_id charterer grantee scopes valid_from valid_until = do
    let g : CapabilityGrant = record {
      grant_id = grant_id;
      grantor = charterer;
      grantee = grantee;
      scopes = scopes;
      valid_from = valid_from;
      valid_until = valid_until;
      parent = none;
      peer = none;
    }
    check_shape g
    ok g

abbrev pub window_open : CapabilityGrant → String → Bool
window_open g at = str_le g.valid_from at && str_le at g.valid_until

-- A later element of the same name replaces an earlier one.
unfoldable pub collect_delegable : List ScopeElement → List (String × Bool) → List (String × Bool)
collect_delegable [] m = m
collect_delegable (s ∷ scopes) m = collect_delegable scopes (insert s.name s.delegable m)

abbrev pub delegable : CapabilityGrant → List (String × Bool)
delegable g = collect_delegable g.scopes []

-- The derived `PartialEq`.
abbrev same_option : Option String → Option String → Bool
same_option none none = true
same_option (some a) (some b) = a == b
same_option _ _ = false

abbrev same_bool : Bool → Bool → Bool
same_bool true b = b
same_bool false b = not b

abbrev same_scopes : List ScopeElement → List ScopeElement → Bool
same_scopes [] [] = true
same_scopes (a ∷ as_) (b ∷ bs) =
    a.name == b.name && same_bool a.delegable b.delegable && same_scopes as_ bs
same_scopes _ _ = false

unfoldable pub same_grant : CapabilityGrant → CapabilityGrant → Bool
same_grant a b =
    a.grant_id == b.grant_id
    && a.grantor == b.grantor
    && a.grantee == b.grantee
    && same_scopes a.scopes b.scopes
    && a.valid_from == b.valid_from
    && a.valid_until == b.valid_until
    && same_option a.parent b.parent
    && same_option a.peer b.peer
