-- ===== src/Grant/Org.antt =====
-- `OrgChart` of src/v2/grant.rs: declared parent chains. A walk up the chart takes fuel, and `none`
-- says that the fuel ran out.
pub mod Walk
pub mod Chains
pub mod Lca
use hacp.Common.{
  ℕ, zero, suc, ◌+◌, String, Bool, true, false, not, ◌&&◌, Option, none, some, List, [], ◌∷◌, ◌++◌,
  map, if◌then◌else◌, length, is_some_and, Result, ok, err, ◌>>=◌, ◌>>◌, map_err, unwrap_or, ◌==◌,
  contains, set_insert, lookup,
}
use hacp.Envelope.Urn
use hacp.Canon.Sort.{sort_by_key}
use hacp.Grant.Record.{GrantError, bad_urn, cycle, or_diverges, why}

pub record OrgChart : Type 0 where
  -- child to parent
  pub parent_of : List (String × String)

abbrev pub push :
    String → Option (Result GrantError (List String)) → Option (Result GrantError (List String))
push parent none = none
push parent (some (ok path)) = some (ok (parent ∷ path))
push parent (some (err e)) = some (err e)

-- The loop of `checked_chain`: the path from `current` up, `current` excluded.
unfoldable pub climb :
    ℕ → OrgChart → List String → String → Option (Result GrantError (List String))
climb zero org seen current = none
climb (suc fuel) org seen current = elim (lookup current org.parent_of) [
  | none ↦ some (ok [])
  | some parent ↦ elim (contains parent seen) [
    | true ↦ some (err (cycle parent))
    | false ↦ push parent (climb fuel org (set_insert parent seen) parent)
  ]
]

-- Enough fuel for every chart.
abbrev pub climb_fuel : OrgChart → ℕ
climb_fuel org = suc (suc (length org.parent_of))

unfoldable pub checked_chain : OrgChart → String → Result GrantError (List String)
unfolding climb
checked_chain org agent = do
  path ← or_diverges (climb (climb_fuel org) org (set_insert agent []) agent)
  ok (agent ∷ path)

unfoldable pub chain : OrgChart → String → List String
unfolding checked_chain
chain org agent = unwrap_or [] (checked_chain org agent)

abbrev parse_urn : String → Result GrantError String
parse_urn urn = map_err (λ e. bad_urn (why e)) (Urn.parse urn)

validate_entries : OrgChart → List (String × String) → Result GrantError Unit
validate_entries org [] = ok tt
validate_entries org ((child, parent) ∷ entries) =
    parse_urn child
    >> parse_urn parent
    >> ok tt
    >> (checked_chain org child >>= λ path. validate_entries org entries)

unfoldable pub validate : OrgChart → Result GrantError Unit
unfolding validate_entries sort_by_key
validate org = validate_entries org (sort_by_key org.parent_of)

-- `into_iter().skip(1)`.
abbrev pub skip_first : List String → List String
skip_first [] = []
skip_first (x ∷ xs) = xs

abbrev pub find_in : List String → List String → Option String
find_in set [] = none
find_in set (node ∷ nodes) = if contains node set then some node else find_in set nodes

abbrev lca_of : Result GrantError (List String) → Result GrantError (List String) → Option String
lca_of (ok chain_a) (ok chain_b) = find_in (skip_first chain_b) (skip_first chain_a)
lca_of _ _ = none

unfoldable pub lca : OrgChart → String → String → Option String
lca org a b = lca_of (checked_chain org a) (checked_chain org b)

abbrev pub same_parent : Option String → Option String → Bool
same_parent (some p) (some q) = p == q
same_parent _ _ = false

unfoldable pub shares_parent : OrgChart → String → String → Bool
shares_parent org a b =
    not (a == b) && same_parent (lookup a org.parent_of) (lookup b org.parent_of)

abbrev pub reports_to : String → List (String × String) → List (String × String)
reports_to agent [] = []
reports_to agent ((c, p) ∷ m) =
    let rest = reports_to agent m in if p == agent then (c, p) ∷ rest else rest

unfoldable pub children : OrgChart → String → List String
unfolding sort_by_key
children org agent =
    map (λ (e : String × String). e.0) (sort_by_key (reports_to agent org.parent_of))
