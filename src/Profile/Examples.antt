-- ===== src/Profile/Examples.antt =====
-- The profile of src/v2/profile.rs on small charts, and the theorem at one.
use hacp.Common.{
  ◌≤◌, String, ◌≡◌, refl, [], ◌∷◌, err, length, contains, set_insert, set_extend, lookup, chars_all,
  strip_prefix,
}
use hacp.Envelope.Urn
use hacp.Grant.Org
use hacp.Grant.Org.{OrgChart, children, checked_chain}
use hacp.Grant.Examples.{chart}
use hacp.Profile.{arity_exceeded, supervisors, check_arity, validate_org}
use hacp.Profile.Arity.{validate_org-length}

-- What a test by `refl` has to unfold.
profile : Unit {0}
unfolding supervisors check_arity validate_org Org.validate children checked_chain set_insert
    set_extend contains lookup chars_all strip_prefix Urn.parse
profile = tt

abbrev boss : String
boss = "urn:hacp:agent:boss"

abbrev wide : OrgChart
wide = record {
  parent_of =
      ("urn:hacp:agent:a", boss) ∷ ("urn:hacp:agent:b", boss) ∷ ("urn:hacp:agent:c", boss) ∷ [];
}

too_wide : validate_org wide ≡ err (arity_exceeded boss 3 2)
unfolding profile
too_wide = refl

validate_org-length_example : length (children chart boss) ≤ 2
unfolding profile
validate_org-length_example = validate_org-length chart boss refl
