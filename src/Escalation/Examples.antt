-- ===== src/Escalation/Examples.antt =====
-- Disputes of src/v2/escalation.rs on a small chart, and the theorems at them.
use hacp.Common.{
  String, ◌≡◌, refl, none, some, List, [], ◌∷◌, ok, err, contains, set_insert, lookup,
}
use hacp.Grant.Org.{lca, checked_chain, shares_parent}
use hacp.Grant.Examples.{chart}
use hacp.Escalation.{
  Escalation, contract, split, raised, resolved, raise, refer, arbiter_is_party, invoke_arbiter,
  not_same_parent,
}
use hacp.Escalation.Ladder.{
  Call, refers, invokes, resolves, concludes, run, IsJourney, run-IsJourney,
}

-- What a test by `refl` has to unfold.
ladder : Unit {0}
unfolding raise refer invoke_arbiter run lca checked_chain shares_parent contains set_insert lookup
ladder = tt

abbrev left : String
left = "urn:hacp:agent:left"

abbrev right : String
right = "urn:hacp:agent:right"

abbrev boss : String
boss = "urn:hacp:agent:boss"

abbrev dispute : Escalation
dispute = record {
  escalation_id = "esc-000000000001";
  parties = (left, right);
  subject = contract "c-1";
  raised_at = "2026-07-01T12:00:00Z";
  stage = raised;
  mediator = some boss;
  arbiter = none;
  ruling = none;
}

raises :
    raise chart "esc-000000000001" left right (contract "c-1") "2026-07-01T12:00:00Z"
    ≡ ok (dispute, boss)
unfolding ladder
raises = refl

cousins :
    raise chart "esc-000000000002" "urn:hacp:agent:ann" "urn:hacp:agent:bob"
      (contract "c-1")
      "2026-07-01T12:00:00Z"
    ≡ err (not_same_parent "urn:hacp:agent:ann" "urn:hacp:agent:bob")
unfolding ladder
cousins = refl

-- The boss has no supervisor: the referral stays with it.
stays : (refer dispute chart).0.mediator ≡ some boss
unfolding ladder
stays = refl

no_party_arbitrates : (invoke_arbiter dispute left).1 ≡ err (arbiter_is_party left)
unfolding ladder
no_party_arbitrates = refl

abbrev journey : List Call
journey = refers chart ∷ invokes "urn:hacp:agent:judge" ∷ resolves split ∷ concludes ∷ []

ends_resolved : (run dispute journey).stage ≡ resolved
unfolding ladder
ends_resolved = refl

run-IsJourney_example :
    IsJourney (run dispute journey)
    × ((run dispute journey).parties ≡ (left, right))
    × ((run dispute journey).subject ≡ contract "c-1")
    × ((run dispute journey).raised_at ≡ "2026-07-01T12:00:00Z")
run-IsJourney_example =
    run-IsJourney chart "esc-000000000001" left right (contract "c-1") "2026-07-01T12:00:00Z"
      dispute boss journey raises
