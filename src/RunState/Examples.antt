-- ===== src/RunState/Examples.antt =====
-- A run with an amendment and a rework, and the theorems at it.
use hacp.Common.{◌≡◌, refl, true, List, [], ◌∷◌}
use hacp.RunState.{
  RunState, planning, drafted, amending, frozen, working, reporting, verifying, reworking,
  integrating, completed, can_transition_to,
}
use hacp.RunState.Traces.{visits, completed_milestones}

abbrev amended_run : List RunState
amended_run =
    planning ∷ drafted ∷ frozen ∷ working ∷ amending ∷ frozen ∷ working ∷ reporting ∷ verifying
    ∷ reworking ∷ verifying ∷ integrating ∷ completed ∷ []

completed_milestones_example : visits verifying amended_run ≡ true
unfolding can_transition_to
completed_milestones_example = completed_milestones amended_run refl refl verifying refl
