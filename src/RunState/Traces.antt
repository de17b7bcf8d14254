-- ===== src/RunState/Traces.antt =====
-- Runs of the state machine of src/state.rs, as lists of the states entered.
use hacp.Common.{◌≡◌, ◌≢◌, ◌↔◌, ◌⊎◌, Bool, true, false, ◌&&◌, ◌||◌, ltb, List, [], ◌∷◌, any, arith}
use hacp.RunState.{
  RunState, formation, planning, amending, frozen, working, reporting, verifying, integrating,
  completed, failed, is_terminal, is_post_freeze, is_exit, same_state, ordinal, can_transition_to,
}

-- From `s`, each state of the list is entered by a legal transition from the one before.
abbrev pub is_legal : RunState → List RunState → Bool
is_legal s [] = true
is_legal s (t ∷ ts) = can_transition_to s t && is_legal t ts

abbrev pub final : RunState → List RunState → RunState
final s [] = s
final s (t ∷ ts) = final t ts

abbrev pub visits : RunState → List RunState → Bool
visits t ts = any (same_state t) ts

-- The states that no completed run can do without.
abbrev pub is_milestone : RunState → Bool
is_milestone planning = true
is_milestone frozen = true
is_milestone working = true
is_milestone reporting = true
is_milestone verifying = true
is_milestone integrating = true
is_milestone _ = false

abbrev before : RunState → RunState → Bool
before t s = ltb (ordinal s) (ordinal t)

-- A step from before a milestone stays before it, enters it, or gives the run up.
advances : RunState → RunState → Bool
advances t u = before t u || same_state t u || is_exit u

step_before :
    (t s u : RunState)
    → is_milestone t ≡ true
    → before t s ≡ true
    → can_transition_to s u ≡ true
    → advances t u ≡ true
unfolding can_transition_to advances
step_before planning s u m b h = ground arith
step_before t s u m b h = ground arith

stuck_of_exit :
    (s : RunState) (ts : List RunState)
    → is_exit s ≡ true
    → is_legal s ts ≡ true
    → final s ts ≢ completed
unfolding can_transition_to
stuck_of_exit s [] x h = ground arith
stuck_of_exit s (t ∷ ts) x h = ground arith

milestone_visited :
    (t s : RunState) (ts : List RunState)
    → is_milestone t ≡ true
    → before t s ≡ true
    → is_legal s ts ≡ true
    → final s ts ≡ completed
    → visits t ts ≡ true
unfolding advances
milestone_visited t s [] m b h f = ground arith
milestone_visited t s (u ∷ ts) m b h f =
    ground (arith, step_before t s u, milestone_visited t u ts, stuck_of_exit u ts)

-- A run that starts in formation and ends completed, however its negotiations, amendments and
-- reworks went, has entered every milestone: planning, frozen, working, reporting, verifying and
-- integrating.
pub completed_milestones :
    (ts : List RunState)
    → is_legal formation ts ≡ true
    → final formation ts ≡ completed
    → (t : RunState) → is_milestone t ≡ true
    → visits t ts ≡ true
completed_milestones ts h f t m = milestone_visited t formation ts m (early t m) h f
  where
    early : (t : RunState) → is_milestone t ≡ true → before t formation ≡ true
    early planning m = ground arith
    early t m = ground arith

-- A state is terminal exactly if no transition leaves it, and from every other state the run can
-- fail, be aborted or time out.
pub is_terminal_iff :
    (s : RunState)
    → ((is_terminal s ≡ true) ↔ ((t : RunState) → can_transition_to s t ≡ false))
      × (is_terminal s ≡ false → (t : RunState) → is_exit t ≡ true → can_transition_to s t ≡ true)
unfolding can_transition_to
is_terminal_iff s = ((λ h t. ground arith, λ h. ground (arith, h failed)), λ h t x. ground arith)

-- `completed` is entered from `integrating` alone.
pub completed_from : (s : RunState) → (can_transition_to s completed ≡ true) ↔ (s ≡ integrating)
unfolding can_transition_to
completed_from formation = (λ h. ground arith, λ h. ground arith)
completed_from s = (λ h. ground arith, λ h. ground arith)

-- Once the contract is frozen, a transition keeps it frozen, opens an amendment, completes the run
-- or gives it up.
pub post_freeze_step :
    (s t : RunState)
    → is_post_freeze s ≡ true
    → can_transition_to s t ≡ true
    → (is_post_freeze t ≡ true) ⊎ (t ≡ amending) ⊎ (is_terminal t ≡ true)
unfolding can_transition_to
post_freeze_step formation t p h = ground arith
post_freeze_step s t p h = ground arith
