-- ===== src/RunState.antt =====
-- src/state.rs: the run state machine of HACP/1.1.
pub mod Traces
mod Examples
use hacp.Common.{ℕ, String, Bool, true, false, List, [], ◌∷◌, if◌then◌else◌, eqb, any}

pub data RunState : Type 0 where
  formation planning drafted amending frozen working reporting : RunState
  verifying reworking integrating completed failed aborted timed_out : RunState

abbrev pub ordinal : RunState → ℕ
ordinal formation = 0
ordinal planning = 1
ordinal drafted = 2
ordinal amending = 3
ordinal frozen = 4
ordinal working = 5
ordinal reporting = 6
ordinal verifying = 7
ordinal reworking = 8
ordinal integrating = 9
ordinal completed = 10
ordinal failed = 11
ordinal aborted = 12
ordinal timed_out = 13

-- The derived `PartialEq`.
abbrev pub same_state : RunState → RunState → Bool
same_state a b = eqb (ordinal a) (ordinal b)

abbrev pub is_terminal : RunState → Bool
is_terminal completed = true
is_terminal failed = true
is_terminal aborted = true
is_terminal timed_out = true
is_terminal _ = false

abbrev pub is_post_freeze : RunState → Bool
is_post_freeze frozen = true
is_post_freeze working = true
is_post_freeze reporting = true
is_post_freeze verifying = true
is_post_freeze reworking = true
is_post_freeze integrating = true
is_post_freeze _ = false

unfoldable pub successors : RunState → List RunState
successors formation = planning ∷ []
successors planning = drafted ∷ frozen ∷ []
successors drafted = amending ∷ drafted ∷ frozen ∷ []
successors amending = drafted ∷ frozen ∷ []
successors frozen = working ∷ amending ∷ []
successors working = reporting ∷ amending ∷ []
successors reporting = verifying ∷ []
successors verifying = reworking ∷ integrating ∷ []
successors reworking = verifying ∷ []
successors integrating = completed ∷ []
successors _ = []

-- `matches!(next, Failed | Aborted | TimedOut)`.
abbrev pub is_exit : RunState → Bool
is_exit failed = true
is_exit aborted = true
is_exit timed_out = true
is_exit _ = false

unfoldable pub can_transition_to : RunState → RunState → Bool
unfolding successors
can_transition_to s next =
    if is_terminal s
    then false
    else if is_exit next
    then true
    else any (same_state next) (successors s)

unfoldable pub label : RunState → String
label formation = "formation"
label planning = "planning"
label drafted = "drafted"
label amending = "amending"
label frozen = "frozen"
label working = "working"
label reporting = "reporting"
label verifying = "verifying"
label reworking = "reworking"
label integrating = "integrating"
label completed = "completed"
label failed = "failed"
label aborted = "aborted"
label timed_out = "timed out"

abbrev pub all_states : List RunState
all_states =
    formation ∷ planning ∷ drafted ∷ amending ∷ frozen ∷ working ∷ reporting ∷ verifying ∷ reworking
    ∷ integrating ∷ completed ∷ failed ∷ aborted ∷ timed_out ∷ []
