-- ===== src/Escalation.antt =====
-- src/v2/escalation.rs: the ladder of a dispute, from the shared supervisor to the lowest common one.
pub mod Ladder
mod Examples
use hacp.Common.{
  String, Bool, true, false, not, ◌&&◌, ◌||◌, Option, none, some, List, [], ◌∷◌, if◌then◌else◌,
  Result, ok, err, ◌>>=◌, ◌>>◌, fail_if, ok_or, attempt, ◌==◌, lookup,
}
use hacp.Envelope.Kinds.{
  escalation_raised, escalation_referred, escalation_resolved, escalation_no_agreement,
}
use hacp.Grant.Org.{OrgChart, lca, shares_parent}

pub data EscalationSubject : Type 0 where
  contract : (contract_id : String) → EscalationSubject
  task : (task_id : String) → EscalationSubject
  artifact : (artifact_id : String) → EscalationSubject

pub data Ruling : Type 0 where
  split : Ruling
  reassign : (to : String) → Ruling
  deadline : (at : String) → Ruling

pub data EscalationStage : Type 0 where
  raised referred resolved no_agreement : EscalationStage

pub data EscalationError : Type 0 where
  same_party : String → EscalationError
  not_same_parent : (a b : String) → EscalationError
  no_supervisor : String → EscalationError
  not_mediator : String → EscalationError
  arbiter_is_party : String → EscalationError
  not_raised not_referred closed no_lca : EscalationError

pub record Escalation : Type 0 where
  pub escalation_id : String
  pub parties : String × String
  pub subject : EscalationSubject
  pub raised_at : String
  pub stage : EscalationStage
  pub mediator : Option String
  pub arbiter : Option String
  pub ruling : Option Ruling

abbrev pub is_raised : EscalationStage → Bool
is_raised raised = true
is_raised _ = false

abbrev pub is_referred : EscalationStage → Bool
is_referred referred = true
is_referred _ = false

abbrev pub is_closed : EscalationStage → Bool
is_closed resolved = true
is_closed no_agreement = true
is_closed _ = false

-- `a.as_deref() == Some(b)`.
abbrev pub names : Option String → String → Bool
names none b = false
names (some a) b = a == b

-- Siblings have their supervisor mediate; of a supervisor and one that it supervises, the
-- supervisor's own supervisor does.
unfoldable pub mediator_of : OrgChart → String → String → Result EscalationError String
mediator_of org a b =
    if shares_parent org a b
    then ok_or (lookup a org.parent_of) (not_same_parent a b)
    else if names (lookup a org.parent_of) b
    then ok_or (lookup b org.parent_of) (no_supervisor b)
    else if names (lookup b org.parent_of) a
    then ok_or (lookup a org.parent_of) (no_supervisor a)
    else err (not_same_parent a b)

unfoldable pub raise :
    OrgChart
    → String
    → String
    → String
    → EscalationSubject
    → String
    → Result EscalationError (Escalation × String)
unfolding mediator_of
raise org escalation_id a b subject at = do
  fail_if (a == b) (same_party a)
  mediator ← mediator_of org a b
  ok (
    record {
      escalation_id = escalation_id;
      parties = (a, b);
      subject = subject;
      raised_at = at;
      stage = raised;
      mediator = some mediator;
      arbiter = none;
      ruling = none;
    },
    mediator,
  )

abbrev or_stay : String → Option String → String
or_stay lca none = lca
or_stay lca (some parent) = parent

-- A referral climbs above the mediator of the first stage, where there is a supervisor above.
abbrev pub climbed : OrgChart → Option String → String → String
climbed org mediator found =
    if names mediator found then or_stay found (lookup found org.parent_of) else found

unfoldable pub refer : Escalation → OrgChart → Escalation × Result EscalationError Unit
refer e org =
    if not (is_raised e.stage)
    then (e, err not_raised)
    else attempt e (ok_or (lca org e.parties.0 e.parties.1) no_lca) λ found.
      (record e { mediator = some (climbed org e.mediator found); stage = referred }, ok tt)

unfoldable pub invoke_arbiter : Escalation → String → Escalation × Result EscalationError Unit
invoke_arbiter e arbiter =
    if is_closed e.stage
    then (e, err closed)
    else if arbiter == e.parties.0 || arbiter == e.parties.1
    then (e, err (arbiter_is_party arbiter))
    else (record e { arbiter = some arbiter }, ok tt)

unfoldable pub resolve : Escalation → Ruling → Escalation × Result EscalationError Unit
resolve e ruling =
    if not (is_referred e.stage)
    then (e, err not_referred)
    else (record e { ruling = some ruling; stage = resolved }, ok tt)

unfoldable pub conclude_no_agreement : Escalation → Escalation × Result EscalationError Unit
conclude_no_agreement e =
    if is_closed e.stage then (e, err closed) else (record e { stage = no_agreement }, ok tt)

abbrev pub stage_kind : EscalationStage → String
stage_kind raised = escalation_raised
stage_kind referred = escalation_referred
stage_kind resolved = escalation_resolved
stage_kind no_agreement = escalation_no_agreement
