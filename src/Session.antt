-- ===== src/Session.antt =====
-- src/v2/session.rs: the bilateral session. A method on `&mut self` returns the new session beside
-- its result.
pub mod Ops
pub mod Invariant
pub mod Lifecycle
mod Examples
use Prim.Native.String.{◌++◌}
use hacp.Common.{
  ℕ, String, Bool, true, false, not, ◌&&◌, ◌||◌, Option, none, some, List, [], ◌∷◌, if◌then◌else◌,
  is_some, is_some_and, Result, ok, err, ◌>>=◌, ◌>>◌, fail_if, map_err, attempt, ◌==◌, contains,
  set_extend, lookup, insert,
}
use hacp.Envelope.Urn
use hacp.Envelope.Urn.{UrnError}
use hacp.Envelope.Kinds.{lifecycle_events}

pub data SessionState : Type 0 where
  opening active closed abandoned : SessionState

pub record ObserverGrant : Type 0 where
  pub kinds : List String

-- What the `session` field of `NotAParticipant` holds: the session's id, or why a URN is refused.
pub data Detail : Type 0 where
  session_named : String → Detail
  refused : UrnError → Detail

pub data SessionError : Type 0 where
  not_a_participant : (who : String) (session : Detail) → SessionError
  observer_cannot_author : (who : String) → SessionError
  illegal_transition : (action : String) (state : SessionState) → SessionError
  observer_is_participant : (who : String) → SessionError
  not_a_lifecycle_event : (found : String) → SessionError
  opener_cannot_accept : (who : String) → SessionError
  same_participant : SessionError

pub record Session : Type 0 where
  pub session_id : String
  pub participants : String × String
  pub observers : List (String × ObserverGrant)
  pub state : SessionState
  pub declared : List (String × List String)
  pub close_reason : Option String

abbrev pub Outcome : Type 0
Outcome = Session × Result SessionError Unit

abbrev pub is_active : SessionState → Bool
is_active active = true
is_active _ = false

abbrev pub is_opening : SessionState → Bool
is_opening opening = true
is_opening _ = false

-- `matches!(state, Closed | Abandoned)`.
abbrev pub is_terminal : SessionState → Bool
is_terminal closed = true
is_terminal abandoned = true
is_terminal _ = false

abbrev pub is_participant : Session → String → Bool
is_participant s who = who == s.participants.0 || who == s.participants.1

abbrev check_urn : String → Result SessionError String
check_urn urn = map_err (λ e. not_a_participant urn (refused e)) (Urn.parse urn)

unfoldable pub open_session : String → String → String → Result SessionError Session
open_session session_id opener acceptor = do
  fail_if (opener == acceptor) same_participant
  check_urn opener
  check_urn acceptor
  ok (record {
    session_id = session_id;
    participants = (opener, acceptor);
    observers = [];
    state = opening;
    declared = [];
    close_reason = none;
  })

unfoldable pub authorize_author : Session → String → Result SessionError Unit
authorize_author s who =
    if is_some (lookup who s.observers)
    then err (observer_cannot_author who)
    else if is_participant s who
    then ok tt
    else err (not_a_participant who (session_named s.session_id))

unfoldable pub accept : Session → String → Outcome
unfolding authorize_author
accept s by = attempt s (authorize_author s by) λ _.
    if not (is_opening s.state)
    then (s, err (illegal_transition "accept" s.state))
    else if by == s.participants.0
    then (s, err (opener_cannot_accept by))
    else (record s { state = active }, ok tt)

-- `entry(who).or_default()`.
abbrev pub or_default : Option (List String) → List String
or_default none = []
or_default (some fs) = fs

unfoldable pub declare_features : Session → String → List String → Outcome
unfolding authorize_author
declare_features s who features = attempt s (authorize_author s who) λ _.
    if is_terminal s.state then (s, err (illegal_transition "declare features" s.state)) else (
      record s {
        declared = insert who (set_extend features (or_default (lookup who s.declared))) s.declared;
      },
      ok tt,
    )

unfoldable pub feature_available : Session → String → Bool
feature_available s feature =
    is_some_and (contains feature) (lookup s.participants.0 s.declared)
    && is_some_and (contains feature) (lookup s.participants.1 s.declared)

unfoldable pub close_internal : Session → String → Outcome
close_internal s reason =
    if not (is_active s.state)
    then (s, err (illegal_transition "close" s.state))
    else (record s { state = closed; close_reason = some reason }, ok tt)

unfoldable pub close_for_capability_mismatch : Session → String → Outcome
unfolding close_internal
close_for_capability_mismatch s feature = close_internal s ("capability-mismatch: " ++ feature)

-- The first kind of a grant that is no lifecycle event.
first_foreign : List String → Option String
first_foreign [] = none
first_foreign (k ∷ ks) = if not (contains k lifecycle_events) then some k else first_foreign ks

abbrev pub observer_events : String
observer_events = "observer-events"

abbrev check_kinds : Option String → Result SessionError Unit
check_kinds none = ok tt
check_kinds (some k) = err (not_a_lifecycle_event k)

unfoldable pub grant_observer : Session → String → List String → Outcome
unfolding first_foreign feature_available
grant_observer s observer kinds =
    if not (is_active s.state)
    then (s, err (illegal_transition "grant observer" s.state))
    else if is_participant s observer
    then (s, err (observer_is_participant observer))
    else attempt s (check_kinds (first_foreign kinds)) λ _.
      if not (feature_available s observer_events)
      then (
        s,
        err (
            illegal_transition "grant observer without the observer-events feature on both sides"
              s.state),
      )
      else (
        record s {
          observers = insert observer (record { kinds = set_extend kinds [] }) s.observers;
        },
        ok tt,
      )

unfoldable pub observer_receives : Session → String → String → Bool
observer_receives s observer kind =
    is_some_and (λ (g : ObserverGrant). contains kind g.kinds) (lookup observer s.observers)

unfoldable pub close : Session → String → String → Outcome
unfolding authorize_author close_internal
close s by reason = attempt s (authorize_author s by) λ _. close_internal s reason

unfoldable pub abandon : Session → String → Outcome
abandon s reason =
    if is_terminal s.state
    then (s, err (illegal_transition "abandon" s.state))
    else (record s { state = abandoned; close_reason = some reason }, ok tt)
