-- ===== src/Session/Examples.antt =====
-- Runs of src/v2/session.rs on concrete sessions, and the theorems at them.
use hacp.Common.{
  String, ◌≡◌, refl, false, none, List, [], ◌∷◌, ok, err, contains, set_insert, set_extend, lookup,
  insert,
}
use hacp.Envelope.Urn
use hacp.Envelope.Kinds.{contract_frozen, heartbeat}
use hacp.Session.{
  Session, opening, active, observer_cannot_author, not_a_lifecycle_event, is_participant,
  observer_events, open_session, authorize_author, grant_observer, observer_receives,
  feature_available,
}
use hacp.Session.Ops.{Call, accepts, declares, grants, abandons, perform, run}
use hacp.Session.Invariant.{
  IsWellFormed, open_session-IsWellFormed, run-IsWellFormed_from, run-IsWellFormed,
}
use hacp.Session.Lifecycle.{grant_observer_silent}

-- What a test by `refl` has to unfold.
session : Unit {0}
unfolding Urn.parse open_session perform run grant_observer observer_receives feature_available
    authorize_author contains set_insert set_extend lookup insert
session = tt

abbrev ann : String
ann = "urn:hacp:agent:ann"

abbrev bob : String
bob = "urn:hacp:agent:bob"

abbrev aud : String
aud = "urn:hacp:agent:auditor"

abbrev fresh : Session
fresh = record {
  session_id = "s-1";
  participants = (ann, bob);
  observers = [];
  state = opening;
  declared = [];
  close_reason = none;
}

abbrev handshake : List Call
handshake =
    accepts bob ∷ declares ann (observer_events ∷ []) ∷ declares bob (observer_events ∷ []) ∷ []

-- The session of the tests in the source: accepted, with observers possible.
abbrev ready : Session
ready = record fresh {
  state = active;
  declared = (ann, observer_events ∷ []) ∷ (bob, observer_events ∷ []) ∷ [];
}

opens : open_session "s-1" ann bob ≡ ok fresh
unfolding session
opens = refl

becomes_ready : run fresh handshake ≡ ready
unfolding session
becomes_ready = refl

opener_waits : (perform fresh (accepts ann)).0 ≡ fresh
unfolding session
opener_waits = refl

foreign_kind : (grant_observer ready aud (heartbeat ∷ [])).1 ≡ err (not_a_lifecycle_event heartbeat)
unfolding session
foreign_kind = refl

granted : (grant_observer ready aud (contract_frozen ∷ [])).1 ≡ ok tt
unfolding session
granted = refl

fresh-IsWellFormed : IsWellFormed fresh
fresh-IsWellFormed = (open_session-IsWellFormed "s-1" ann bob fresh opens).0

ready-IsWellFormed : IsWellFormed ready
unfolding session
ready-IsWellFormed = (run-IsWellFormed_from fresh handshake fresh-IsWellFormed).0

run-IsWellFormed_example :
    IsWellFormed (run fresh handshake) × ((run fresh handshake).participants ≡ (ann, bob))
run-IsWellFormed_example = run-IsWellFormed "s-1" ann bob fresh handshake opens

grant_observer_silent_example :
    (authorize_author
        (run (grant_observer ready aud (contract_frozen ∷ [])).0 (abandons "x" ∷ []))
        aud
      ≡ err (observer_cannot_author aud))
    × (is_participant
          (run (grant_observer ready aud (contract_frozen ∷ [])).0 (abandons "x" ∷ []))
          aud
        ≡ false)
grant_observer_silent_example =
    grant_observer_silent ready aud (contract_frozen ∷ []) (abandons "x" ∷ []) ready-IsWellFormed
      granted

abbrev watched : List Call
watched =
    accepts bob
    ∷ declares ann (observer_events ∷ [])
    ∷ declares bob (observer_events ∷ [])
    ∷ grants aud (contract_frozen ∷ [])
    ∷ []
