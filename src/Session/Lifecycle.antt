-- ===== src/Session/Lifecycle.antt =====
-- What the calls on a session do: refusals, transitions, observers and features.
use hacp.Common.{
  String, ◌≡◌, refl, ◌≢◌, ◌↔◌, ◌||◌, ◌⊎◌, true, false, none, List, [], ◌∷◌, is_some, arith, ok, err,
  ◌==◌, eq_iff, eq_refl, contains, lookup, lookup-insert, set_extend, contains-set_extend,
}
use hacp.Envelope.Kinds.{lifecycle_events}
use hacp.Session.{
  Session, SessionState, SessionError, observer_cannot_author, opening, active, closed, abandoned,
  is_terminal, is_participant, or_default, open_session, authorize_author, grant_observer,
  observer_receives, feature_available, first_foreign,
}
use hacp.Session.Ops.{Call, accepts, declares, grants, mismatches, closes, abandons, perform, run}
use hacp.Session.Invariant.{IsWellFormed, perform-IsWellFormed, run-IsWellFormed_from}

-- A call that returns an error leaves the session as it was.
pub perform_refused :
    (s : Session) (c : Call) (e : SessionError) → (perform s c).1 ≡ err e → (perform s c).0 ≡ s
unfolding perform
perform_refused s (accepts by) e h = ground arith
perform_refused s c e h = ground arith

-- In a terminal state every call returns an error and leaves the session as it was.
pub perform_terminal :
    (s : Session) (c : Call)
    → is_terminal s.state ≡ true
    → ((perform s c).0 ≡ s) × ((perform s c).1 ≢ ok tt)
unfolding perform
perform_terminal s (accepts by) h = (ground arith, ground arith)
perform_terminal s c h = (ground arith, ground arith)

-- The edges of the lifecycle: what a call needs to change the state, and the state that it leads to.
abbrev pub Moves : Session → Call → SessionState → Type 0
Moves s (accepts by) t = (s.state ≡ opening) × (by ≡ s.participants.1) × (t ≡ active)
Moves s (closes by reason) t = (s.state ≡ active) × (is_participant s by ≡ true) × (t ≡ closed)
Moves s (mismatches feature) t = (s.state ≡ active) × (t ≡ closed)
Moves s (abandons reason) t = (is_terminal s.state ≡ false) × (t ≡ abandoned)
Moves s _ t = ⊥

-- A call that changes the state takes an edge of the lifecycle: from opening to active by the second
-- participant's acceptance, from active to closed by a participant's close or for a missing feature,
-- or from opening or active to abandoned.
pub perform-Moves :
    (s : Session) (c : Call) → (perform s c).0.state ≢ s.state → Moves s c (perform s c).0.state
unfolding perform
perform-Moves s (accepts by) h =
    ground (arith, eq_iff by s.participants.0, eq_iff by s.participants.1)
perform-Moves s (closes by r) h = ground arith
perform-Moves s (mismatches f) h = ground arith
perform-Moves s (abandons r) h = ground arith
perform-Moves s _ h = ground arith

-- In a well-formed session the authors are exactly the two participants.
pub authorize_author_iff :
    (s : Session) (who : String)
    → IsWellFormed s
    → (authorize_author s who ≡ ok tt) ↔ ((who ≡ s.participants.0) ⊎ (who ≡ s.participants.1))
unfolding authorize_author
authorize_author_iff s who v = (
  λ h. ground (arith, eq_iff who s.participants.0, eq_iff who s.participants.1),
  λ h. ground (arith, v.outside who, eq_iff who s.participants.0, eq_iff who s.participants.1),
)

perform_observed :
    (s : Session) (c : Call) (o : String)
    → is_some (lookup o s.observers) ≡ true
    → is_some (lookup o (perform s c).0.observers) ≡ true
unfolding perform
perform_observed s (grants p ks) o h =
    ground (arith, lookup-insert p o (record { kinds = set_extend ks [] }) s.observers)
perform_observed s c o h = ground arith

run_observed :
    (s : Session) (cs : List Call) (o : String)
    → is_some (lookup o s.observers) ≡ true
    → is_some (lookup o (run s cs).observers) ≡ true
unfolding run
run_observed s [] o h = h
run_observed s (c ∷ cs) o h = run_observed (perform s c).0 cs o (perform_observed s c o h)

grant_observer_seen :
    (s : Session) (o : String) (kinds : List String)
    → (grant_observer s o kinds).1 ≡ ok tt
    → is_some (lookup o (grant_observer s o kinds).0.observers) ≡ true
unfolding grant_observer
grant_observer_seen s o kinds h =
    ground
      (arith, eq_refl o, lookup-insert o o (record { kinds = set_extend kinds [] }) s.observers)

-- After a granted observation of a well-formed session, whatever is called next, the observer is
-- refused as an author by the error of its own, and it is none of the participants.
pub grant_observer_silent :
    (s : Session) (o : String) (kinds : List String) (cs : List Call)
    → IsWellFormed s
    → (grant_observer s o kinds).1 ≡ ok tt
    → (authorize_author (run (grant_observer s o kinds).0 cs) o ≡ err (observer_cannot_author o))
      × (is_participant (run (grant_observer s o kinds).0 cs) o ≡ false)
unfolding authorize_author
grant_observer_silent s o kinds cs v h =
    let t = (grant_observer s o kinds).0 in
    let seen : is_some (lookup o t.observers) ≡ true = grant_observer_seen s o kinds h in
    let later = run_observed t cs o seen in
    let w : IsWellFormed t = unfold perform in (perform-IsWellFormed v (grants o kinds)).0 in
    (ground (arith, later), (run-IsWellFormed_from t cs w).0.outside o later)

-- Every kind that some observer receives is a lifecycle event.
abbrev pub IsLifecycleOnly : Session → Type 0
IsLifecycleOnly s =
    (o kind : String) → observer_receives s o kind ≡ true → contains kind lifecycle_events ≡ true

first_foreign_sound :
    (ks : List String) (kind : String)
    → first_foreign ks ≡ none
    → contains kind ks ≡ true
    → contains kind lifecycle_events ≡ true
unfolding first_foreign
first_foreign_sound [] kind h e = unfold contains in cc e
first_foreign_sound (k ∷ ks) kind h e =
    let here : contains kind (k ∷ ks) ≡ (kind == k || contains kind ks) = unfold contains in refl in
    ground (arith, here, eq_iff kind k, first_foreign_sound ks kind)

perform-IsLifecycleOnly :
    (s : Session) (c : Call) → IsLifecycleOnly s → IsLifecycleOnly (perform s c).0
unfolding perform observer_receives
perform-IsLifecycleOnly s (grants p ks) h o kind e =
    let none_in : contains kind [] ≡ false = unfold contains in refl in
    ground (
      arith,
      h o kind,
      none_in,
      contains-set_extend ks kind [],
      first_foreign_sound ks kind,
      lookup-insert p o (record { kinds = set_extend ks [] }) s.observers,
    )
perform-IsLifecycleOnly s c h o kind e = ground (arith, h o kind)

run-IsLifecycleOnly :
    (s : Session) (cs : List Call) → IsLifecycleOnly s → IsLifecycleOnly (run s cs)
unfolding run
run-IsLifecycleOnly s [] h = h
run-IsLifecycleOnly s (c ∷ cs) h =
    run-IsLifecycleOnly (perform s c).0 cs (perform-IsLifecycleOnly s c h)

-- Of a session that `open_session` builds, whatever is called, observers receive nothing but
-- lifecycle events.
pub run-observer_receives :
    (session_id opener acceptor : String) (s : Session) (cs : List Call)
    → open_session session_id opener acceptor ≡ ok s
    → (o kind : String) → observer_receives (run s cs) o kind ≡ true
    → contains kind lifecycle_events ≡ true
run-observer_receives i a b s cs h = run-IsLifecycleOnly s cs (fresh s h)
  where
    fresh : (s : Session) → open_session i a b ≡ ok s → IsLifecycleOnly s
    fresh s h o kind e = unfold open_session observer_receives lookup in ground arith

perform-feature_available :
    (s : Session) (c : Call) (f : String)
    → feature_available s f ≡ true
    → feature_available (perform s c).0 f ≡ true
unfolding perform feature_available
perform-feature_available s (declares w fs) f h = ground (
  arith,
  contains-set_extend fs f (or_default (lookup w s.declared)),
  lookup-insert w s.participants.0 (set_extend fs (or_default (lookup w s.declared))) s.declared,
  lookup-insert w s.participants.1 (set_extend fs (or_default (lookup w s.declared))) s.declared,
  eq_iff s.participants.0 w,
  eq_iff s.participants.1 w,
)
perform-feature_available s c f h = ground arith

-- A feature that both participants have declared stays available, whatever is called.
pub run-feature_available :
    (s : Session) (cs : List Call) (f : String)
    → feature_available s f ≡ true
    → feature_available (run s cs) f ≡ true
unfolding run
run-feature_available s [] f h = h
run-feature_available s (c ∷ cs) f h =
    run-feature_available (perform s c).0 cs f (perform-feature_available s c f h)
