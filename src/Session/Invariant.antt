-- ===== src/Session/Invariant.antt =====
-- What holds of a session between two calls.
use hacp.Common.{
  String, ◌≡◌, refl, ◌∙◌, ◌≢◌, true, false, List, [], ◌∷◌, is_some, arith, ok, eq_iff, lookup,
  lookup-insert, set_extend,
}
use hacp.Session.{Session, opening, is_terminal, is_participant, or_default, open_session}
use hacp.Session.Ops.{Call, accepts, declares, grants, perform, run}

pub record IsWellFormed (s : Session) : Type 0 where
  pub distinct : s.participants.0 ≢ s.participants.1
  pub outside :
      (who : String) → is_some (lookup who s.observers) ≡ true → is_participant s who ≡ false
  pub insiders :
      (who : String) → is_some (lookup who s.declared) ≡ true → is_participant s who ≡ true
  pub unwatched : s.state ≡ opening → s.observers ≡ []
  pub explained : is_some s.close_reason ≡ is_terminal s.state

-- A session that `open_session` builds is well-formed and opening, with the opener first.
pub open_session-IsWellFormed :
    (session_id opener acceptor : String) (s : Session)
    → open_session session_id opener acceptor ≡ ok s
    → IsWellFormed s × (s.state ≡ opening) × (s.participants ≡ (opener, acceptor))
unfolding open_session lookup
open_session-IsWellFormed i a b s h = (
  record {
    distinct = ground (arith, eq_iff a b);
    outside = λ who e. ground arith;
    insiders = λ who e. ground arith;
    unwatched = λ e. ground arith;
    explained = ground arith;
  },
  ground arith,
  ground arith,
)

module _ {s : Session} (v : IsWellFormed s) where
  -- No call changes the participants.
  perform-participants : (c : Call) → (perform s c).0.participants ≡ s.participants
  unfolding perform
  perform-participants (accepts by) = ground arith
  perform-participants c = ground arith

  perform-outside :
      (c : Call) (who : String)
      → is_some (lookup who (perform s c).0.observers) ≡ true
      → is_participant s who ≡ false
  unfolding perform
  perform-outside (grants o ks) who e = ground (
    arith,
    v.outside who,
    eq_iff who o,
    lookup-insert o who (record { kinds = set_extend ks [] }) s.observers,
  )
  perform-outside c who e = ground (arith, v.outside who)

  perform-insiders :
      (c : Call) (who : String)
      → is_some (lookup who (perform s c).0.declared) ≡ true
      → is_participant s who ≡ true
  unfolding perform
  perform-insiders (declares w fs) who e = ground (
    arith,
    v.insiders who,
    eq_iff who w,
    lookup-insert w who (set_extend fs (or_default (lookup w s.declared))) s.declared,
  )
  perform-insiders c who e = ground (arith, v.insiders who)

  perform-unwatched : (c : Call) → (perform s c).0.state ≡ opening → (perform s c).0.observers ≡ []
  unfolding perform
  perform-unwatched (accepts by) e = ground (arith, v.unwatched)
  perform-unwatched c e = ground (arith, v.unwatched)

  perform-explained :
      (c : Call) → is_some (perform s c).0.close_reason ≡ is_terminal (perform s c).0.state
  unfolding perform
  perform-explained (accepts by) = ground (arith, v.explained)
  perform-explained c = ground (arith, v.explained)

  -- Every call, refused or not, keeps a session well-formed and its participants the same.
  pub perform-IsWellFormed :
      (c : Call) → IsWellFormed (perform s c).0 × ((perform s c).0.participants ≡ s.participants)
  perform-IsWellFormed c = (
    record {
      distinct = λ e. v.distinct (cc (perform-participants c));
      outside = λ who e. rw perform-participants (perform-outside c who e);
      insiders = λ who e. rw perform-participants (perform-insiders c who e);
      unwatched = perform-unwatched c;
      explained = perform-explained c;
    },
    perform-participants c,
  )

pub run-IsWellFormed_from :
    (s : Session) (cs : List Call)
    → IsWellFormed s
    → IsWellFormed (run s cs) × ((run s cs).participants ≡ s.participants)
unfolding run
run-IsWellFormed_from s [] v = (v, refl)
run-IsWellFormed_from s (c ∷ cs) v =
    let (w, same) = perform-IsWellFormed v c in
    let (final, kept) = run-IsWellFormed_from (perform s c).0 cs w in (final, kept ∙ same)

-- A session that `open_session` builds is well-formed after any calls, refused ones included: the
-- participants are still the opener and the acceptor, which differ; no observer is a participant;
-- only participants have declared features; there is no observer before the acceptance; and a
-- reason is recorded exactly in the terminal states.
pub run-IsWellFormed :
    (session_id opener acceptor : String) (s : Session) (cs : List Call)
    → open_session session_id opener acceptor ≡ ok s
    → IsWellFormed (run s cs) × ((run s cs).participants ≡ (opener, acceptor))
run-IsWellFormed i a b s cs h =
    let (v, _, parties) = open_session-IsWellFormed i a b s h in
    let (w, kept) = run-IsWellFormed_from s cs v in (w, kept ∙ parties)
