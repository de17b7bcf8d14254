-- ===== src/Session/Ops.antt =====
-- The calls that a host makes on one session of src/v2/session.rs, as data, and a run of them.
use hacp.Common.{String, List, [], ◌∷◌}
use hacp.Session.{
  Session, Outcome, accept, declare_features, grant_observer, close, close_for_capability_mismatch,
  abandon,
}

pub data Call : Type 0 where
  accepts : (by : String) → Call
  declares : (who : String) (features : List String) → Call
  grants : (observer : String) (kinds : List String) → Call
  mismatches : (feature : String) → Call
  closes : (by reason : String) → Call
  abandons : (reason : String) → Call

unfoldable pub perform : Session → Call → Outcome
unfolding accept declare_features grant_observer close close_for_capability_mismatch abandon
perform s (accepts by) = accept s by
perform s (declares who features) = declare_features s who features
perform s (grants observer kinds) = grant_observer s observer kinds
perform s (mismatches feature) = close_for_capability_mismatch s feature
perform s (closes by reason) = close s by reason
perform s (abandons reason) = abandon s reason

-- A refused call does not stop the host.
unfoldable pub run : Session → List Call → Session
unfolding perform
run s [] = s
run s (c ∷ cs) = run (perform s c).0 cs
