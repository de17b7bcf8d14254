-- ===== src/Secure/Calls.antt =====
-- The calls of `SessionManager` of src/secure/session.rs as data, and the states that they lead to.
use hacp.Common.{ℕ, String, List, [], ◌∷◌}
use hacp.Secure.Wire.{SecureEnvelope}
use hacp.Secure.Manager.{Libraries, SessionManager}
use hacp.Secure.Handshake.{Draw, initiate, respond, respond_once}
use hacp.Secure.Completion.{complete}
use hacp.Secure.Messages.{close, close_context, seal, open_authenticated}

pub data Call : Type 0 where
  initiates : (peer hacp_session : String) (pin : List ℕ) → Draw → Call
  responds : (hacp_session : String) → SecureEnvelope → (pin : List ℕ) → Draw → Call
  responds_once : (hacp_session : String) → SecureEnvelope → (pin : List ℕ) → Draw → Call
  completes : (hacp_session : String) → SecureEnvelope → Call
  seals : (sid : String) (seq : ℕ) (contract : String) (payload : List ℕ) → Call
  opens : SecureEnvelope → Call
  closes : (sid : String) → Call
  closes_context : (context : String) → Call

module _ (lib : Libraries) where
  unfoldable pub perform : SessionManager → Call → SessionManager
  unfolding initiate respond respond_once complete seal open_authenticated close close_context
  perform m (initiates peer session pin draw) = (initiate lib m peer session pin draw).0
  perform m (responds session greeting pin draw) = (respond lib m session greeting pin draw).0
  perform m (responds_once session greeting pin draw) =
      (respond_once lib m session greeting pin draw).0
  perform m (completes session reply) = (complete lib m session reply).0
  perform m (seals sid seq contract payload) = (seal lib m sid seq contract payload).0
  perform m (opens e) = (open_authenticated lib m e).0
  perform m (closes sid) = (close m sid).0
  perform m (closes_context context) = close_context m context

  unfoldable pub run : SessionManager → List Call → SessionManager
  unfolding perform
  run m [] = m
  run m (c ∷ cs) = run (perform m c) cs
