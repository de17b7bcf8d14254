-- ===== src/Secure/Completion.antt =====
-- The end of the handshake of src/secure/session.rs: the initiator gets the ack.
use hacp.Common.{
  ℕ, suc, String, Bool, true, false, not, ◌&&◌, ◌||◌, Option, none, some, List, [], ◌∷◌, get_elem?,
  remove_at, Result, ok, ◌>>=◌, ◌>>◌, ok_or, fail_if, ◌==◌, attempt, lookup, insert, is_some_and,
}
use hacp.Secure.Wire.{
  SecureError, schema_violation, identity_mismatch, bad_handshake_signature, session_unknown,
  is_ack, SecureEnvelope, validate,
}
use hacp.Secure.Signing.{ack_signing_input}
use hacp.Secure.Crypto.{SessionKeys, verify, establish, bytes32}
use hacp.Secure.Manager.{Libraries, Pending, Session, SessionManager, context_ok}
use hacp.Secure.Equality.{eq_envelope}
use hacp.Secure.Handshake.{required, Outcome}

module _ (lib : Libraries) where
  -- The loop of `complete`: the position of the first pending handshake whose hello the ack answers.
  unfoldable pub select :
      String → SecureEnvelope → String → ℕ → List Pending → Result SecureError (Option ℕ)
  unfolding ack_signing_input verify
  select hacp_session reply sig i [] = ok none
  select hacp_session reply sig i (p ∷ ps) =
      let rest = select hacp_session reply sig (suc i) ps in
      elim (p.hello.to == reply.from && p.hacp_session == hacp_session) [
        | false ↦ rest
        | true ↦ do
          input ← ack_signing_input lib.canon lib.rfc3339 reply hacp_session p.hello
          elim (verify lib.primitives p.pin input sig) [ true ↦ ok (some i) | false ↦ rest ]
      ]

  -- The checks of `complete`: they give the session id and the signature.
  unfoldable pub check_ack :
      SessionManager → String → SecureEnvelope → Result SecureError (String × String)
  unfolding validate
  check_ack m hacp_session reply = do
    validate lib.rfc3339 reply
    context_ok hacp_session
    fail_if (not (is_ack reply.kind)) schema_violation
    fail_if (not (reply.to == m.local) || reply.from == m.local) identity_mismatch
    sid ← required reply.sid
    sig ← required reply.sig
    ok (sid, sig)

  -- The position of the handshake that the ack completes, the handshake and its keys.
  unfoldable pub match_ack :
      SessionManager
      → String
      → SecureEnvelope
      → (sid sig : String) → Result SecureError (ℕ × Pending × SessionKeys)
  unfolding select bytes32 establish
  match_ack m hacp_session reply sid sig = do
    selected ← select hacp_session reply sig 0 m.pending
    i ← ok_or selected bad_handshake_signature
    p ← ok_or (get_elem? m.pending i) session_unknown
    epub ← required reply.epub >>= bytes32
    ni ← required p.hello.nonce >>= bytes32
    nr ← required reply.nonce >>= bytes32
    derived ← establish lib.primitives p.ephemeral epub ni nr hacp_session m.local reply.from
    fail_if (not (derived.0 == sid)) bad_handshake_signature
    ok (i, p, derived.1)

  -- A completion of the same ack again.
  unfoldable pub is_repeated : SessionManager → String → SecureEnvelope → String → Bool
  unfolding eq_envelope lookup
  is_repeated m hacp_session reply sid =
      is_some_and
        (λ (s : Session).
          s.initiator && s.info.hacp_session == hacp_session && eq_envelope s.ack reply)
        (lookup sid m.active)

  unfoldable pub complete : SessionManager → String → SecureEnvelope → Outcome String
  unfolding check_ack is_repeated match_ack insert
  complete m hacp_session reply = attempt m (check_ack m hacp_session reply) (λ (sid, sig).
      elim (is_repeated m hacp_session reply sid) [
        | true ↦ (m, ok sid)
        | false ↦ attempt m (match_ack m hacp_session reply sid sig) (λ (i, p, keys).
            let session : Session = record {
              info = record {
                sid = sid;
                peer = reply.from;
                local = m.local;
                hacp_session = hacp_session;
                state = "Established";
                send_seq = 0;
              };
              keys = keys;
              pin = p.pin;
              initiator = true;
              order = p.order;
              hello = p.hello;
              ack = reply;
            } in
            (
              record m { pending = remove_at i m.pending; active = insert sid session m.active },
              ok sid,
            ))
      ])
