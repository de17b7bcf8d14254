-- ===== src/Secure/Messages.antt =====
-- Messages of src/secure/session.rs: sealing, checking and opening them, and the end of sessions.
use hacp.Common.{
  ℕ, ◌+◌, String, true, false, not, ◌||◌, none, some, List, eqb, filter, map, Result, ok, err,
  ◌>>=◌, ◌>>◌, ok_or, fail_if, ◌==◌, attempt, lookup, insert, erase, values, u64_max,
}
use hacp.Secure.Wire.{
  SecureError, schema_violation, identity_mismatch, session_unknown, session_exhausted,
  replay_rejected, bad_message_signature, msg, is_msg, SecureEnvelope, validate, encode_hex,
  decode_hex,
}
use hacp.Secure.Signing.{aad_bytes, message_signing_input}
use hacp.Secure.Crypto.{verify, sign_message}
use hacp.Secure.Crypto
use hacp.Secure.Manager.{Libraries, SessionInfo, Pending, Session, SessionManager, drop_active}
use hacp.Secure.Handshake.{Outcome, required}

unfoldable pub info : SessionManager → String → Result SecureError SessionInfo
unfolding lookup
info m sid = do s ← ok_or (lookup sid m.active) session_unknown; ok s.info

unfoldable pub sessions : SessionManager → List SessionInfo
sessions m = map (λ (s : Session). s.info) (values m.active)

unfoldable pub close : SessionManager → String → Outcome Unit
unfolding lookup erase
close m sid = elim (lookup sid m.active) [
  | none ↦ (m, err session_unknown)
  | some s ↦ (drop_active sid m, ok tt)
]

unfoldable pub close_context : SessionManager → String → SessionManager
close_context m context = record m {
  pending = filter (λ (p : Pending). not (p.hacp_session == context)) m.pending;
  active = filter (λ (e : String × Session). not (e.1.info.hacp_session == context)) m.active;
}

-- The envelope of a message, before it has a text and a signature.
abbrev pub message :
    SessionManager → Session → (sid : String) (seq : ℕ) (contract : String) → SecureEnvelope
message m s sid seq contract = record {
  v = 1;
  kind = msg;
  from = m.local;
  to = s.info.peer;
  contract = contract;
  sid = some sid;
  seq = some seq;
  epub = none;
  nonce = none;
  sig = none;
  ct = none;
  ts = none;
}

-- `send_seq += 1` in the session's record.
abbrev pub burn : Session → Session
burn s = record s { info = record s.info { send_seq = s.info.send_seq + 1 } }

abbrev pub establish_info : Session → Session
establish_info s = record s { info = record s.info { state = "Established" } }

module _ (lib : Libraries) where
  -- The ciphertext of a message.
  unfoldable pub encipher :
      Session → SecureEnvelope → (seq : ℕ) (payload : List ℕ) → Result SecureError (List ℕ)
  unfolding aad_bytes Crypto.seal
  encipher s bare seq payload = do
    aad ← aad_bytes lib.canon lib.rfc3339 bare
    Crypto.seal lib.primitives s.keys s.initiator seq aad payload

  -- The closure `finish`: the envelope with its text, signed.
  unfoldable pub finish :
      SessionManager → SecureEnvelope → (ct : List ℕ) → Result SecureError SecureEnvelope
  unfolding encode_hex sign_message validate
  finish m bare ct = do
    let filled : SecureEnvelope = record bare { ct = some (encode_hex ct) }
    sig ← sign_message lib.primitives lib.canon lib.rfc3339 m.identity filled
    let signed : SecureEnvelope = record filled { sig = some sig }
    validate lib.rfc3339 signed
    ok signed

  unfoldable pub seal :
      SessionManager
      → (sid : String) (seq : ℕ) (contract : String) (payload : List ℕ) → Outcome SecureEnvelope
  unfolding lookup insert erase encipher finish
  seal m sid seq contract payload = attempt m (ok_or (lookup sid m.active) session_unknown) (λ s.
      elim (eqb seq u64_max || eqb s.info.send_seq u64_max) [
        | true ↦ (drop_active sid m, err session_exhausted)
        | false ↦ elim (eqb seq s.info.send_seq) [
          | false ↦ (m, err replay_rejected)
          | true ↦
              let bare = message m s sid seq contract in
              attempt m (encipher s bare seq payload) (λ ct.
                let burned : SessionManager = record m { active = insert sid (burn s) m.active } in
                attempt (drop_active sid burned) (finish burned bare ct)
                  (λ sealed. (burned, ok sealed)))
        ]
      ])

  unfoldable pub verify_message : SessionManager → SecureEnvelope → Result SecureError Unit
  unfolding validate lookup message_signing_input verify
  verify_message m e = do
    validate lib.rfc3339 e
    fail_if (not (is_msg e.kind)) schema_violation
    sid ← required e.sid
    s ← ok_or (lookup sid m.active) session_unknown
    fail_if (not (e.from == s.info.peer) || not (e.to == m.local)) identity_mismatch
    input ← message_signing_input lib.canon lib.rfc3339 e
    sig ← required e.sig
    fail_if (not (verify lib.primitives s.pin input sig)) bad_message_signature

  -- The plaintext of a message that has been checked.
  unfoldable pub decipher : Session → SecureEnvelope → (seq : ℕ) → Result SecureError (List ℕ)
  unfolding aad_bytes decode_hex Crypto.open_with
  decipher s e seq = do
    aad ← aad_bytes lib.canon lib.rfc3339 e
    text ← required e.ct
    ct ← decode_hex text
    Crypto.open_with lib.primitives s.keys s.initiator seq aad ct

  -- The session id and the sequence number of a message that `verify_message` accepts.
  unfoldable pub route : SessionManager → SecureEnvelope → Result SecureError (String × ℕ)
  unfolding verify_message
  route m e = do
    verify_message m e
    sid ← required e.sid
    seq ← ok_or e.seq schema_violation
    ok (sid, seq)

  unfoldable pub open_authenticated : SessionManager → SecureEnvelope → Outcome (List ℕ)
  unfolding route lookup insert erase decipher
  open_authenticated m e = attempt m (route m e) (λ (sid, seq). elim (eqb seq u64_max) [
    | true ↦ (drop_active sid m, err session_exhausted)
    | false ↦ attempt m (ok_or (lookup sid m.active) session_unknown) (λ s.
        attempt m (decipher s e seq)
          (λ pt. (record m { active = insert sid (establish_info s) m.active }, ok pt)))
  ])
