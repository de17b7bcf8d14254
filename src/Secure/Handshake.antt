-- ===== src/Secure/Handshake.antt =====
-- The handshake of src/secure/session.rs. What the random generator draws is an argument of a call.
use hacp.Common.{
  ℕ, String, true, false, not, ◌&&◌, ◌||◌, Option, none, some, List, [], ◌∷◌, ◌++◌, find, Result,
  ok, err, ◌>>=◌, ◌>>◌, ok_or, fail_if, ◌==◌, attempt, insert, values,
}
use hacp.Secure.Wire.{
  SecureError, schema_violation, identity_mismatch, bad_handshake_signature, Kind, hello, ack,
  is_hello, SecureEnvelope, validate, urn, encode_hex,
}
use hacp.Secure.Signing.{hello_signing_input}
use hacp.Secure.Crypto.{
  EphemeralSecret, SessionKeys, ephemeral_public_key, verify, establish, sign_hello, sign_ack,
  bytes32,
}
use hacp.Secure.Manager.{
  Libraries, Session, SessionManager, context_ok, next_order, bound_pending, is_seen,
  remember_hello,
}
use hacp.Secure.Equality.{eq_bytes, eq_optional}

-- What `OsRng` gives to one call: an ephemeral secret and a nonce, or a failure.
pub record Draw : Type 0 where
  pub ephemeral : Result SecureError EphemeralSecret
  pub nonce : Result SecureError (List ℕ)

abbrev pub handshake : Kind → String → String → List ℕ → List ℕ → SecureEnvelope
handshake kind from to epub nonce = record {
  v = 1;
  kind = kind;
  from = from;
  to = to;
  contract = "";
  sid = none;
  seq = none;
  epub = some (encode_hex epub);
  nonce = some (encode_hex nonce);
  sig = none;
  ct = none;
  ts = none;
}

-- `required`.
abbrev pub required : Option String → Result SecureError String
required v = ok_or v schema_violation

-- A method of the manager that may fail.
abbrev pub Outcome : Type 0 → Type 0
Outcome A = SessionManager × Result SecureError A

-- `m?` on a method of the manager.
abbrev pub then_with : {A B : Type 0} → Outcome A → (SessionManager → A → Outcome B) → Outcome B
then_with (m, ok a) k = k m a
then_with (m, err e) k = (m, err e)

module _ (lib : Libraries) where
  -- The hello with its signature, checked.
  unfoldable pub finish_hello :
      SessionManager → String → SecureEnvelope → Result SecureError SecureEnvelope
  unfolding sign_hello validate
  finish_hello m hacp_session bare = do
    sig ← sign_hello lib.primitives lib.canon lib.rfc3339 m.identity bare hacp_session
    let signed : SecureEnvelope = record bare { sig = some sig }
    validate lib.rfc3339 signed
    ok signed

  -- What `initiate` does before it changes the manager.
  unfoldable pub greet :
      SessionManager
      → (peer hacp_session : String) → Draw
      → Result SecureError (EphemeralSecret × SecureEnvelope)
  unfolding urn finish_hello encode_hex
  greet m peer hacp_session draw = do
    context_ok hacp_session
    fail_if (not (urn peer) || peer == m.local) identity_mismatch
    ephemeral ← draw.ephemeral
    nonce ← draw.nonce
    let bare = handshake hello m.local peer (ephemeral_public_key lib.primitives ephemeral) nonce
    signed ← finish_hello m hacp_session bare
    ok (ephemeral, signed)

  unfoldable pub initiate :
      SessionManager → (peer hacp_session : String) (pin : List ℕ) → Draw → Outcome SecureEnvelope
  unfolding greet next_order bound_pending
  initiate m peer hacp_session pin draw = attempt m (greet m peer hacp_session draw) (λ made.
      then_with (next_order m) (λ counted order.
        let bounded = bound_pending peer counted in
        (
          record bounded {
            pending =
                bounded.pending
                ++ (record {
                  hello = made.1;
                  hacp_session = hacp_session;
                  pin = pin;
                  ephemeral = made.0;
                  order = order;
                })
                  ∷ [];
          },
          ok made.1,
        )))

  -- The checks in front of `respond` and of `respond_once`: they give the signature.
  unfoldable pub check_hello :
      SessionManager → String → SecureEnvelope → List ℕ → Result SecureError String
  unfolding validate hello_signing_input verify
  check_hello m hacp_session greeting pin = do
    validate lib.rfc3339 greeting
    context_ok hacp_session
    fail_if (not (is_hello greeting.kind)) schema_violation
    fail_if (not (greeting.to == m.local) || greeting.from == m.local) identity_mismatch
    transcript ← hello_signing_input lib.canon lib.rfc3339 greeting hacp_session
    sig ← required greeting.sig
    fail_if (not (verify lib.primitives pin transcript sig)) bad_handshake_signature
    ok sig

  -- The session that has answered the same hello.
  unfoldable pub answered : SessionManager → String → SecureEnvelope → List ℕ → Option Session
  unfolding eq_bytes
  answered m hacp_session greeting pin =
      find
        (λ (s : Session).
          not s.initiator
          && s.info.hacp_session == hacp_session
          && eq_bytes s.pin pin
          && eq_optional s.hello.sig greeting.sig
          && s.hello.from == greeting.from)
        (values m.active)

  -- The session id, the keys and the ack of a new answer.
  unfoldable pub answer :
      SessionManager
      → String
      → SecureEnvelope
      → Draw
      → Result SecureError (String × SessionKeys × SecureEnvelope)
  unfolding bytes32 establish sign_ack validate encode_hex
  answer m hacp_session greeting draw = do
    ephemeral ← draw.ephemeral
    nr ← draw.nonce
    epub ← required greeting.epub >>= bytes32
    ni ← required greeting.nonce >>= bytes32
    made ← establish lib.primitives ephemeral epub ni nr hacp_session greeting.from m.local
    let bare =
        handshake ack m.local greeting.from (ephemeral_public_key lib.primitives ephemeral) nr
    let named : SecureEnvelope = record bare { sid = some made.0 }
    sig ← sign_ack lib.primitives lib.canon lib.rfc3339 m.identity named hacp_session greeting
    let signed : SecureEnvelope = record named { sig = some sig }
    validate lib.rfc3339 signed
    ok (made.0, made.1, signed)

  -- The end of `respond`, for a hello that is new to the sessions.
  unfoldable pub admit :
      SessionManager → String → SecureEnvelope → List ℕ → Draw → Outcome SecureEnvelope
  unfolding answer next_order bound_pending insert
  admit m hacp_session greeting pin draw =
      attempt m (answer m hacp_session greeting draw) (λ (sid, keys, reply).
        then_with (next_order m) (λ counted order.
          let bounded = bound_pending greeting.from counted in
          let session : Session = record {
            info = record {
              sid = sid;
              peer = greeting.from;
              local = bounded.local;
              hacp_session = hacp_session;
              state = "AckSent";
              send_seq = 0;
            };
            keys = keys;
            pin = pin;
            initiator = false;
            order = order;
            hello = greeting;
            ack = reply;
          } in
          (record bounded { active = insert sid session bounded.active }, ok reply)))

  unfoldable pub respond :
      SessionManager → String → SecureEnvelope → List ℕ → Draw → Outcome SecureEnvelope
  unfolding check_hello remember_hello answered admit
  respond m hacp_session greeting pin draw =
      attempt m (check_hello m hacp_session greeting pin) (λ sig.
        let known = remember_hello hacp_session sig m in
        elim (answered known hacp_session greeting pin) [
          | some s ↦ (known, ok s.ack)
          | none ↦ admit known hacp_session greeting pin draw
        ])

  -- `map(Some)`.
  abbrev pub map_some : Outcome SecureEnvelope → Outcome (Option SecureEnvelope)
  map_some (m, ok reply) = (m, ok (some reply))
  map_some (m, err e) = (m, err e)

  unfoldable pub respond_once :
      SessionManager → String → SecureEnvelope → List ℕ → Draw → Outcome (Option SecureEnvelope)
  unfolding check_hello respond
  respond_once m hacp_session greeting pin draw =
      attempt m (check_hello m hacp_session greeting pin) (λ sig.
        elim (is_seen (hacp_session, sig) m.seen_hellos) [
          | true ↦ (m, ok none)
          | false ↦ map_some (respond m hacp_session greeting pin draw)
        ])
