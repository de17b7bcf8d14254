-- ===== src/Secure/Crypto.antt =====
-- src/secure/crypto.rs: keys, signatures and ciphertexts over the crates that compute them.
use hacp.Common.{
  ℕ, ◌/◌, ◌%◌, ◌^◌, String, Bool, false, not, Option, List, [], ◌∷◌, ◌++◌, all, eqb, length, Result,
  ok, err, ◌>>=◌, ◌>>◌, ok_or, fail_if, as_bytes, if◌then◌else◌,
}
use hacp.Canon.{Crates}
use hacp.Secure.Wire.{
  SecureError, schema_violation, bad_handshake_signature, guardian_unavailable, tamper_detected,
  SecureEnvelope, encode_hex, decode_hex,
}
use hacp.Secure.Signing.{message_signing_input, hello_signing_input, ack_signing_input}

-- The primitives: Ed25519 signing and strict verification of ed25519_dalek (with its parsers of keys and
-- signatures), X25519, HKDF-SHA256 with a salt, a secret, an info and a length, and ChaCha20-Poly1305
-- with a key, a nonce, associated data and a text.
pub record Primitives : Type 0 where
  pub ed25519_public : List ℕ → List ℕ
  pub ed25519_sign : List ℕ → List ℕ → List ℕ
  pub ed25519_verify : List ℕ → List ℕ → List ℕ → Bool
  pub x25519 : List ℕ → List ℕ → List ℕ
  pub x25519_base : List ℕ
  pub hkdf : (salt secret info : List ℕ) → ℕ → Option (List ℕ)
  pub encrypt : (key nonce aad text : List ℕ) → Option (List ℕ)
  pub decrypt : (key nonce aad text : List ℕ) → Option (List ℕ)

pub record IdentitySecret : Type 0 where
  pub seed : List ℕ

pub record EphemeralSecret : Type 0 where
  pub scalar : List ℕ

pub record SessionKeys : Type 0 where
  pub i2r : List ℕ
  pub r2i : List ℕ

unfoldable pub bytes32 : String → Result SecureError (List ℕ)
unfolding decode_hex
bytes32 hex = do
  bytes ← decode_hex hex
  fail_if (not (eqb (length bytes) 32)) schema_violation
  ok bytes

-- `to_be_bytes` behind four zeros.
abbrev pub nonce96 : ℕ → List ℕ
nonce96 seq =
    0
    ∷ 0
    ∷ 0
    ∷ 0
    ∷ seq / 2 ^ 56 % 256
    ∷ seq / 2 ^ 48 % 256
    ∷ seq / 2 ^ 40 % 256
    ∷ seq / 2 ^ 32 % 256
    ∷ seq / 2 ^ 24 % 256
    ∷ seq / 2 ^ 16 % 256
    ∷ seq / 2 ^ 8 % 256
    ∷ seq % 256
    ∷ []

module _ (p : Primitives) where
  abbrev pub public_key : IdentitySecret → List ℕ
  public_key identity = p.ed25519_public identity.seed

  abbrev pub ephemeral_public_key : EphemeralSecret → List ℕ
  ephemeral_public_key e = p.x25519 e.scalar p.x25519_base

  unfoldable pub sign : IdentitySecret → List ℕ → String
  unfolding encode_hex
  sign identity input = encode_hex (p.ed25519_sign identity.seed input)

  unfoldable pub verify : List ℕ → List ℕ → String → Bool
  unfolding decode_hex
  verify pk input sig = elim (decode_hex sig) [
    | ok bytes ↦ p.ed25519_verify pk input bytes
    | err e ↦ false
  ]

  -- The context of the key schedule, and the three keys that it expands.
  unfoldable pub schedule :
      (shared ni nr : List ℕ)
      → (context initiator responder : String) → Result SecureError (String × SessionKeys)
  unfolding as_bytes encode_hex
  schedule shared ni nr context initiator responder = do
    let ctx =
        as_bytes "HACP-SECURE/v1/session"
        ++ (as_bytes context ++ (as_bytes initiator ++ as_bytes responder))
    let expand = λ (label : String) (n : ℕ).
        ok_or (p.hkdf (ni ++ nr) shared (ctx ++ as_bytes label) n) guardian_unavailable
    sid ← expand "sid" 16
    i2r ← expand "k_i2r" 32
    r2i ← expand "k_r2i" 32
    ok (encode_hex sid, record { i2r = i2r; r2i = r2i })

  unfoldable pub establish :
      EphemeralSecret
      → (peer ni nr : List ℕ) → (context initiator responder : String)
      → Result SecureError (String × SessionKeys)
  unfolding schedule
  establish own peer ni nr context initiator responder = do
    let shared = p.x25519 own.scalar peer
    fail_if (all (λ b. eqb b 0) shared) bad_handshake_signature
    schedule shared ni nr context initiator responder

  unfoldable pub seal :
      SessionKeys → (initiator : Bool) (seq : ℕ) (aad pt : List ℕ) → Result SecureError (List ℕ)
  seal keys initiator seq aad pt =
      ok_or (p.encrypt (if initiator then keys.i2r else keys.r2i) (nonce96 seq) aad pt)
        guardian_unavailable

  unfoldable pub open_with :
      SessionKeys → (initiator : Bool) (seq : ℕ) (aad ct : List ℕ) → Result SecureError (List ℕ)
  open_with keys initiator seq aad ct =
      ok_or (p.decrypt (if initiator then keys.r2i else keys.i2r) (nonce96 seq) aad ct)
        tamper_detected

  module _ (crates : Crates) (rfc3339 : String → Bool) where
    unfoldable pub sign_hello : IdentitySecret → SecureEnvelope → String → Result SecureError String
    unfolding hello_signing_input sign
    sign_hello identity e context = do
      input ← hello_signing_input crates rfc3339 e context
      ok (sign identity input)

    unfoldable pub sign_ack :
        IdentitySecret → SecureEnvelope → String → SecureEnvelope → Result SecureError String
    unfolding ack_signing_input sign
    sign_ack identity e context hello = do
      input ← ack_signing_input crates rfc3339 e context hello
      ok (sign identity input)

    unfoldable pub sign_message : IdentitySecret → SecureEnvelope → Result SecureError String
    unfolding message_signing_input sign
    sign_message identity e = do
      input ← message_signing_input crates rfc3339 e
      ok (sign identity input)
