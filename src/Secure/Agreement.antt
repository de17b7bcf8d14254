-- ===== src/Secure/Agreement.antt =====
-- What src/secure/crypto.rs gives to the two ends of a session, where the primitives keep their promises.
use hacp.Common.{ℕ, ◌<◌, String, ◌≡◌, refl, sym, true, false, not, Bool, some, List, All, ok, arith}
use hacp.Secure.Hex.{decode_hex-encode_hex}
use hacp.Secure.Crypto.{
  Primitives, IdentitySecret, EphemeralSecret, SessionKeys, public_key, ephemeral_public_key, sign,
  verify, establish, seal, open_with, nonce96,
}

module _ (p : Primitives) where
  -- A signature of an identity verifies under its public key, where Ed25519's does and signatures are
  -- bytes.
  pub verify-sign :
      (identity : IdentitySecret) (input : List ℕ)
      → All (λ b. b < 256) (p.ed25519_sign identity.seed input)
      → p.ed25519_verify (p.ed25519_public identity.seed) input (p.ed25519_sign identity.seed input)
        ≡ true
      → verify p (public_key p identity) input (sign p identity input) ≡ true
  unfolding verify sign
  verify-sign identity input bytes valid =
      rw (decode_hex-encode_hex (p.ed25519_sign identity.seed input) bytes, verify) valid

  open_with-seal :
      (keys : SessionKeys)
      → ((key nonce aad text ct : List ℕ)
          → p.encrypt key nonce aad text ≡ some ct
          → p.decrypt key nonce aad ct ≡ some text)
      → (from_initiator : Bool) (seq : ℕ) (aad text ct : List ℕ)
      → seal p keys from_initiator seq aad text ≡ ok ct
      → open_with p keys (not from_initiator) seq aad ct ≡ ok text
  unfolding seal open_with
  open_with-seal keys aead true seq aad text ct h =
      rw (aead keys.i2r (nonce96 seq) aad text ct (ground (arith, h))) refl
  open_with-seal keys aead false seq aad text ct h =
      rw (aead keys.r2i (nonce96 seq) aad text ct (ground (arith, h))) refl

  -- Where Diffie-Hellman agrees and decryption undoes encryption, two ephemeral secrets establish the same
  -- session id and keys, and what either end seals with them the other opens.
  pub establish-agree :
      (a b : EphemeralSecret) (ni nr : List ℕ) (context initiator responder : String)
      → (p.x25519 a.scalar (p.x25519 b.scalar p.x25519_base)
          ≡ p.x25519 b.scalar (p.x25519 a.scalar p.x25519_base))
      → ((key nonce aad text ct : List ℕ)
          → p.encrypt key nonce aad text ≡ some ct
          → p.decrypt key nonce aad ct ≡ some text)
      → (established : String × SessionKeys)
      → establish p a (ephemeral_public_key p b) ni nr context initiator responder ≡ ok established
      → (establish p b (ephemeral_public_key p a) ni nr context initiator responder
          ≡ ok established)
        × ((from_initiator : Bool) (seq : ℕ) (aad text ct : List ℕ)
            → seal p established.1 from_initiator seq aad text ≡ ok ct
            → open_with p established.1 (not from_initiator) seq aad ct ≡ ok text)
  unfolding establish
  establish-agree a b ni nr context initiator responder dh aead established h =
      (rw (sym dh) h, open_with-seal established.1 aead)
