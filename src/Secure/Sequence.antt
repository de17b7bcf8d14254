-- ===== src/Secure/Sequence.antt =====
-- Sequence numbers of src/secure/session.rs: `seal` uses each once.
use hacp.Common.{
  ℕ, ◌<◌, ◌/◌, ◌%◌, ◌^◌, String, ◌≡◌, refl, ◌∙◌, ap, ◌⊎◌, none, some, List, arith, inl, inr,
  if◌then◌else◌, eq_refl, eqb, ok, err, ok_or, u64_max, ◌≢◌, get_or, lookup, insert, lookup-insert,
  lookup-erase, ◌==◌, ◌||◌,
}
use hacp.Secure.Wire.{validate, encode_hex, SecureEnvelope, session_unknown}
use hacp.Secure.Crypto.{nonce96, sign_message}
use hacp.Secure.Manager.{Libraries, SessionManager, Session, drop_active}
use hacp.Secure.Handshake.{Outcome}
use hacp.Secure.Messages.{seal, burn, message, encipher, finish}
use hacp.Secure.Outcomes.{signed_keeps, attempt_gives, test_gives}
use hacp.Secure.Few.{found_some}

-- Different sequence numbers make different nonces.
pub nonce96_injective : (a b : ℕ) → a < 2 ^ 64 → b < 2 ^ 64 → nonce96 a ≡ nonce96 b → a ≡ b
nonce96_injective a b ha hb h =
    let b56 : a / 2 ^ 56 % 256 ≡ b / 2 ^ 56 % 256 = ap (λ l. get_or l 4 0) h in
    let b48 : a / 2 ^ 48 % 256 ≡ b / 2 ^ 48 % 256 = ap (λ l. get_or l 5 0) h in
    let b40 : a / 2 ^ 40 % 256 ≡ b / 2 ^ 40 % 256 = ap (λ l. get_or l 6 0) h in
    let b32 : a / 2 ^ 32 % 256 ≡ b / 2 ^ 32 % 256 = ap (λ l. get_or l 7 0) h in
    let b24 : a / 2 ^ 24 % 256 ≡ b / 2 ^ 24 % 256 = ap (λ l. get_or l 8 0) h in
    let b16 : a / 2 ^ 16 % 256 ≡ b / 2 ^ 16 % 256 = ap (λ l. get_or l 9 0) h in
    let b8 : a / 2 ^ 8 % 256 ≡ b / 2 ^ 8 % 256 = ap (λ l. get_or l 10 0) h in
    let b0 : a % 256 ≡ b % 256 = ap (λ l. get_or l 11 0) h in
    let q56 : a / 2 ^ 56 ≡ b / 2 ^ 56 = omega (arith, b56) in
    let q48 : a / 2 ^ 48 ≡ b / 2 ^ 48 = omega (arith, q56, b48) in
    let q40 : a / 2 ^ 40 ≡ b / 2 ^ 40 = omega (arith, q48, b40) in
    let q32 : a / 2 ^ 32 ≡ b / 2 ^ 32 = omega (arith, q40, b32) in
    let q24 : a / 2 ^ 24 ≡ b / 2 ^ 24 = omega (arith, q32, b24) in
    let q16 : a / 2 ^ 16 ≡ b / 2 ^ 16 = omega (arith, q24, b16) in
    let q8 : a / 2 ^ 8 ≡ b / 2 ^ 8 = omega (arith, q16, b8) in omega (arith, q8, b0)

-- What a seal does to the session: it ends with the state as it was, or without the session, or with an
-- envelope of the session's next sequence number, which the session then has spent.
abbrev pub Spends : SessionManager → String → ℕ → Outcome SecureEnvelope → Type 0
Spends m sid seq (n, err e) = (n ≡ m) ⊎ (lookup sid n.active ≡ none)
Spends m sid seq (n, ok sealed) =
    (s : Session) × (lookup sid m.active ≡ some s)
    × (s.info.send_seq ≡ seq)
    × (seq ≢ u64_max)
    × (sealed.seq ≡ some seq)
    × (lookup sid n.active ≡ some (burn s))

own : {A : Type 0} (sid : String) (x y : A) → (if sid == sid then x else y) ≡ x
own sid x y = rw (eq_refl sid) refl

ended : (sid : String) (m : SessionManager) → lookup sid (drop_active sid m).active ≡ none
ended sid m = lookup-erase sid sid m.active ∙ own sid none (lookup sid m.active)

module _ (lib : Libraries) where
  finish-seq :
      (m : SessionManager) (bare : SecureEnvelope) (ct : List ℕ) (sealed : SecureEnvelope)
      → finish lib m bare ct ≡ ok sealed
      → sealed.seq ≡ bare.seq
  unfolding finish
  finish-seq m bare ct sealed h =
      signed_keeps (λ e. e.seq) (λ e sig. refl) (validate lib.rfc3339)
        (sign_message lib.primitives lib.canon lib.rfc3339 m.identity
          (record bare { ct = some (encode_hex ct) }))
        (record bare { ct = some (encode_hex ct) }) sealed h

  -- `seal` ends in one of three ways: with an error and the manager as it was, with an error and without
  -- the session, or with an envelope of the number asked for, which is the session's next one and below
  -- the largest number, and then the session's next number is one more.
  pub seal-Spends :
      (m : SessionManager) (sid : String) (seq : ℕ) (contract : String) (payload : List ℕ)
      → Spends m sid seq (seal lib m sid seq contract payload)
  unfolding seal
  seal-Spends m sid seq contract payload =
      attempt_gives (Spends m sid seq) m (ok_or (lookup sid m.active) session_unknown) _
        (λ e h. inl refl)
        (λ s found.
          test_gives (Spends m sid seq) (eqb seq u64_max || eqb s.info.send_seq u64_max) _ _
            (λ full. inr (ended sid m))
            (λ room.
              test_gives (Spends m sid seq) (eqb seq s.info.send_seq) _ _
                (λ next.
                  let burned : SessionManager = record m {
                    active = insert sid (burn s) m.active;
                  } in
                  attempt_gives (Spends m sid seq) m
                    (encipher lib s (message m s sid seq contract) seq payload) _ (λ e h. inl refl)
                    (λ ct made.
                      attempt_gives (Spends m sid seq) (drop_active sid burned)
                        (finish lib burned (message m s sid seq contract) ct)
                        (λ sealed. (burned, ok sealed)) (λ e h. inr (ended sid burned))
                        (λ sealed done. (
                          s,
                          found_some sid m.active s found,
                          ground (arith, next),
                          ground (arith, room),
                          finish-seq burned (message m s sid seq contract) ct sealed done,
                          lookup-insert sid sid (burn s) m.active
                              ∙ own sid (some (burn s)) (lookup sid m.active),
                        ))))
                (λ replayed. inl refl)))
