-- ===== src/Secure/Equality.antt =====
-- `==` on the values of src/secure/envelope.rs.
use hacp.Common.{ℕ, String, Bool, true, false, ◌&&◌, Option, none, some, List, [], ◌∷◌, eqb, ◌==◌}
use hacp.Secure.Wire.{Kind, hello, ack, msg, is_hello, is_ack, is_msg, SecureEnvelope}

-- `==` on bytes, on optional values and on envelopes.
unfoldable pub eq_bytes : List ℕ → List ℕ → Bool
eq_bytes [] [] = true
eq_bytes (a ∷ xs) (b ∷ ys) = eqb a b && eq_bytes xs ys
eq_bytes _ _ = false

abbrev pub eq_optional : Option String → Option String → Bool
eq_optional none none = true
eq_optional (some a) (some b) = a == b
eq_optional _ _ = false

abbrev pub eq_number : Option ℕ → Option ℕ → Bool
eq_number none none = true
eq_number (some a) (some b) = eqb a b
eq_number _ _ = false

abbrev pub eq_kind : Kind → Kind → Bool
eq_kind hello k = is_hello k
eq_kind ack k = is_ack k
eq_kind msg k = is_msg k

unfoldable pub eq_envelope : SecureEnvelope → SecureEnvelope → Bool
eq_envelope a b =
    eqb a.v b.v
    && eq_kind a.kind b.kind
    && a.from == b.from
    && a.to == b.to
    && a.contract == b.contract
    && eq_optional a.sid b.sid
    && eq_number a.seq b.seq
    && eq_optional a.epub b.epub
    && eq_optional a.nonce b.nonce
    && eq_optional a.sig b.sig
    && eq_optional a.ct b.ct
    && eq_optional a.ts b.ts
