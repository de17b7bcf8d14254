-- ===== src/Secure/Wire.antt =====
-- The wire values of src/secure/envelope.rs and the errors of src/secure/mod.rs.
use Prim.Native.String
use hacp.Common.{
  ℕ, ◌+◌, ◌-◌, ◌*◌, ◌/◌, ◌%◌, String, Bool, true, false, not, ◌&&◌, ◌||◌, eqb, ltb, leb, length,
  all, get_or, Option, List, [], ◌∷◌, Result, ok, err, is_ok, is_some_and, is_some, hex_digit,
  as_bytes, strip_prefix, is_ascii_digit, is_ascii_lowercase, is_ascii_uppercase, str_is_empty,
  if◌then◌else◌, ◌>>◌, fail_if,
}

pub data SecureError : Type 0 where
  schema_violation : SecureError
  downgrade_detected : SecureError
  session_unknown : SecureError
  session_expired : SecureError
  session_exhausted : SecureError
  identity_mismatch : SecureError
  bad_handshake_signature : SecureError
  bad_message_signature : SecureError
  replay_rejected : SecureError
  sequence_gap : SecureError
  hold_overflow : SecureError
  tamper_detected : SecureError
  contract_pending : SecureError
  contract_mismatch : SecureError
  guardian_unavailable : SecureError
  rate_limited : SecureError
  unknown_operation : SecureError

pub data Kind : Type 0 where
  hello : Kind
  ack : Kind
  msg : Kind

pub record SecureEnvelope : Type 0 where
  pub v : ℕ
  pub kind : Kind
  pub from : String
  pub to : String
  pub contract : String
  pub sid : Option String
  pub seq : Option ℕ
  pub epub : Option String
  pub nonce : Option String
  pub sig : Option String
  pub ct : Option String
  pub ts : Option String

-- `kind ==`.
abbrev pub is_hello : Kind → Bool
is_hello hello = true
is_hello _ = false

abbrev pub is_ack : Kind → Bool
is_ack ack = true
is_ack _ = false

abbrev pub is_msg : Kind → Bool
is_msg msg = true
is_msg _ = false

-- `HEX[(b >> 4)]` and `HEX[(b & 15)]`.
unfoldable pub encode_hex : List ℕ → String
unfolding hex_digit
encode_hex [] = ""
encode_hex (b ∷ bytes) =
    Prim.Native.String.◌++◌ (hex_digit (b / 16))
      (Prim.Native.String.◌++◌ (hex_digit (b % 16)) (encode_hex bytes))

abbrev pub is_hex_byte : ℕ → Bool
is_hex_byte b = is_ascii_digit b || (leb b'a' b && leb b b'f')

abbrev pub digit : ℕ → ℕ
digit b = if leb b b'9' then b - b'0' else (b - b'a') + 10

-- `chunks_exact(2)`, each chunk as the byte it writes.
abbrev pub decode_pairs : List ℕ → List ℕ
decode_pairs (a ∷ b ∷ bytes) = (digit a * 16 + digit b) ∷ decode_pairs bytes
decode_pairs _ = []

unfoldable pub decode_hex : String → Result SecureError (List ℕ)
unfolding as_bytes
decode_hex s =
    let bytes = as_bytes s in
    if not (eqb (length bytes % 2) 0) || not (all is_hex_byte bytes)
    then err schema_violation
    else ok (decode_pairs bytes)

unfoldable pub fixed_hex : String → ℕ → Bool
unfolding decode_hex
fixed_hex s len = eqb (length (as_bytes s)) (len * 2) && is_ok (decode_hex s)

abbrev is_ascii_alphanumeric : ℕ → Bool
is_ascii_alphanumeric c = is_ascii_digit c || is_ascii_lowercase c || is_ascii_uppercase c

-- `urn`, and `valid_urn` of src/secure/session.rs, which has the same body.
unfoldable pub urn : String → Bool
unfolding strip_prefix as_bytes
urn s =
    is_some_and
      (λ name.
        not (str_is_empty name)
        && is_ascii_alphanumeric (get_or (as_bytes name) 0 0)
        && all (λ b. is_ascii_lowercase b || is_ascii_digit b || eqb b b'-') (as_bytes name))
      (strip_prefix "urn:hacp:agent:" s)

-- `value.as_deref().is_some_and(|s| !fixed_hex(s, len))`.
abbrev is_bad_field : Option String → ℕ → Bool
is_bad_field value len = is_some_and (λ s. not (fixed_hex s len)) value

module _ (rfc3339 : String → Bool) where
  -- A date of chrono's RFC 3339 parser with a `T` behind the day.
  abbrev is_timestamp : String → Bool
  is_timestamp s =
      let separator = get_or (as_bytes s) 10 0 in
      (eqb separator b'T' || eqb separator b't') && rfc3339 s

  unfoldable pub header : SecureEnvelope → Result SecureError Unit
  unfolding urn fixed_hex decode_hex strip_prefix as_bytes
  header e = do
    fail_if (not (eqb e.v 1) || not (urn e.from) || not (urn e.to)) schema_violation
    fail_if
        (not (str_is_empty e.contract)
          && not (is_some_and (λ s. fixed_hex s 32) (strip_prefix "sha256:" e.contract)))
        schema_violation
    fail_if
        (is_bad_field e.sid 16
          || is_bad_field e.epub 32
          || is_bad_field e.nonce 32
          || is_bad_field e.sig 64)
        schema_violation
    fail_if (is_some_and (λ s. ltb (length (as_bytes s)) 32 || not (is_ok (decode_hex s))) e.ct)
        schema_violation
    fail_if (is_some_and (λ s. not (is_timestamp s)) e.ts) schema_violation
    elim (is_msg e.kind) [
      | true ↦ fail_if (not (is_some e.sid) || not (is_some e.seq)) schema_violation
      | false ↦ do
        fail_if (not (str_is_empty e.contract) || not (is_some e.epub) || not (is_some e.nonce))
            schema_violation
        fail_if (is_ack e.kind && not (is_some e.sid)) schema_violation
    ]

  unfoldable pub validate : SecureEnvelope → Result SecureError Unit
  unfolding header
  validate e = do
    header e
    fail_if (not (is_some e.sig) || (is_msg e.kind && not (is_some e.ct))) schema_violation
