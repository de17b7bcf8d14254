-- ===== src/Secure/Signing.antt =====
-- What src/secure/envelope.rs signs and authenticates.
use hacp.Common.{
  ℕ, String, Bool, not, ◌||◌, Option, none, some, List, [], ◌∷◌, ◌++◌, filter, Result, ok, ◌>>=◌,
  ◌>>◌, ok_or, fail_if, map_err, as_bytes, decimal, ◌==◌,
}
use hacp.Canon.Json.{Value, number, string, object, members}
use hacp.Canon.{Crates, canonical_json}
use hacp.Secure.Wire.{
  SecureError, schema_violation, Kind, hello, ack, msg, is_hello, is_ack, is_msg, SecureEnvelope,
  header, validate, decode_hex,
}

abbrev kind_name : Kind → String
kind_name hello = "hello"
kind_name ack = "ack"
kind_name msg = "msg"

-- A member that is skipped where it is `None`.
abbrev optional : String → Option String → List (String × Value)
optional key none = []
optional key (some s) = (key, string s) ∷ []

abbrev optional_number : String → Option ℕ → List (String × Value)
optional_number key none = []
optional_number key (some n) = (key, number (decimal n)) ∷ []

-- `serde_json::to_value(self)`, the members of the object.
unfoldable pub to_members : SecureEnvelope → List (String × Value)
unfolding decimal
to_members e =
    ("v", number (decimal e.v))
    ∷ ("kind", string (kind_name e.kind))
    ∷ ("from", string e.from)
    ∷ ("to", string e.to)
    ∷ ("contract", string e.contract)
    ∷ (optional "sid" e.sid
        ++ (optional_number "seq" e.seq
            ++ (optional "epub" e.epub
                ++ (optional "nonce" e.nonce
                    ++ (optional "sig" e.sig ++ (optional "ct" e.ct ++ optional "ts" e.ts))))))

-- `obj.remove`.
unfoldable pub remove : String → List (String × Value) → List (String × Value)
remove key ms = filter (λ (m : String × Value). not (m.0 == key)) ms

-- `decode_hex(field.as_deref().ok_or(..)?)?`.
unfoldable pub decode_field : Option String → Result SecureError (List ℕ)
unfolding decode_hex
decode_field field = do text ← ok_or field schema_violation; decode_hex text

-- What the module takes from other crates: canonical JSON's, and chrono's parser of RFC 3339 dates.
module _ (crates : Crates) (rfc3339 : String → Bool) where
  canonical : List (String × Value) → Result SecureError (List ℕ)
  unfolding canonical_json as_bytes
  canonical ms = do
    text ← map_err (λ _. schema_violation) (canonical_json crates (object (members ms)))
    ok (as_bytes text)

  unfoldable pub canonical_bytes : SecureEnvelope → Result SecureError (List ℕ)
  unfolding validate to_members canonical
  canonical_bytes e = validate rfc3339 e >> canonical (to_members e)

  unfoldable pub aad_bytes : SecureEnvelope → Result SecureError (List ℕ)
  unfolding header to_members canonical remove
  aad_bytes e = header rfc3339 e >> canonical (remove "sig" (remove "ct" (to_members e)))

  unfoldable pub message_signing_input : SecureEnvelope → Result SecureError (List ℕ)
  unfolding aad_bytes decode_field as_bytes
  message_signing_input e = do
    fail_if (not (is_msg e.kind)) schema_violation
    aad ← aad_bytes e
    ct ← decode_field e.ct
    ok (as_bytes "HACP-SECURE/v1/msg" ++ (aad ++ ct))

  unfoldable pub hello_signing_input : SecureEnvelope → String → Result SecureError (List ℕ)
  unfolding header decode_field as_bytes
  hello_signing_input e hacp_session = do
    header rfc3339 e
    fail_if (not (is_hello e.kind)) schema_violation
    epub ← decode_field e.epub
    nonce ← decode_field e.nonce
    ok (
        as_bytes "HACP-SECURE/v1/hello"
        ++ (as_bytes hacp_session ++ (as_bytes e.from ++ (as_bytes e.to ++ (epub ++ nonce)))))

  unfoldable pub ack_signing_input :
      SecureEnvelope → String → SecureEnvelope → Result SecureError (List ℕ)
  unfolding header decode_field as_bytes
  ack_signing_input e hacp_session greeting = do
    header rfc3339 e
    header rfc3339 greeting
    fail_if
        (not (is_ack e.kind)
          || not (is_hello greeting.kind)
          || not (e.from == greeting.to)
          || not (e.to == greeting.from))
        schema_violation
    epub ← decode_field greeting.epub
    nonce ← decode_field greeting.nonce
    own_epub ← decode_field e.epub
    own_nonce ← decode_field e.nonce
    ok (
        as_bytes "HACP-SECURE/v1/ack"
        ++ (as_bytes hacp_session
            ++ (as_bytes e.from
                ++ (as_bytes e.to ++ (epub ++ (nonce ++ (own_epub ++ own_nonce)))))))
