-- ===== src/Envelope/Message.antt =====
-- The envelope of src/v2/envelope.rs and its validation. A reason that is text is kept as the error that
-- it prints.
use hacp.Common.{
  String, Bool, true, false, not, Option, none, some, List, [], ◌∷◌, Result, ok, ◌>>◌, fail_if,
  map_err, is_some_and, str_is_empty, contains, ◌==◌,
}
use hacp.Canon.Json.{Value, object}
use hacp.Canon.{Crates, CanonError, canonical_json, validate_timestamp}
use hacp.Artifact.Shape.{is_hex_id}
use hacp.Envelope.Urn
use hacp.Envelope.Urn.{UrnError}

abbrev pub protocol : String
protocol = "HACP/2.0"

-- `BadBody` and `BadExtension` with their reasons.
pub data EnvelopeError : Type 0 where
  wrong_protocol : (found : String) → EnvelopeError
  bad_message_id : (found : String) → EnvelopeError
  bad_session_id : EnvelopeError
  bad_from : (found : String) → (reason : UrnError) → EnvelopeError
  bad_to : (found : String) → (reason : UrnError) → EnvelopeError
  bad_kind : EnvelopeError
  bad_timestamp : CanonError → EnvelopeError
  bad_in_reply_to : (found : String) → EnvelopeError
  body_is_no_object : EnvelopeError
  bad_body : CanonError → EnvelopeError
  reserved_extension : (field : String) → EnvelopeError
  bad_extension : (field : String) → CanonError → EnvelopeError

pub record Envelope : Type 0 where
  pub protocol : String
  pub message_id : String
  pub session_id : String
  pub from : String
  pub to : String
  pub kind : String
  pub timestamp : String
  pub in_reply_to : Option String
  pub body : Value
  pub extra : List (String × Value)

-- `Envelope::new`, with the id that it draws and the time that it reads.
unfoldable pub new :
    (session_id from to kind : String) (body : Value) (message_id timestamp : String) → Envelope
new session_id from to kind body message_id timestamp = record {
  protocol = protocol;
  message_id = message_id;
  session_id = session_id;
  from = from;
  to = to;
  kind = kind;
  timestamp = timestamp;
  in_reply_to = none;
  body = body;
  extra = [];
}

abbrev pub is_message_id_shape : String → Bool
is_message_id_shape s = is_hex_id "m-" s

-- `is_object()`.
abbrev pub is_object : Value → Bool
is_object (object m) = true
is_object _ = false

abbrev pub reserved_fields : List String
reserved_fields =
    "protocol" ∷ "message_id" ∷ "session_id" ∷ "from" ∷ "to" ∷ "kind" ∷ "timestamp" ∷ "in_reply_to"
    ∷ "body" ∷ []

module _ (crates : Crates) where
  -- The loop over the fields that the build does not know.
  unfoldable pub check_extra : List (String × Value) → Result EnvelopeError Unit
  unfolding contains canonical_json
  check_extra [] = ok tt
  check_extra ((field, value) ∷ fields) = do
    fail_if (contains field reserved_fields) (reserved_extension field)
    map_err (bad_extension field) (canonical_json crates value)
    check_extra fields

  unfoldable pub validate : Envelope → Result EnvelopeError Unit
  unfolding validate_timestamp canonical_json check_extra
  validate e = do
    fail_if (not (e.protocol == protocol)) (wrong_protocol e.protocol)
    fail_if (not (is_message_id_shape e.message_id)) (bad_message_id e.message_id)
    fail_if (str_is_empty e.session_id) bad_session_id
    map_err (bad_from e.from) (Urn.parse e.from)
    map_err (bad_to e.to) (Urn.parse e.to)
    fail_if (str_is_empty e.kind) bad_kind
    map_err bad_timestamp (validate_timestamp crates e.timestamp)
    fail_if (is_some_and (λ reply. not (is_message_id_shape reply)) e.in_reply_to)
        (bad_in_reply_to (elim e.in_reply_to [ none ↦ "" | some reply ↦ reply ]))
    fail_if (not (is_object e.body)) body_is_no_object
    map_err bad_body (canonical_json crates e.body)
    check_extra e.extra
