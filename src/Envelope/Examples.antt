-- ===== src/Envelope/Examples.antt =====
-- An envelope of src/v2/envelope.rs, and the theorem at it.
use hacp.Common.{
  ◌≡◌, refl, true, none, [], ◌∷◌, err, is_ok, contains, chars_all, strip_prefix, as_bytes,
  contains_char, decimal,
}
use hacp.Canon.Json.{number, object, members, string}
use hacp.Canon.{canonical_json, write_value, digest_of, validate_timestamp}
use hacp.Canon.Examples.{sample_crates}
use hacp.Artifact.Shape.{is_hex_id}
use hacp.Envelope.Urn
use hacp.Envelope.Kinds.{heartbeat}
use hacp.Envelope.Message.{Envelope, new, validate, check_extra, reserved_extension}
use hacp.Envelope.Body.{AreCanonical, validate-AreCanonical}

-- What a test by `refl` has to unfold.
envelopes : Unit {0}
unfolding new validate is_hex_id check_extra canonical_json write_value validate_timestamp contains
    chars_all strip_prefix as_bytes contains_char decimal Urn.parse
envelopes = tt

abbrev fresh : Envelope
fresh = record {
  protocol = "HACP/2.0";
  message_id = "m-0123456789ab";
  session_id = "s-1";
  from = "urn:hacp:agent:ann";
  to = "urn:hacp:agent:bob";
  kind = heartbeat;
  timestamp = "2026-07-01T00:00:00Z";
  in_reply_to = none;
  body = object (members (("n", number "1") ∷ []));
  extra = ("note", string "x") ∷ [];
}

reserved :
    validate sample_crates (record fresh { extra = ("to", string "x") ∷ [] })
    ≡ err (reserved_extension "to")
unfolding envelopes
reserved = refl

validate-AreCanonical_example :
    (is_ok (digest_of sample_crates fresh.body) ≡ true)
    × (is_ok (Urn.parse fresh.from) ≡ true)
    × (is_ok (Urn.parse fresh.to) ≡ true)
    × (is_ok (validate_timestamp sample_crates fresh.timestamp) ≡ true)
    × AreCanonical sample_crates fresh.extra
unfolding envelopes
validate-AreCanonical_example = validate-AreCanonical sample_crates fresh refl
