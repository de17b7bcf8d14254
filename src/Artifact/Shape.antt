-- ===== src/Artifact/Shape.antt =====
-- The shapes of identifiers: `is_digest_shape` of src/v2/artifact.rs, and the ids of src/v2/grant.rs,
-- src/v2/evidence.rs and src/v2/verification.rs.
use Prim.Native.String.{len}
use hacp.Common.{String, Bool, ◌&&◌, leb, eqb, is_some_and, chars_all, is_lower_hex, strip_prefix}

unfoldable pub is_digest_shape : String → Bool
unfolding chars_all
is_digest_shape s = eqb (len s) 64 && chars_all is_lower_hex s

-- A prefix, then at least 12 lowercase hexadecimal digits.
unfoldable pub is_hex_id : String → String → Bool
unfolding chars_all strip_prefix
is_hex_id prefix id =
    is_some_and (λ rest. leb 12 (len rest) && chars_all is_lower_hex rest) (strip_prefix prefix id)
