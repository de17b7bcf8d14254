-- ===== src/Envelope/Urn.antt =====
-- `agent_urn` of src/v2/envelope.rs. A message built by `format!` is kept as the case that it
-- reports, with the value that it prints.
use Prim.Native.String.{len}
use hacp.Common.{
  ℕ, String, Bool, not, ◌&&◌, ◌||◌, leb, eqb, Result, ok, ◌>>=◌, ◌>>◌, fail_if, ok_or, chars_all,
  strip_prefix, is_ascii_digit, is_ascii_lowercase,
}

pub data UrnError : Type 0 where
  not_an_agent_urn : (urn : String) → UrnError
  bad_length : (len : ℕ) → UrnError
  bad_characters : (name : String) → UrnError

abbrev pub urn_prefix : String
urn_prefix = "urn:hacp:agent:"

abbrev pub is_local_name_char : ℕ → Bool
is_local_name_char c =
    is_ascii_lowercase c || is_ascii_digit c || eqb c b'.' || eqb c b'_' || eqb c b'-'

unfoldable pub validate_local_name : String → Result UrnError Unit
unfolding chars_all
validate_local_name name = do
  let n = len name
  fail_if (not (leb 1 n && leb n 64)) (bad_length n)
  fail_if (not (chars_all is_local_name_char name)) (bad_characters name)

unfoldable pub mint : String → Result UrnError String
unfolding validate_local_name
mint local_name = do
  validate_local_name local_name
  ok (Prim.Native.String.◌++◌ urn_prefix local_name)

unfoldable pub parse : String → Result UrnError String
unfolding validate_local_name strip_prefix
parse urn = do
  rest ← ok_or (strip_prefix urn_prefix urn) (not_an_agent_urn urn)
  validate_local_name rest
  ok rest
