-- ===== src/Canon/Examples.antt =====
-- Canonical forms of src/v2/canon.rs on concrete values, and the theorems at them.
use hacp.Common.{
  ℕ, ◌≡◌, refl, true, false, List, [], ◌∷◌, ok, err, decimal, contains_char, as_bytes, eq_iff,
}
use hacp.Artifact.Shape.{is_digest_shape}
use hacp.Canon.Json.{Value, members, null, bool, number, string, array, object, nil, cons, end}
use hacp.Canon.{
  Crates, write_value, non_integer_number, canonical_json, digest_canonical, digest_of,
  validate_timestamp, bad_timestamp,
}
use hacp.Canon.Order.{same_object, swap, digest_of_same}
use hacp.Canon.Digest.{digest_canonical-is_digest_shape}

-- What a test by `refl` has to unfold.
canon : Unit {0}
unfolding canonical_json write_value digest_of validate_timestamp contains_char decimal as_bytes
canon = tt

abbrev digest_bytes : List ℕ
digest_bytes =
    0 ∷ 17 ∷ 34 ∷ 51 ∷ 68 ∷ 85 ∷ 102 ∷ 119 ∷ 136 ∷ 153 ∷ 170 ∷ 187 ∷ 204 ∷ 221 ∷ 238 ∷ 255 ∷ 1 ∷ 2
    ∷ 3 ∷ 4 ∷ 5 ∷ 6 ∷ 7 ∷ 8 ∷ 9 ∷ 10 ∷ 11 ∷ 12 ∷ 13 ∷ 14 ∷ 15 ∷ 16 ∷ []

-- Crates that answer the same for every argument.
abbrev pub sample_crates : Crates
sample_crates = record {
  is_f64 = λ n. false;
  sha256 = λ bytes. digest_bytes;
  naive_date_time = λ s. true;
}

abbrev one_two : Value
one_two =
    object (members (("b", number "1") ∷ ("a", array (cons (bool true) (cons null nil))) ∷ []))

abbrev two_one : Value
two_one =
    object (members (("a", array (cons (bool true) (cons null nil))) ∷ ("b", number "1") ∷ []))

sorts_keys : canonical_json sample_crates one_two ≡ ok "{\"a\":[true,null],\"b\":1}"
unfolding canon
sorts_keys = refl

escapes : canonical_json sample_crates (string "a\"\n\\") ≡ ok "\"a\\\"\\u000a\\\\\""
unfolding canon
escapes = refl

refuses_fraction :
    canonical_json sample_crates (object (members (("x", array (cons (number "1.5") nil)) ∷ [])))
    ≡ err (non_integer_number "1.5" "$.x[0]")
unfolding canon
refuses_fraction = refl

timestamp : validate_timestamp sample_crates "2026-07-01T00:00:00Z" ≡ ok tt
unfolding canon
timestamp = refl

bad_separator :
    validate_timestamp sample_crates "2026-07-01 00:00:00Z"
    ≡ err (bad_timestamp "2026-07-01 00:00:00Z" "<timestamp argument>")
unfolding canon
bad_separator = refl

digest_of_same_example :
    (canonical_json sample_crates one_two ≡ canonical_json sample_crates two_one)
    × (digest_of sample_crates one_two ≡ digest_of sample_crates two_one)
digest_of_same_example = digest_of_same sample_crates one_two two_one (
    same_object (
      swap "b" "a" (number "1") (array (cons (bool true) (cons null nil))) end
        (λ e. cc ((eq_iff "b" "a").1 e))))

digest_canonical-is_digest_shape_example :
    is_digest_shape (digest_canonical sample_crates "{}") ≡ true
digest_canonical-is_digest_shape_example = digest_canonical-is_digest_shape sample_crates "{}" refl
