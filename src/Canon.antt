-- ===== src/Canon.antt =====
-- src/v2/canon.rs: the canonical form of JSON values, digests over it, and canonical timestamps.
-- The text written so far is no argument: each function returns what it appends.
pub mod Json
pub mod Sort
pub mod Order
pub mod Integers
pub mod Digest
pub mod Examples
use Prim.Native.Char.{code}
use Prim.Native.String
use Prim.Native.String.{◌++◌}
use hacp.Common.{
  ℕ, ◌+◌, ◌/◌, ◌%◌, String, Bool, true, false, not, ◌&&◌, ◌||◌, List, [], ◌∷◌, if◌then◌else◌, ltb,
  eqb, all, length, Result, ok, err, ◌>>=◌, ◌>>◌, fail_if, as_bytes, is_ascii_digit, contains_char,
  decimal, hex_digit, get_or,
}
use Json.{Value, Items, Members, null, bool, number, string, array, object, nil, cons, end, member}
use Sort.{sort_by_key}

-- What the crates that the module calls answer: `serde_json::Number::is_f64` of a number's text,
-- `sha2::Sha256` of bytes, and whether `chrono::NaiveDateTime::parse_from_str` accepts a text in
-- the format of a canonical timestamp.
pub record Crates : Type 0 where
  pub is_f64 : String → Bool
  pub sha256 : List ℕ → List ℕ
  pub naive_date_time : String → Bool

pub data CanonError : Type 0 where
  non_integer_number : (value path : String) → CanonError
  bad_timestamp : (found path : String) → CanonError

escape : ℕ → String → String
escape c same =
    if eqb c b'"'
    then "\\\""
    else if eqb c 92
    then "\\\\"
    else if ltb c 32
    then "\\u00" ++ (hex_digit (c / 16) ++ hex_digit (c % 16))
    else same

escape_all : String → String
unfolding escape hex_digit
escape_all String.[] = ""
escape_all (String.◌∷◌ c s) = escape (code c) (String.◌∷◌ c String.[]) ++ escape_all s

unfoldable pub write_string : String → String
unfolding escape_all
write_string s = "\"" ++ (escape_all s ++ "\"")

-- The separator in front of the element at position `i`.
abbrev pub comma : ℕ → String
comma i = if eqb i 0 then "" else ","

-- The loop over the sorted members, each with its rendering.
unfoldable pub join_members :
    ℕ → List (String × Result CanonError String) → Result CanonError String
unfolding write_string
join_members i [] = ok ""
join_members i ((key, item) ∷ l) = do
  text ← item
  rest ← join_members (i + 1) l
  ok (comma i ++ (write_string key ++ (":" ++ (text ++ rest))))

unfoldable pub hex_lower : List ℕ → String
unfolding hex_digit
hex_lower [] = ""
hex_lower (b ∷ bytes) = hex_digit (b / 16) ++ (hex_digit (b % 16) ++ hex_lower bytes)

-- The positions of the digits in a canonical timestamp.
abbrev pub digit_positions : List ℕ
digit_positions = 0 ∷ 1 ∷ 2 ∷ 3 ∷ 5 ∷ 6 ∷ 8 ∷ 9 ∷ 11 ∷ 12 ∷ 14 ∷ 15 ∷ 17 ∷ 18 ∷ []

module _ (crates : Crates) where
  abbrev pub is_integer : String → Bool
  is_integer n =
      not (crates.is_f64 n || contains_char b'.' n || contains_char b'e' n || contains_char b'E' n)

  unfoldable pub write_number : String → String → Result CanonError String
  write_number n path = if not (is_integer n) then err (non_integer_number n path) else ok n

  unfoldable mutual
    unfolding write_number write_string join_members sort_by_key

    pub write_value : Value → String → Result CanonError String
    write_value null path = ok "null"
    write_value (bool true) path = ok "true"
    write_value (bool false) path = ok "false"
    write_value (number n) path = write_number n path
    write_value (string s) path = ok (write_string s)
    write_value (array items) path = do text ← write_items items path 0; ok ("[" ++ (text ++ "]"))
    write_value (object map) path = do
      text ← join_members 0 (sort_by_key (write_members map path))
      ok ("{" ++ (text ++ "}"))

    pub write_items : Items → String → ℕ → Result CanonError String
    write_items nil path i = ok ""
    write_items (cons item items) path i = do
      text ← write_value item (path ++ ("[" ++ (decimal i ++ "]")))
      rest ← write_items items path (i + 1)
      ok (comma i ++ (text ++ rest))

    pub write_members : Members → String → List (String × Result CanonError String)
    write_members end path = []
    write_members (member key item map) path =
        (key, write_value item (path ++ ("." ++ key))) ∷ write_members map path

  unfoldable pub canonical_json : Value → Result CanonError String
  canonical_json value = write_value value "$"

  unfoldable pub digest_canonical : String → String
  digest_canonical canonical = hex_lower (crates.sha256 (as_bytes canonical))

  unfoldable pub digest_of : Value → Result CanonError String
  digest_of value = do canonical ← canonical_json value; ok (digest_canonical canonical)

  unfoldable pub validate_timestamp : String → Result CanonError Unit
  validate_timestamp s = do
    let bytes = as_bytes s
    let bad = bad_timestamp s "<timestamp argument>"
    let at = λ (i : ℕ) (c : ℕ). eqb (get_or bytes i 0) c
    fail_if
        (not (
          eqb (length bytes) 20
          && at 4 b'-'
          && at 7 b'-'
          && at 10 b'T'
          && at 13 b':'
          && at 16 b':'
          && at 19 b'Z'))
        bad
    fail_if (not (all (λ i. is_ascii_digit (get_or bytes i 0)) digit_positions)) bad
    fail_if (not (crates.naive_date_time s)) bad
