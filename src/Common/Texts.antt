-- ===== src/Common/Texts.antt =====
-- `str` methods that the code calls: UTF-8 bytes, characters, prefixes.
use Prim.Native.Nat.{ℕ, ◌+◌, ◌/◌, ◌%◌}
use Prim.Native.Char.{code}
use Prim.Native.String.{String, [], ◌∷◌}
use mathlib.Core.Bool.{Bool, true, false, not, ◌&&◌, ◌||◌}
use mathlib.Core.Option.{Option, none, some}
use mathlib.Core.List
use mathlib.Core.List.{List}
use hacp.Common.Tests.{ltb, leb, eqb, if◌then◌else◌}

-- The UTF-8 bytes of a code point, for `as_bytes`.
pub utf8 : ℕ → List ℕ
utf8 c =
    if ltb c 128
    then List.◌∷◌ c List.[]
    else if ltb c 2048
    then List.◌∷◌ (192 + c / 64) (List.◌∷◌ (128 + c % 64) List.[])
    else if ltb c 65536
    then List.◌∷◌ (224 + c / 4096) (List.◌∷◌ (128 + c / 64 % 64) (List.◌∷◌ (128 + c % 64) List.[]))
    else List.◌∷◌ (240 + c / 262144) (
        List.◌∷◌ (128 + c / 4096 % 64)
          (List.◌∷◌ (128 + c / 64 % 64) (List.◌∷◌ (128 + c % 64) List.[])))

unfoldable pub as_bytes : String → List ℕ
unfolding utf8
as_bytes [] = List.[]
as_bytes (c ∷ s) = List.◌++◌ (utf8 (code c)) (as_bytes s)

-- `chars().all`.
unfoldable pub chars_all : (ℕ → Bool) → String → Bool
chars_all p [] = true
chars_all p (c ∷ s) = p (code c) && chars_all p s

unfoldable pub strip_prefix : String → String → Option String
strip_prefix [] s = some s
strip_prefix (c ∷ p) [] = none
strip_prefix (c ∷ p) (d ∷ s) =
    let rest = strip_prefix p s in if eqb (code c) (code d) then rest else none

-- `is_empty()`.
abbrev pub str_is_empty : String → Bool
str_is_empty [] = true
str_is_empty (c ∷ s) = false

abbrev pub is_ascii_digit : ℕ → Bool
is_ascii_digit c = leb b'0' c && leb c b'9'

abbrev pub is_ascii_lowercase : ℕ → Bool
is_ascii_lowercase c = leb b'a' c && leb c b'z'

abbrev pub is_ascii_uppercase : ℕ → Bool
is_ascii_uppercase c = leb b'A' c && leb c b'Z'

abbrev pub is_ascii_hexdigit : ℕ → Bool
is_ascii_hexdigit c = is_ascii_digit c || (leb b'a' c && leb c b'f') || (leb b'A' c && leb c b'F')

-- `c.is_ascii_hexdigit() && !c.is_ascii_uppercase()`.
abbrev pub is_lower_hex : ℕ → Bool
is_lower_hex c = is_ascii_hexdigit c && not (is_ascii_uppercase c)

-- `contains` with a character.
unfoldable pub contains_char : ℕ → String → Bool
contains_char x [] = false
contains_char x (c ∷ s) = eqb (code c) x || contains_char x s

-- `chars().filter`, collected.
unfoldable pub filter_chars : (ℕ → Bool) → String → String
filter_chars p [] = []
filter_chars p (c ∷ s) = let rest = filter_chars p s in if p (code c) then c ∷ rest else rest

-- The code points of a text, for `chars().collect()`.
unfoldable pub chars : String → List ℕ
chars [] = List.[]
chars (c ∷ s) = List.◌∷◌ (code c) (chars s)

-- A character before the first of the parts.
abbrev prepend : String → List String → List String
prepend c List.[] = List.◌∷◌ c List.[]
prepend c (List.◌∷◌ part parts) = List.◌∷◌ (Prim.Native.String.◌++◌ c part) parts

-- `split` at a character: the parts between its occurrences, at least one.
unfoldable pub split : ℕ → String → List String
split x [] = List.◌∷◌ "" List.[]
split x (c ∷ s) =
    let rest = split x s in if eqb (code c) x then List.◌∷◌ "" rest else prepend (c ∷ "") rest
