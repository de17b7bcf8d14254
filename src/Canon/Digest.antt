-- ===== src/Canon/Digest.antt =====
-- The shape of the digests of src/v2/canon.rs.
use Prim.Native.String.{len, ◌++◌}
use Prim.Native.String.len
use text.Mathlib.TextLemmas.{nil-append, cons-append}
use hacp.Common.{
  ℕ, ◌+◌, ◌*◌, ◌/◌, ◌%◌, String, ◌≡◌, refl, true, List, [], ◌∷◌, arith, length, All, chars_all,
  chars_all-append, is_lower_hex, as_bytes, hex_digit, hex_digits, All-get_or,
}
use hacp.Artifact.Shape.{is_digest_shape}
use hacp.Canon.{Crates, hex_lower, digest_canonical}

len-append : (s t : String) → len (s ++ t) ≡ len s + len t
len-append String.[] t = rw nil-append (omega (arith, len.nil))
len-append (String.◌∷◌ c s) t =
    rw cons-append (omega (arith, len.cons c (s ++ t), len.cons c s, len-append s t))

abbrev IsHexDigit : String → Type 0
IsHexDigit d = (len d ≡ 1) × (chars_all is_lower_hex d ≡ true)

hex_digits-IsHexDigit : All IsHexDigit hex_digits
unfolding chars_all
hex_digits-IsHexDigit = (
  (refl, refl),
  (
    (refl, refl),
    (
      (refl, refl),
      (
        (refl, refl),
        (
          (refl, refl),
          (
            (refl, refl),
            (
              (refl, refl),
              (
                (refl, refl),
                (
                  (refl, refl),
                  (
                    (refl, refl),
                    (
                      (refl, refl),
                      (
                        (refl, refl),
                        ((refl, refl), ((refl, refl), ((refl, refl), ((refl, refl), tt)))),
                      ),
                    ),
                  ),
                ),
              ),
            ),
          ),
        ),
      ),
    ),
  ),
)

hex_digit-IsHexDigit : (n : ℕ) → IsHexDigit (hex_digit n)
unfolding hex_digit chars_all
hex_digit-IsHexDigit n = All-get_or IsHexDigit hex_digits n "0" hex_digits-IsHexDigit (refl, refl)

hex_lower_shape :
    (bytes : List ℕ)
    → (len (hex_lower bytes) ≡ 2 * length bytes) × (chars_all is_lower_hex (hex_lower bytes) ≡ true)
unfolding hex_lower
hex_lower_shape [] = (omega (arith, len.nil), unfold chars_all in refl)
hex_lower_shape (b ∷ bytes) =
    let high = hex_digit (b / 16) in
    let low = hex_digit (b % 16) in
    let rest = hex_lower bytes in
    let (long, hex) = hex_lower_shape bytes in
    let (one, first) = hex_digit-IsHexDigit (b / 16) in
    let (also, second) = hex_digit-IsHexDigit (b % 16) in
    (
      omega (arith, len-append high (low ++ rest), len-append low rest),
      ground (
        arith,
        chars_all-append is_lower_hex high (low ++ rest),
        chars_all-append is_lower_hex low rest,
      ),
    )

-- Where SHA-256 answers 32 bytes, a digest is 64 lowercase hexadecimal characters: what the records
-- that carry digests demand of them.
pub digest_canonical-is_digest_shape :
    (crates : Crates) (canonical : String)
    → length (crates.sha256 (as_bytes canonical)) ≡ 32
    → is_digest_shape (digest_canonical crates canonical) ≡ true
unfolding digest_canonical is_digest_shape
digest_canonical-is_digest_shape crates canonical h =
    ground (arith, hex_lower_shape (crates.sha256 (as_bytes canonical)))
