-- ===== src/Secure/Hex.antt =====
-- Hexadecimal of src/secure/envelope.rs: what is written is read back.
use Prim.Native.String
use hacp.Common.{
  ℕ, zero, suc, ◌+◌, ◌*◌, ◌/◌, ◌%◌, ◌<◌, String, ◌≡◌, refl, ◌∙◌, ap, true, if◌then◌else◌, List, [],
  ◌∷◌, ok, length, all, All, arith, hex_digit, as_bytes, as_bytes-append, leb,
}
use hacp.Secure.Wire.{encode_hex, decode_hex, decode_pairs, is_hex_byte, digit}

abbrev hex_code : ℕ → ℕ
hex_code n = if leb n 9 then 48 + n else 87 + n

as_bytes-digit : (n : ℕ) → n < 16 → as_bytes (hex_digit n) ≡ hex_code n ∷ []
unfolding as_bytes hex_digit
as_bytes-digit zero h = refl
as_bytes-digit (suc zero) h = refl
as_bytes-digit (suc (suc zero)) h = refl
as_bytes-digit (suc (suc (suc zero))) h = refl
as_bytes-digit (suc (suc (suc (suc zero)))) h = refl
as_bytes-digit (suc (suc (suc (suc (suc zero))))) h = refl
as_bytes-digit (suc (suc (suc (suc (suc (suc zero)))))) h = refl
as_bytes-digit (suc (suc (suc (suc (suc (suc (suc zero))))))) h = refl
as_bytes-digit (suc (suc (suc (suc (suc (suc (suc (suc zero)))))))) h = refl
as_bytes-digit (suc (suc (suc (suc (suc (suc (suc (suc (suc zero))))))))) h = refl
as_bytes-digit (suc (suc (suc (suc (suc (suc (suc (suc (suc (suc zero)))))))))) h = refl
as_bytes-digit (suc (suc (suc (suc (suc (suc (suc (suc (suc (suc (suc zero))))))))))) h = refl
as_bytes-digit (suc (suc (suc (suc (suc (suc (suc (suc (suc (suc (suc (suc zero)))))))))))) h = refl
as_bytes-digit (suc (suc (suc (suc (suc (suc (suc (suc (suc (suc (suc (suc (suc zero)))))))))))))
      h =
    refl
as_bytes-digit
      (suc (suc (suc (suc (suc (suc (suc (suc (suc (suc (suc (suc (suc (suc zero)))))))))))))) h =
    refl
as_bytes-digit
      (suc (suc (suc (suc (suc (suc (suc (suc (suc (suc (suc (suc (suc (suc (suc zero)))))))))))))))
      h =
    refl
as_bytes-digit
      (suc
        (suc (suc (suc (suc (suc (suc (suc (suc (suc (suc (suc (suc (suc (suc (suc n))))))))))))))))
      h =
    absurd (omega arith)

as_bytes-hex_digit :
    (n : ℕ) (s : String)
    → n < 16
    → as_bytes (Prim.Native.String.◌++◌ (hex_digit n) s) ≡ hex_code n ∷ as_bytes s
as_bytes-hex_digit n s h = rw (as_bytes-append (hex_digit n) s, as_bytes-digit n h) refl

abbrev codes : List ℕ → List ℕ
codes [] = []
codes (b ∷ bytes) = hex_code (b / 16) ∷ hex_code (b % 16) ∷ codes bytes

as_bytes-encode_hex :
    (bytes : List ℕ) → All (λ b. b < 256) bytes → as_bytes (encode_hex bytes) ≡ codes bytes
unfolding encode_hex
as_bytes-encode_hex [] h = unfold as_bytes in refl
as_bytes-encode_hex (b ∷ bytes) h =
    as_bytes-hex_digit (b / 16) (Prim.Native.String.◌++◌ (hex_digit (b % 16)) (encode_hex bytes))
      (omega (arith, h.0))
    ∙ ap (λ l. hex_code (b / 16) ∷ l)
        (as_bytes-hex_digit (b % 16) (encode_hex bytes) (omega arith)
          ∙ ap (λ l. hex_code (b % 16) ∷ l) (as_bytes-encode_hex bytes h.1))

even-codes : (bytes : List ℕ) → length (codes bytes) % 2 ≡ 0
even-codes [] = refl
even-codes (b ∷ bytes) = omega (arith, even-codes bytes)

hex_code_lem : (n : ℕ) → n < 16 → (is_hex_byte (hex_code n) ≡ true) × (digit (hex_code n) ≡ n)
hex_code_lem n h = (ground (arith, h), ground (arith, h))

all-codes : (bytes : List ℕ) → All (λ b. b < 256) bytes → all is_hex_byte (codes bytes) ≡ true
all-codes [] h = refl
all-codes (b ∷ bytes) h = ground (
  arith,
  all-codes bytes h.1,
  hex_code_lem (b / 16) (omega (arith, h.0)),
  hex_code_lem (b % 16) (omega arith),
)

decode_pairs-codes :
    (bytes : List ℕ) → All (λ b. b < 256) bytes → decode_pairs (codes bytes) ≡ bytes
decode_pairs-codes [] h = refl
decode_pairs-codes (b ∷ bytes) h =
    let high = (hex_code_lem (b / 16) (omega (arith, h.0))).1 in
    let low = (hex_code_lem (b % 16) (omega arith)).1 in
    let whole : digit (hex_code (b / 16)) * 16 + digit (hex_code (b % 16)) ≡ b =
      omega (arith, high, low) in
    rw (whole, decode_pairs-codes bytes h.1) refl

-- Bytes that are written in hexadecimal are read back as they were.
pub decode_hex-encode_hex :
    (bytes : List ℕ) → All (λ b. b < 256) bytes → decode_hex (encode_hex bytes) ≡ ok bytes
unfolding decode_hex
decode_hex-encode_hex bytes h =
    rw (as_bytes-encode_hex bytes h)
      (ground (arith, even-codes bytes, all-codes bytes h, decode_pairs-codes bytes h))
