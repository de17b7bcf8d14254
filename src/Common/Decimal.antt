-- ===== src/Common/Decimal.antt =====
-- The characters of a number in decimal.
use Prim.Native.Nat.{ℕ, zero, suc, ◌+◌, ◌/◌, ◌%◌, ◌<◌}
use Prim.Native.String.{String, ◌++◌}
use text.Mathlib.TextLemmas.{nil-append, cons-append}
use mathlib.Core.Path.{◌≡◌, refl}
use mathlib.Core.Bool.{Bool, true, false, ◌&&◌}
use native.Mathlib.Omega.{arith}
use hacp.Common.Texts.{chars_all, contains_char, is_ascii_digit}
use hacp.Common.Digits.{hex_digit, decimal_from, decimal}

pub chars_all-append :
    (p : ℕ → Bool) (s t : String) → chars_all p (s ++ t) ≡ (chars_all p s && chars_all p t)
unfolding chars_all
chars_all-append p String.[] t = rw nil-append
chars_all-append p (String.◌∷◌ c s) t = rw cons-append (ground (arith, chars_all-append p s t))

chars_all-hex_digit : (n : ℕ) → n < 10 → chars_all is_ascii_digit (hex_digit n) ≡ true
unfolding hex_digit chars_all
chars_all-hex_digit zero h = refl
chars_all-hex_digit (suc zero) h = refl
chars_all-hex_digit (suc (suc zero)) h = refl
chars_all-hex_digit (suc (suc (suc zero))) h = refl
chars_all-hex_digit (suc (suc (suc (suc zero)))) h = refl
chars_all-hex_digit (suc (suc (suc (suc (suc zero))))) h = refl
chars_all-hex_digit (suc (suc (suc (suc (suc (suc zero)))))) h = refl
chars_all-hex_digit (suc (suc (suc (suc (suc (suc (suc zero))))))) h = refl
chars_all-hex_digit (suc (suc (suc (suc (suc (suc (suc (suc zero)))))))) h = refl
chars_all-hex_digit (suc (suc (suc (suc (suc (suc (suc (suc (suc zero))))))))) h = refl
chars_all-hex_digit (suc (suc (suc (suc (suc (suc (suc (suc (suc (suc n)))))))))) h =
    absurd (omega arith)

chars_all-decimal_from :
    (fuel n : ℕ) (acc : String)
    → chars_all is_ascii_digit acc ≡ true
    → chars_all is_ascii_digit (decimal_from fuel n acc) ≡ true
unfolding decimal_from
chars_all-decimal_from zero n acc h = h
chars_all-decimal_from (suc fuel) n acc h =
    let text = hex_digit (n % 10) ++ acc in
    let digits : chars_all is_ascii_digit text ≡ true = ground (
      arith,
      chars_all-append is_ascii_digit (hex_digit (n % 10)) acc,
      chars_all-hex_digit (n % 10),
    ) in
    ground (arith, chars_all-decimal_from fuel (n / 10) text)

-- A number is written in digits only.
pub chars_all-decimal : (n : ℕ) → chars_all is_ascii_digit (decimal n) ≡ true
unfolding decimal
chars_all-decimal n = chars_all-decimal_from (n + 1) n "" (unfold chars_all in refl)

-- A character that fails a test does not stand in a text whose characters all pass it.
pub contains_char-chars_all :
    (p : ℕ → Bool) (x : ℕ) (s : String)
    → p x ≡ false
    → chars_all p s ≡ true
    → contains_char x s ≡ false
unfolding chars_all contains_char
contains_char-chars_all p x String.[] h k = refl
contains_char-chars_all p x (String.◌∷◌ c s) h k = ground (arith, contains_char-chars_all p x s)
