-- ===== src/Contract/Digests.antt =====
-- The revision digests of src/v2/contract.rs: terms that pass `check_terms` can always be frozen.
use hacp.Common.{
  ℕ, String, ◌≡◌, refl, true, false, [], ◌∷◌, arith, ok, is_ok, Result-cases, inl, inr, decimal,
  chars_all-decimal, contains_char-chars_all, is_ascii_digit,
}
use hacp.Canon.{Crates, is_integer, digest_of}
use hacp.Canon.Json.{Value, object, members, string, number}
use hacp.Canon.Integers.{integral, is_ok-digest_of}
use hacp.Contract.{Contract, check_terms, revision_digest}

is_integer-decimal :
    (crates : Crates) (n : ℕ)
    → crates.is_f64 (decimal n) ≡ false
    → is_integer crates (decimal n) ≡ true
is_integer-decimal crates n h =
    let no = λ (x : ℕ) (e : is_ascii_digit x ≡ false).
      contains_char-chars_all is_ascii_digit x (decimal n) e (chars_all-decimal n) in
    ground (arith, no b'.' refl, no b'e' refl, no b'E' refl)

-- Where serde_json does not take the decimal text of a number for a float, terms that pass
-- `check_terms` have a revision digest under every contract id and that number.
pub is_ok-revision_digest :
    (crates : Crates) (c : Contract) (terms : Value) (digest contract_id : String) (n : ℕ)
    → crates.is_f64 (decimal n) ≡ false
    → check_terms crates c terms ≡ ok digest
    → is_ok (revision_digest crates contract_id n terms) ≡ true
unfolding check_terms revision_digest integral
is_ok-revision_digest crates c terms digest contract_id n h k =
    elim (Result-cases (digest_of crates terms)) [
      | inl (e, bad) ↦ absurd (ground arith)
      | inr (d, good) ↦
          let whole = object (
            members (
              ("contract_id", string contract_id)
              ∷ ("revision", number (decimal n))
              ∷ ("content", terms)
              ∷ [])) in
          ground (
            arith,
            is_ok-digest_of crates terms,
            is_ok-digest_of crates whole,
            is_integer-decimal crates n h,
          )
    ]
