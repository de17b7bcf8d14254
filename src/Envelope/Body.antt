-- ===== src/Envelope/Body.antt =====
-- What src/v2/envelope.rs promises of an envelope that is valid: its parts have canonical forms.
use hacp.Common.{
  String, ◌≡◌, refl, true, false, List, [], ◌∷◌, ok, is_ok, arith, Result-cases, Bool-cases, inl,
  inr, contains,
}
use hacp.Canon.Json.{Value}
use hacp.Canon.{Crates, canonical_json, digest_of, validate_timestamp}
use hacp.Envelope.Urn
use hacp.Envelope.Message.{Envelope, reserved_fields, check_extra, validate}

module _ (crates : Crates) where
  -- Each field has a name that is not reserved and a value with a canonical form.
  abbrev pub AreCanonical : List (String × Value) → Type 0
  AreCanonical [] = Unit
  AreCanonical ((field, value) ∷ fields) =
      (contains field reserved_fields ≡ false)
      × (is_ok (canonical_json crates value) ≡ true)
      × AreCanonical fields

  check_extra-AreCanonical :
      (fields : List (String × Value)) → check_extra crates fields ≡ ok tt → AreCanonical fields
  unfolding check_extra
  check_extra-AreCanonical [] h = tt
  check_extra-AreCanonical ((field, value) ∷ fields) h =
      elim (Bool-cases (contains field reserved_fields)) [
        | inl taken ↦ absurd (ground arith)
        | inr free ↦ elim (Result-cases (canonical_json crates value)) [
          | inl (e, bad) ↦ absurd (ground arith)
          | inr (text, good) ↦ (free, ground arith, check_extra-AreCanonical fields (ground arith))
        ]
      ]

  is_ok-digest_of :
      (value : Value) (text : String)
      → canonical_json crates value ≡ ok text
      → is_ok (digest_of crates value) ≡ true
  unfolding digest_of
  is_ok-digest_of value text h = rw h refl

  -- The body of a valid envelope has a digest, its names are agents' URNs, its time is canonical, and the
  -- fields that the build does not know are not reserved ones and have canonical forms.
  pub validate-AreCanonical :
      (e : Envelope)
      → validate crates e ≡ ok tt
      → (is_ok (digest_of crates e.body) ≡ true)
        × (is_ok (Urn.parse e.from) ≡ true)
        × (is_ok (Urn.parse e.to) ≡ true)
        × (is_ok (validate_timestamp crates e.timestamp) ≡ true)
        × AreCanonical e.extra
  unfolding validate
  validate-AreCanonical e h = elim (Result-cases (Urn.parse e.from)) [
    | inl (x, bad) ↦ absurd (ground arith)
    | inr (from, good_from) ↦ elim (Result-cases (Urn.parse e.to)) [
      | inl (x, bad) ↦ absurd (ground arith)
      | inr (to, good_to) ↦ elim (Result-cases (validate_timestamp crates e.timestamp)) [
        | inl (x, bad) ↦ absurd (ground arith)
        | inr (_, good_time) ↦ elim (Result-cases (canonical_json crates e.body)) [
          | inl (x, bad) ↦ absurd (ground arith)
          | inr (text, good_body) ↦ (
            is_ok-digest_of e.body text good_body,
            ground (arith, good_from),
            ground (arith, good_to),
            ground (arith, good_time),
            check_extra-AreCanonical e.extra (ground arith),
          )
        ]
      ]
    ]
  ]
