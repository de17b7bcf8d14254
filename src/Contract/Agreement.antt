-- ===== src/Contract/Agreement.antt =====
-- When a contract of src/v2/contract.rs is agreed, and on what: no revision is frozen that both
-- participants have not accepted.
use hacp.Common.{
  ℕ, ◌+◌, String, ◌≡◌, refl, ◌∙◌, ◌≢◌, ◌⊎◌, inl, inr, Bool, true, false, ◌&&◌, ◌||◌, none, some,
  List, [], arith, ltb, length, is_some, Bool-cases, Option-cases, ok, Result-cases, ◌==◌, eq_iff,
  contains, set_insert, contains-set_insert, length-set_insert,
}
use hacp.Canon.{Crates}
use hacp.Canon.Json.{Value}
use hacp.Contract.{
  Contract, is_agreed, is_party, is_pre_freeze, is_amending, acceptances, check_terms,
  revision_digest, next_number,
}
use hacp.Contract.Ops.{Call, agrees, answers, perform}
use hacp.Contract.Parties.{perform-parties}

abbrev count : Bool → ℕ
count true = 1
count false = 0

-- The names are those of the two participants, each at most once.
abbrev pub IsCounted : String × String → List String → Type 0
IsCounted parties names =
    length names ≡ count (contains parties.0 names) + count (contains parties.1 names)

IsCounted-set_insert :
    (p q by : String) (names : List String)
    → p ≢ q
    → (by == p || by == q) ≡ true
    → IsCounted (p, q) names
    → IsCounted (p, q) (set_insert by names)
IsCounted-set_insert p q by names distinct party h = ground (
  arith,
  contains-set_insert by p names,
  contains-set_insert by q names,
  length-set_insert by names,
  eq_iff by p,
  eq_iff by q,
  eq_iff p by,
  eq_iff q by,
)

pub contains-nil : (x : String) → contains x [] ≡ false
unfolding contains
contains-nil x = refl

pub record IsAgreeing (c : Contract) : Type 0 where
  pub distinct : c.participants.0 ≢ c.participants.1
  pub counted : IsCounted c.participants c.agreed_by
  pub both : is_agreed c.state ≡ true → length c.agreed_by ≡ 2
  pub termed : is_agreed c.state ≡ true → is_some c.agreed_terms_digest ≡ true

-- What a call does to the acceptances: it drops them, or leaves them, or adds one for terms that fit.
abbrev pub Acceptances : Crates → Contract → Call → Contract → Type 0
Acceptances crates c k e =
    (e.agreed_by ≡ [])
    ⊎ (((e.agreed_by ≡ c.agreed_by) × (e.agreed_terms_digest ≡ c.agreed_terms_digest))
        ⊎ ((by : String) × (terms : Value) × (digest : String) × ((k ≡ agrees by terms)
              ⊎ (k ≡ answers by true (some terms)))
            × (is_party c by ≡ true)
            × (e.agreed_by ≡ set_insert by (acceptances c))
            × (e.agreed_terms_digest ≡ some digest)
            × (check_terms crates c terms ≡ ok digest)))

module _ (crates : Crates) (c : Contract) where
  check_terms_joined :
      (names : List String) (terms : Value)
      → check_terms crates (record c { amendment_participants = names }) terms
        ≡ check_terms crates c terms
  unfolding check_terms
  check_terms_joined names terms = refl

  answered :
      (by : String) (terms : Value) (digest : String)
      → check_terms crates c terms ≡ ok digest
      → (is_party c by && is_amending c.state) ≡ true
      → Acceptances crates c
          (answers by true (some terms))
          (perform crates c (answers by true (some terms))).0
  unfolding perform
  answered by terms digest good within =
      let fits = check_terms_joined (set_insert by c.amendment_participants) terms ∙ good in
      let names = set_insert by (acceptances c) in
      elim (Bool-cases (ltb (length names) 2)) [
        | inl waiting ↦ inr (
            inr (
              by,
              terms,
              digest,
              inr refl,
              ground arith,
              ground (arith, fits),
              ground (arith, fits),
              good,
            ))
        | inr complete ↦
            elim (Result-cases
              (revision_digest crates c.contract_id (next_number crates c) terms)) [
                | inr (sealed, made) ↦ inl (ground (arith, fits, made))
                | inl (e, bad) ↦ inr (
                    inr (
                      by,
                      terms,
                      digest,
                      inr refl,
                      ground arith,
                      ground (arith, fits, bad),
                      ground (arith, fits, bad),
                      good,
                    ))
              ]
      ]

  pub perform-Acceptances : (k : Call) → Acceptances crates c k (perform crates c k).0
  unfolding perform
  perform-Acceptances (agrees by terms) = elim (Result-cases (check_terms crates c terms)) [
    | inl (e, bad) ↦ inr (inl (ground arith, ground arith))
    | inr (digest, good) ↦ elim (Bool-cases (is_party c by && is_pre_freeze c.state)) [
      | inr out ↦ inr (inl (ground arith, ground arith))
      | inl within ↦
          inr (inr (by, terms, digest, inl refl, ground arith, ground arith, ground arith, good))
    ]
  ]
  perform-Acceptances (answers by true (some terms)) =
      elim (Result-cases (check_terms crates c terms)) [
        | inl (e, bad) ↦ inr (
            inl (
              ground (arith, check_terms_joined (set_insert by c.amendment_participants) terms),
              ground (arith, check_terms_joined (set_insert by c.amendment_participants) terms),
            ))
        | inr (digest, good) ↦ elim (Bool-cases (is_party c by && is_amending c.state)) [
          | inr out ↦ inr (inl (ground arith, ground arith))
          | inl within ↦ answered by terms digest good within
        ]
      ]
  perform-Acceptances (answers by true none) = inr (inl (ground arith, ground arith))
  perform-Acceptances (answers by false terms) =
      elim (Bool-cases (is_party c by && is_amending c.state)) [
        | inr out ↦ inr (inl (ground arith, ground arith))
        | inl within ↦ inl (ground arith)
      ]
  perform-Acceptances k = ground arith

module _ (crates : Crates) (c : Contract) (v : IsAgreeing c) where
  accepted-IsCounted :
      (by : String)
      → is_party c by ≡ true
      → IsCounted c.participants (set_insert by (acceptances c))
  accepted-IsCounted by h = elim (Option-cases c.agreed_terms_digest) [
    | inl absent ↦ ground (
      arith,
      IsCounted-set_insert c.participants.0 c.participants.1 by [],
      v.distinct,
      contains-nil c.participants.0,
      contains-nil c.participants.1,
    )
    | inr (d, some_terms) ↦ ground (
      arith,
      IsCounted-set_insert c.participants.0 c.participants.1 by c.agreed_by,
      v.distinct,
      v.counted,
    )
  ]

  perform-IsCounted : (k : Call) → IsCounted c.participants (perform crates c k).0.agreed_by
  perform-IsCounted k = elim (perform-Acceptances crates c k) [
    | inl nobody ↦ ground (arith, contains-nil c.participants.0, contains-nil c.participants.1)
    | inr (inl (same, _)) ↦ rw same v.counted
    | inr (inr (by, terms, digest, _, party, joined, _, _)) ↦
        rw joined (accepted-IsCounted by party)
  ]

  perform-both :
      (k : Call)
      → is_agreed (perform crates c k).0.state ≡ true
      → length (perform crates c k).0.agreed_by ≡ 2
  unfolding perform
  perform-both (agrees by terms) h = ground (arith, v.both)
  perform-both k h = ground (arith, v.both)

  perform-termed :
      (k : Call)
      → is_agreed (perform crates c k).0.state ≡ true
      → is_some (perform crates c k).0.agreed_terms_digest ≡ true
  unfolding perform
  perform-termed (agrees by terms) h = ground (arith, v.termed)
  perform-termed k h = ground (arith, v.termed)

  pub perform-IsAgreeing : (k : Call) → IsAgreeing (perform crates c k).0
  perform-IsAgreeing k =
      let (same, _, _) = perform-parties crates c k in
      record {
        distinct = rw same v.distinct;
        counted = rw same (perform-IsCounted k);
        both = perform-both k;
        termed = perform-termed k;
      }
