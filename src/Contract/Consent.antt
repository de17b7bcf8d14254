-- ===== src/Contract/Consent.antt =====
-- No terms of src/v2/contract.rs are frozen that both participants have not accepted.
use hacp.Common.{
  String, ◌≡◌, sym, ◌∙◌, ap, subst, ◌≢◌, ◌⊎◌, inl, inr, true, some, List, ◌∷◌, arith, Bool-cases,
  Option-cases, ok, Result-cases, ◌==◌, eq_iff, contains, contains-set_insert,
}
use hacp.Canon.{Crates, digest_of}
use hacp.Canon.Json.{Value}
use hacp.Contract.{Contract, is_party, is_agreed, acceptances, check_terms, freeze}
use hacp.Contract.Ops.{Call, agrees, answers, perform}
use hacp.Contract.Agreement.{IsAgreeing, perform-IsAgreeing, contains-nil, perform-Acceptances}
use hacp.Contract.Reach.{Reaches, start, step, propose-IsFresh}

-- Among the calls is one by which the agent accepts the terms.
pub data Accepted (who : String) (terms : Value) : List Call → Type 0 where
  agreeing : (past : List Call) → Accepted who terms (agrees who terms ∷ past)
  answering : (past : List Call) → Accepted who terms (answers who true (some terms) ∷ past)
  before : (k : Call) (past : List Call) → Accepted who terms past → Accepted who terms (k ∷ past)

-- An agent that counts as accepting has accepted terms with the digest that is recorded.
IsBacked : Crates → List Call → Contract → Type 0
IsBacked crates past c =
    (who : String)
    → contains who c.agreed_by ≡ true
    → (terms : Value) × (digest : String) × Accepted who terms past
      × (digest_of crates terms ≡ ok digest)
      × (c.agreed_terms_digest ≡ some digest)

check_terms_sound :
    (crates : Crates) (c : Contract) (terms : Value) (digest : String)
    → check_terms crates c terms ≡ ok digest
    → (digest_of crates terms ≡ ok digest)
      × ((d : String) → c.agreed_terms_digest ≡ some d → d ≡ digest)
unfolding check_terms
check_terms_sound crates c terms digest h = elim (Result-cases (digest_of crates terms)) [
  | inl (e, bad) ↦ absurd (ground arith)
  | inr (d, good) ↦ (ground arith, λ a e. ground (arith, eq_iff a d))
]

accepted_now :
    (k : Call) (past : List Call) (by : String) (terms : Value)
    → (k ≡ agrees by terms) ⊎ (k ≡ answers by true (some terms))
    → Accepted by terms (k ∷ past)
accepted_now k past by terms (inl e) =
    subst (λ x. Accepted by terms (x ∷ past)) (sym e) (agreeing past)
accepted_now k past by terms (inr e) =
    subst (λ x. Accepted by terms (x ∷ past)) (sym e) (answering past)

module _ (crates : Crates) where
  perform-IsBacked :
      (past : List Call) (c : Contract) (k : Call)
      → IsBacked crates past c
      → IsBacked crates (k ∷ past) (perform crates c k).0
  unfolding IsBacked
  perform-IsBacked past c k v who h = elim (perform-Acceptances crates c k) [
    | inl nobody ↦ absurd (ground (arith, contains-nil who))
    | inr (inl (same, kept)) ↦
        let (terms, digest, made, sealed, recorded) = v who (sym (cc same) ∙ h) in
        (terms, digest, before k past made, sealed, kept ∙ recorded)
    | inr (inr (by, terms, digest, how, party, joined, recorded, checked)) ↦
        let (sealed, agrees_with) = check_terms_sound crates c terms digest checked in
        elim (Bool-cases (who == by)) [
          | inl here ↦
              let same : who ≡ by = (eq_iff who by).0 here in
              (
                terms,
                digest,
                subst (λ x. Accepted x terms (k ∷ past)) (sym same)
                    (accepted_now k past by terms how),
                sealed,
                recorded,
              )
          | inr other ↦
              let old : contains who (acceptances c) ≡ true =
                ground (arith, contains-set_insert by who (acceptances c)) in
              let still : contains who c.agreed_by ≡ true = ground (arith, contains-nil who) in
              let (terms', d, made, sealed', was) = v who still in
              (terms', d, before k past made, sealed', recorded ∙ cc (agrees_with d was))
        ]
  ]

  Reaches-IsBacked :
      {past : List Call} {c : Contract} → Reaches crates past c → IsBacked crates past c
  unfolding IsBacked
  Reaches-IsBacked (start s i task r g org l at p lim c distinct word formed) who h =
      let (fresh, _, _) = propose-IsFresh crates s i task r g org l at p lim c formed in
      absurd (ground (arith, fresh.nobody, contains-nil who))
  Reaches-IsBacked (step past c k reached) who h =
      perform-IsBacked past c k (Reaches-IsBacked reached) who h

both_listed :
    (c : Contract) (who : String)
    → IsAgreeing c
    → is_agreed c.state ≡ true
    → is_party c who ≡ true
    → contains who c.agreed_by ≡ true
both_listed c who v h party =
    let first : contains c.participants.0 c.agreed_by ≡ true = ground (arith, v.both, v.counted) in
    let second : contains c.participants.1 c.agreed_by ≡ true = ground (arith, v.both, v.counted) in
    elim (Bool-cases (who == c.participants.0)) [
      | inl here ↦
          subst (λ x. contains x c.agreed_by ≡ true) (sym ((eq_iff who c.participants.0).0 here))
            first
      | inr other ↦
          let there : (who == c.participants.1) ≡ true = ground (arith, party) in
          subst (λ x. contains x c.agreed_by ≡ true) (sym ((eq_iff who c.participants.1).0 there))
            second
    ]

module _ (crates : Crates) where
  pub Reaches-IsAgreeing : {past : List Call} {c : Contract} → Reaches crates past c → IsAgreeing c
  Reaches-IsAgreeing (start s i task r g org l at p lim c distinct word formed) =
      let (fresh, parties, _) = propose-IsFresh crates s i task r g org l at p lim c formed in
      record {
        distinct = subst (λ (x : String × String). x.0 ≢ x.1) (sym parties) distinct;
        counted =
            ground
              (arith, fresh.nobody, contains-nil c.participants.0, contains-nil c.participants.1);
        both = λ h. ground (arith, fresh.proposed_now);
        termed = λ h. ground (arith, fresh.proposed_now);
      }
  Reaches-IsAgreeing (step past c k reached) =
      perform-IsAgreeing crates c (Reaches-IsAgreeing reached) k

freeze_checked :
    (crates : Crates) (c : Contract) (terms : Value) (digest : String)
    → (freeze crates c terms).1 ≡ ok digest
    → (is_agreed c.state ≡ true)
      × (d : String) × (check_terms crates c terms ≡ ok d)
      × (c.agreed_terms_digest ≡ some d)
unfolding freeze
freeze_checked crates c terms digest h = elim (Result-cases (check_terms crates c terms)) [
  | inl (e, bad) ↦ absurd (ground arith)
  | inr (d, good) ↦ elim (Option-cases c.agreed_terms_digest) [
    | inl absent ↦ absurd (ground arith)
    | inr (a, recorded) ↦
        let same : a ≡ d = (check_terms_sound crates c terms d good).1 a recorded in
        (ground arith, d, good, ground arith)
  ]
]

-- Whatever calls were made since the proposal: if `freeze` succeeds, then each participant has
-- accepted, by an earlier call in its name, terms with the same canonical digest as those that are
-- frozen.
pub freeze_accepted :
    (crates : Crates) (past : List Call) (c : Contract) (terms : Value) (digest : String)
    (who : String)
    → Reaches crates past c
    → (freeze crates c terms).1 ≡ ok digest
    → is_party c who ≡ true
    → (accepted : Value) × (d : String) × Accepted who accepted past
      × (digest_of crates accepted ≡ ok d)
      × (digest_of crates terms ≡ ok d)
unfolding IsBacked
freeze_accepted crates past c terms digest who reached h party =
    let (ready, d, checked, recorded) = freeze_checked crates c terms digest h in
    let listed = both_listed c who (Reaches-IsAgreeing crates reached) ready party in
    let (accepted, d', made, sealed, was) = Reaches-IsBacked crates reached who listed in
    let same : d' ≡ d = (check_terms_sound crates c terms d checked).1 d' was in
    (accepted, d', made, sealed, (check_terms_sound crates c terms d checked).0 ∙ ap ok (sym same))
