-- ===== src/Verification/Closure.antt =====
-- `attestation_closure` of src/v2/verification.rs: what it finds, when it fails, and that it ends.
use hacp.Common.{
  String, ◌≡◌, ◌∙◌, ap, ◌↔◌, ◌⊎◌, false, true, Option, none, List, [], Result, ok, err, map_err,
  Result-cases, inl, inr, subst,
}
use hacp.Walk
use hacp.Walk.{WalkError, exhausted}
use hacp.Walk.Order.{listed, resolved}
use hacp.Walk.Steps.{Leads}
use hacp.Walk.Search
use hacp.Walk.Search.{find_id, search, search_finds, search_fails}
use hacp.Verification.{Verification, VerificationError, cycle, unknown_verification, diverges}

abbrev pub id_of : Verification → String
id_of v = v.verification_id

abbrev pub attested_by : Verification → List String
attested_by v = v.attests

abbrev walk_error : WalkError → VerificationError
walk_error (Walk.cycle id) = cycle id
walk_error (Walk.unknown id) = unknown_verification id
walk_error exhausted = diverges

-- `visit` from each attested record; no id but one in progress is a cycle.
unfoldable pub attestation_closure :
    List Verification → String → Result VerificationError (List Verification)
unfolding search
attestation_closure records id =
    map_err walk_error (search id_of attested_by (λ _. false) records id)

module _ (records : List Verification) where
  -- The record of an id: the first that has it.
  abbrev pub record_at : String → Option Verification
  record_at k = find_id id_of attested_by (λ _. false) records k

  -- One or more attestations lead from one record to the other.
  abbrev pub StandsOn : String → String → Type 0
  StandsOn j k = Leads record_at attested_by j k

  attestation_closure-search :
      (id : String) (order : List Verification)
      → attestation_closure records id ≡ ok order
      → search id_of attested_by (λ _. false) records id ≡ ok order
  unfolding attestation_closure
  attestation_closure-search id order h =
      elim (Result-cases (search id_of attested_by (λ _. false) records id)) [
        | inl (e, bad) ↦ absurd (cc (h, bad))
        | inr (found, good) ↦ good ∙ ap ok (cc (h, good))
      ]

  -- Where `attestation_closure` answers, each record of the answer stands after all records that it
  -- attests and no id stands twice, the ids of the answer are those that the record stands on in one or
  -- more attestations, and none of these stands on itself.
  pub attestation_closure_finds :
      (id : String) (order : List Verification)
      → attestation_closure records id ≡ ok order
      → (resolved id_of attested_by [] order ≡ true)
        × ((k : String) → (listed id_of k order ≡ true) ↔ StandsOn id k)
        × ((k : String) → StandsOn id k → ¬ StandsOn k k)
  attestation_closure_finds id order h =
      search_finds id_of attested_by (λ _. false) records id order
        (attestation_closure-search id order h)

  -- What an error of `attestation_closure` says.
  abbrev pub Reason : String → VerificationError → Type 0
  Reason id (cycle k) = StandsOn id k × StandsOn k k
  Reason id (unknown_verification k) = ((k ≡ id) ⊎ StandsOn id k) × (record_at k ≡ none)
  Reason id _ = ⊥

  explained :
      (id : String) (e : WalkError)
      → Search.Reason id_of attested_by (λ _. false) records id e
      → Reason id (walk_error e)
  explained id (Walk.cycle k) r = r
  explained id (Walk.unknown k) r = r
  explained id exhausted r = r

  -- Where `attestation_closure` fails, it reports a cycle at an id that the record stands on and that
  -- stands on itself, or an id without a record that the record stands on, or its own; so the walk
  -- always ends by itself.
  pub attestation_closure_fails :
      (id : String) (e : VerificationError) → attestation_closure records id ≡ err e → Reason id e
  unfolding attestation_closure
  attestation_closure_fails id e h =
      elim (Result-cases (search id_of attested_by (λ _. false) records id)) [
        | inr (order, good) ↦ absurd (cc (h, good))
        | inl (f, bad) ↦
            let same : walk_error f ≡ e = cc (h, bad) in
            subst (Reason id) same (
              explained id f (
                search_fails id_of attested_by (λ _. false) records id f (λ k r. absurd (cc r))
                  bad))
      ]
