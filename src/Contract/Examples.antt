-- ===== src/Contract/Examples.antt =====
-- Runs of src/v2/contract.rs on a small contract, and the theorems at them.
use hacp.Common.{
  String, ◌≡◌, refl, ◌≢◌, true, false, not, none, some, List, [], ◌∷◌, ◌++◌, All, any, ok, err,
  is_empty, is_some, eq_iff, contains, set_insert, arith, as_bytes, contains_char, decimal,
}
use hacp.Envelope.Urn
use hacp.Artifact.Shape.{is_hex_id, is_digest_shape}
use hacp.Session.{Session, active}
use hacp.Canon.{write_value, canonical_json, digest_canonical, hex_lower, digest_of}
use hacp.Canon.Json.{Value, object, members, number}
use hacp.Canon.Examples.{sample_crates}
use hacp.Verification
use hacp.Verification.{Verification, Check}
use hacp.Contract.Terms.{
  collaboration, Task, ContractLimits, Revision, Submission, accept, verifying, settled,
  no_agreement,
}
use hacp.Contract.{
  Contract, counter, agree, freeze, submit, apply_verification, propose_amendment, decide_amendment,
  check_terms, revision_digest, is_party, same_set, rounds_exhausted,
}
use hacp.Contract.Formation.{proposal, propose}
use hacp.Contract.Ops.{Call, agrees, freezes, submits, verifies, perform, run}
use hacp.Contract.Bounds.{IsBounded}
use hacp.Contract.Reach.{Reaches, start, step, Reaches-IsBounded}
use hacp.Contract.Consent.{Accepted, freeze_accepted}
use hacp.Contract.History.{IsSealed, run_appends, revisions-IsSealed}
use hacp.Contract.Submissions.{IsTracked, Reaches-IsTracked}
use hacp.Contract.Verdicts.{perform_final, apply_verification_grounds}

-- What a test by `refl` has to unfold.
engine : Unit {0}
unfolding Urn.parse is_hex_id is_digest_shape canonical_json write_value digest_of digest_canonical
    hex_lower as_bytes contains_char decimal Verification.validate propose counter agree freeze
    submit apply_verification propose_amendment decide_amendment check_terms revision_digest run
    contains set_insert
engine = tt

abbrev ann : String
ann = "urn:hacp:agent:ann"

abbrev bob : String
bob = "urn:hacp:agent:bob"

abbrev between : Session
between = record {
  session_id = "s-1";
  participants = (ann, bob);
  observers = [];
  state = active;
  declared = [];
  close_reason = none;
}

abbrev job : Task
job = record { task_id = "t-1"; summary = "sort the list"; owner = bob }

abbrev bounds : ContractLimits
bounds = record { max_rounds = 2; max_amendments = 1; max_rework = 1 }

abbrev offer : Contract
offer = proposal between "c-1" job collaboration none [] bounds

abbrev terms : Value
terms = object (members (("budget", number "3") ∷ []))

abbrev seal : String
seal = "00112233445566778899aabbccddeeff0102030405060708090a0b0c0d0e0f10"

offers :
    propose sample_crates between "c-1" job collaboration none none none none [] bounds ≡ ok offer
unfolding engine
offers = refl

first_round : (counter offer ann).1 ≡ ok tt
unfolding engine
first_round = refl

last_round : (counter (counter offer ann).0 bob).1 ≡ err (rounds_exhausted 2 2)
unfolding engine
last_round = refl

ends_without_agreement : (counter (counter offer ann).0 bob).0.state ≡ no_agreement
unfolding engine
ends_without_agreement = refl

abbrev accepted : Contract
accepted =
    (perform sample_crates (perform sample_crates offer (agrees ann terms)).0 (agrees bob terms)).0

freezes_terms : (freeze sample_crates accepted terms).1 ≡ ok seal
unfolding engine
freezes_terms = refl

abbrev work : Submission
work = record { against_revision = seal; artifacts = "a-1" ∷ []; evidence = []; claim = "sorted" }

abbrev checked : Verification
checked = record {
  verification_id = "v-000000000001";
  verifier = ann;
  contract_id = "c-1";
  against_revision = seal;
  artifacts = "a-1" ∷ [];
  evidence = [];
  checks = record { name = "sorted"; passed = true; detail = "in order" } ∷ [];
  verdict = accept;
  reasons = [];
  attests = [];
}

abbrev handed_in : Contract
handed_in =
    run sample_crates offer
      (agrees ann terms ∷ agrees bob terms ∷ freezes terms ∷ submits bob work ∷ [])

waits : handed_in.state ≡ verifying
unfolding engine
waits = refl

verified : (apply_verification handed_in checked).1 ≡ ok tt
unfolding engine
verified = refl

-- The submitter does not verify its own work.
own_work : (apply_verification handed_in (record checked { verifier = bob })).0.state ≡ verifying
unfolding engine
own_work = refl

settles : (apply_verification handed_in checked).0.state ≡ settled
unfolding engine
settles = refl

Reaches-accepted : Reaches sample_crates (agrees bob terms ∷ agrees ann terms ∷ []) accepted
Reaches-accepted =
    step (agrees ann terms ∷ []) (perform sample_crates offer (agrees ann terms)).0
      (agrees bob terms)
      (step [] offer (agrees ann terms) (
        start between "c-1" job collaboration none none none none [] bounds offer
          (λ e. cc ((eq_iff ann bob).1 e)) (omega arith) offers))

freeze_accepted_example :
    (other : Value) × (d : String) × Accepted ann other (agrees bob terms ∷ agrees ann terms ∷ [])
    × (digest_of sample_crates other ≡ ok d)
    × (digest_of sample_crates terms ≡ ok d)
freeze_accepted_example =
    freeze_accepted sample_crates (agrees bob terms ∷ agrees ann terms ∷ []) accepted terms seal ann
      Reaches-accepted freezes_terms (unfold engine in refl)

Reaches-IsBounded_example : IsBounded accepted
Reaches-IsBounded_example =
    Reaches-IsBounded sample_crates (agrees bob terms ∷ agrees ann terms ∷ []) accepted (λ n. refl)
      Reaches-accepted

abbrev past : List Call
past = submits bob work ∷ freezes terms ∷ agrees bob terms ∷ agrees ann terms ∷ []

Reaches-handed_in : Reaches sample_crates past handed_in
unfolding run
Reaches-handed_in =
    step (freezes terms ∷ agrees bob terms ∷ agrees ann terms ∷ [])
      (perform sample_crates accepted (freezes terms)).0 (submits bob work)
      (step (agrees bob terms ∷ agrees ann terms ∷ []) accepted (freezes terms) Reaches-accepted)

Reaches-IsTracked_example : IsTracked handed_in
Reaches-IsTracked_example = Reaches-IsTracked sample_crates past handed_in Reaches-handed_in

-- There is a revision, and it has the seal.
has_revision : handed_in.revisions ≡ record { number = 1; content = terms; digest = seal } ∷ []
unfolding engine
has_revision = refl

revisions-IsSealed_example : All (IsSealed sample_crates handed_in.contract_id) handed_in.revisions
revisions-IsSealed_example = revisions-IsSealed sample_crates past handed_in Reaches-handed_in

run_appends_example :
    (more : List Revision) × ((run sample_crates handed_in (verifies checked ∷ [])).revisions
      ≡ handed_in.revisions ++ more)
run_appends_example = run_appends sample_crates handed_in (verifies checked ∷ [])

perform_final_example :
    ((perform sample_crates (record offer { state = settled }) (agrees ann terms)).0
      ≡ record offer { state = settled })
    × ((perform sample_crates (record offer { state = settled }) (agrees ann terms)).1 ≢ ok tt)
perform_final_example =
    perform_final sample_crates (record offer { state = settled }) (agrees ann terms) refl

apply_verification_grounds_example :
    (is_party handed_in ann ≡ true)
    × (handed_in.pending_submitter ≢ some ann)
    × (is_some handed_in.pending_submitter ≡ true)
    × ("c-1" ≡ handed_in.contract_id)
    × (handed_in.state ≡ verifying)
    × ((pending : Submission) × (handed_in.pending_submission ≡ some pending)
        × (seal ≡ pending.against_revision)
        × (same_set ("a-1" ∷ []) pending.artifacts ≡ true))
    × (accept ≡ accept
        → (is_empty {A = String} ("a-1" ∷ []) ≡ false)
          × (any (λ (k : Check). k.passed) checked.checks ≡ true)
          × (any (λ (k : Check). not k.passed) checked.checks ≡ false))
apply_verification_grounds_example = apply_verification_grounds handed_in checked verified
