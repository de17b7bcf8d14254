-- ===== src/Contract/Bounds.antt =====
-- The bounds of a contract of src/v2/contract.rs hold between any two calls.
use hacp.Common.{
  ℕ, ◌≤◌, ◌<◌, String, ◌≡◌, inl, inr, Bool, true, false, ◌||◌, none, some, arith, Result-cases,
  set_insert, u64_max, decimal, is_ok,
}
use hacp.Canon.{Crates}
use hacp.Canon.Json.{Value}
use hacp.Contract.Digests.{is_ok-revision_digest}
use hacp.Contract.Terms.{ContractState, executing, amending, verifying, settled, rejected}
use hacp.Contract.{Contract, is_amending, is_pre_freeze, check_terms, revision_digest, next_number}
use hacp.Contract.Ops.{Call, decides, amends, answers, perform}
use hacp.Contract.Parties.{perform-parties}

-- Negotiation, before the freeze or of an amendment.
abbrev pub is_negotiating : ContractState → Bool
is_negotiating s = is_pre_freeze s || is_amending s

-- A revision is frozen and the contract has not ended without agreement.
abbrev pub is_frozen : ContractState → Bool
is_frozen executing = true
is_frozen amending = true
is_frozen verifying = true
is_frozen settled = true
is_frozen rejected = true
is_frozen _ = false

pub record IsBounded (c : Contract) : Type 0 where
  pub word : c.limits.max_amendments ≤ u64_max
  pub some_round : 0 < c.limits.max_rounds
  pub rounds : is_negotiating c.state ≡ true → c.rounds < c.limits.max_rounds
  pub amendments : c.amendments ≤ c.limits.max_amendments
  pub amending_below : is_amending c.state ≡ true → c.amendments < c.limits.max_amendments
  pub reworks : c.reworks ≤ c.limits.max_rework

module _ (crates : Crates) (plain : (n : ℕ) → crates.is_f64 (decimal n) ≡ false)
    (c : Contract) where
  perform-rounds :
      IsBounded c
      → (k : Call) → is_negotiating (perform crates c k).0.state ≡ true
      → (perform crates c k).0.rounds < c.limits.max_rounds
  unfolding perform
  perform-rounds v (amends by) h = ground (arith, v.rounds, v.some_round)
  perform-rounds v k h = ground (arith, v.rounds, v.some_round)

  perform-amendments :
      IsBounded c → (k : Call) → (perform crates c k).0.amendments ≤ c.limits.max_amendments
  unfolding perform
  perform-amendments v (answers by accepts terms) = ground (arith, v.amendments, v.amending_below)
  perform-amendments v k = ground (arith, v.amendments)

  -- An amendment that both accept is frozen: its terms were checked.
  frozen_amendment :
      (by : String) (content : Value)
      → is_ok (
          check_terms crates
            (record c { amendment_participants = set_insert by c.amendment_participants })
            content)
        ≡ true
      → is_ok (revision_digest crates c.contract_id (next_number crates c) content) ≡ true
  frozen_amendment by content h =
      let d : Contract = record c {
        amendment_participants = set_insert by c.amendment_participants;
      } in
      elim (Result-cases (check_terms crates d content)) [
        | inl (e, bad) ↦ absurd (ground arith)
        | inr (digest, good) ↦
            is_ok-revision_digest crates d content digest c.contract_id (next_number crates c)
              (plain (next_number crates c)) good
      ]

  perform-amending_below :
      IsBounded c
      → (k : Call) → is_amending (perform crates c k).0.state ≡ true
      → (perform crates c k).0.amendments < c.limits.max_amendments
  unfolding perform
  perform-amending_below v (answers by accepts none) h = ground (arith, v.amending_below)
  perform-amending_below v (answers by accepts (some content)) h =
      ground (arith, v.amending_below, frozen_amendment by content)
  perform-amending_below v k h = ground (arith, v.amending_below)

  perform-reworks : IsBounded c → (k : Call) → (perform crates c k).0.reworks ≤ c.limits.max_rework
  unfolding perform
  perform-reworks v (decides x) = ground (arith, v.reworks)
  perform-reworks v k = ground (arith, v.reworks)

  pub perform-IsBounded : (k : Call) → IsBounded c → IsBounded (perform crates c k).0
  perform-IsBounded k v =
      let (_, same, _) = perform-parties crates c k in
      record {
        word = rw same v.word;
        some_round = rw same v.some_round;
        rounds = λ h. rw same (perform-rounds v k h);
        amendments = rw same (perform-amendments v k);
        amending_below = λ h. rw same (perform-amending_below v k h);
        reworks = rw same (perform-reworks v k);
      }
