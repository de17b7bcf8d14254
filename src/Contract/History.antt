-- ===== src/Contract/History.antt =====
-- The frozen revisions of src/v2/contract.rs: history is appended to, never rewritten.
use hacp.Common.{
  append-nil, append_assoc, String, ◌≡◌, refl, sym, ◌∙◌, ap, ◌⊎◌, inl, inr, Bool, true, Option,
  none, some, List, [], ◌∷◌, ◌++◌, arith, All, All-append, ok, Result-cases,
}
use hacp.Canon.{Crates}
use hacp.Canon.Json.{Value}
use hacp.Contract.Terms.{Revision}
use hacp.Contract.{Contract, freeze, decide_amendment, revision_digest, next_number}
use hacp.Contract.Ops.{Call, freezes, answers, perform, run}
use hacp.Contract.Parties.{perform-parties}
use hacp.Contract.Reach.{Reaches, start, step, propose-IsFresh}

-- The revision carries the digest of its own number and content under the contract's id.
abbrev pub IsSealed : Crates → String → Revision → Type 0
IsSealed crates contract_id r = revision_digest crates contract_id r.number r.content ≡ ok r.digest

-- No revision is new, or one is, at the end, with the next number and its own digest.
abbrev pub Appends : Crates → Contract → Contract → Type 0
Appends crates c e =
    (e.revisions ≡ c.revisions)
    ⊎ ((r : Revision) × (e.revisions ≡ c.revisions ++ (r ∷ []))
        × (r.number ≡ next_number crates c)
        × IsSealed crates c.contract_id r)

module _ (crates : Crates) (c : Contract) where
  freeze-Appends : (terms : Value) → Appends crates c (freeze crates c terms).0
  unfolding freeze
  freeze-Appends terms =
      elim (Result-cases (revision_digest crates c.contract_id (next_number crates c) terms)) [
        | inl (e, bad) ↦ inl (ground arith)
        | inr (digest, good) ↦ elim (Result-cases (freeze crates c terms).1) [
          | inl (e, failed) ↦ inl (ground arith)
          | inr (d, froze) ↦ inr (
            record { number = next_number crates c; content = terms; digest = digest },
            ground arith,
            refl,
            good,
          )
        ]
      ]

  decide_amendment-Appends :
      (by : String) (accepts : Bool) (terms : Option Value)
      → Appends crates c (decide_amendment crates c by accepts terms).0
  unfolding decide_amendment
  decide_amendment-Appends by true (some terms) =
      elim (Result-cases (revision_digest crates c.contract_id (next_number crates c) terms)) [
        | inl (e, bad) ↦ inl (ground arith)
        | inr (digest, good) ↦
            elim (Result-cases (decide_amendment crates c by true (some terms)).1) [
              | inl (e, failed) ↦ inl (ground arith)
              | inr (none, waiting) ↦ inl (ground arith)
              | inr (some d, froze) ↦ inr (
                record { number = next_number crates c; content = terms; digest = digest },
                ground arith,
                refl,
                good,
              )
            ]
      ]
  decide_amendment-Appends by accepts terms = inl (ground arith)

  pub perform-Appends : (k : Call) → Appends crates c (perform crates c k).0
  unfolding perform
  perform-Appends (freezes terms) = freeze-Appends terms
  perform-Appends (answers by accepts terms) = decide_amendment-Appends by accepts terms
  perform-Appends k = inl (ground arith)

module _ (crates : Crates) where
  -- Whatever calls are made, refused ones included, the frozen revisions stay the first ones of the
  -- list, in their order and with their numbers, contents and digests.
  pub run_appends :
      (c : Contract) (ks : List Call)
      → (more : List Revision) × ((run crates c ks).revisions ≡ c.revisions ++ more)
  unfolding run
  run_appends c [] = ([], sym (append-nil c.revisions))
  run_appends c (k ∷ ks) =
      let (more, e) = run_appends (perform crates c k).0 ks in
      elim (perform-Appends crates c k) [
        | inl same ↦ (more, e ∙ ap (λ rs. rs ++ more) same)
        | inr (r, added, _, _) ↦
            (r ∷ more, e ∙ ap (λ rs. rs ++ more) added ∙ append_assoc c.revisions (r ∷ []) more)
      ]

  -- After any calls since the proposal, every revision carries the digest of its own number and
  -- content under the contract's id.
  pub revisions-IsSealed :
      (past : List Call) (c : Contract)
      → Reaches crates past c
      → All (IsSealed crates c.contract_id) c.revisions
  revisions-IsSealed past c (start s i task r g org l at p lim _ distinct word formed) =
      let (fresh, _, _) = propose-IsFresh crates s i task r g org l at p lim c formed in
      rw fresh.no_revisions tt
  revisions-IsSealed _ _ (step past c k reached) =
      let held = revisions-IsSealed past c reached in
      let (_, _, same) = perform-parties crates c k in
      rw same (elim (perform-Appends crates c k) [
        | inl kept ↦ rw kept held
        | inr (r, added, _, sealed) ↦
            rw added
              (All-append (IsSealed crates c.contract_id) c.revisions (r ∷ []) held (sealed, tt))
      ])
