-- ===== src/Escalation/Ladder.antt =====
-- What the calls of src/v2/escalation.rs keep: the ladder, and the record of the journey.
use hacp.Common.{
  String, ◌≡◌, refl, ◌∙◌, subst, ◌≢◌, inl, inr, true, false, ◌||◌, some, List, [], ◌∷◌, arith,
  is_some, Bool-cases, Result, ok, Result-cases, ◌==◌, eq_iff,
}
use hacp.Grant.Org.{OrgChart}
use hacp.Escalation.{
  Escalation, EscalationSubject, EscalationError, Ruling, resolved, is_closed, mediator_of, raise,
  refer, invoke_arbiter, resolve, conclude_no_agreement,
}

-- The calls that change an escalation, as data.
pub data Call : Type 0 where
  refers : (org : OrgChart) → Call
  invokes : (arbiter : String) → Call
  resolves : (ruling : Ruling) → Call
  concludes : Call

unfoldable pub perform : Escalation → Call → Escalation × Result EscalationError Unit
unfolding refer invoke_arbiter resolve conclude_no_agreement
perform e (refers org) = refer e org
perform e (invokes arbiter) = invoke_arbiter e arbiter
perform e (resolves ruling) = resolve e ruling
perform e concludes = conclude_no_agreement e

unfoldable pub run : Escalation → List Call → Escalation
unfolding perform
run e [] = e
run e (k ∷ ks) = run (perform e k).0 ks

-- The record of a journey.
pub record IsJourney (e : Escalation) : Type 0 where
  pub apart : e.parties.0 ≢ e.parties.1
  pub mediated : is_some e.mediator ≡ true
  pub ruled :
      (is_some e.ruling ≡ true → e.stage ≡ resolved)
      × (e.stage ≡ resolved → is_some e.ruling ≡ true)
  pub third :
      (who : String) → e.arbiter ≡ some who → (who == e.parties.0 || who == e.parties.1) ≡ false

perform-kept :
    (e : Escalation) (k : Call)
    → ((perform e k).0.parties ≡ e.parties)
      × ((perform e k).0.subject ≡ e.subject)
      × ((perform e k).0.raised_at ≡ e.raised_at)
unfolding perform
perform-kept e (refers org) = (ground arith, ground arith, ground arith)
perform-kept e k = (ground arith, ground arith, ground arith)

module _ (e : Escalation) (v : IsJourney e) where
  perform-mediated : (k : Call) → is_some (perform e k).0.mediator ≡ true
  unfolding perform
  perform-mediated (refers org) = ground (arith, v.mediated)
  perform-mediated k = ground (arith, v.mediated)

  perform-ruled :
      (k : Call)
      → (is_some (perform e k).0.ruling ≡ true → (perform e k).0.stage ≡ resolved)
        × ((perform e k).0.stage ≡ resolved → is_some (perform e k).0.ruling ≡ true)
  unfolding perform
  perform-ruled (refers org) =
      (λ h. ground (arith, v.ruled.0, v.ruled.1), λ h. ground (arith, v.ruled.0, v.ruled.1))
  perform-ruled k =
      (λ h. ground (arith, v.ruled.0, v.ruled.1), λ h. ground (arith, v.ruled.0, v.ruled.1))

  perform-third :
      (k : Call) (who : String)
      → (perform e k).0.arbiter ≡ some who
      → (who == e.parties.0 || who == e.parties.1) ≡ false
  unfolding perform
  perform-third (invokes arbiter) who h =
      elim (Bool-cases (is_closed e.stage || (arbiter == e.parties.0 || arbiter == e.parties.1))) [
        | inl refused ↦ ground (arith, v.third who)
        | inr taken ↦
            let same : arbiter ≡ who = ground arith in
            subst (λ x. (x == e.parties.0 || x == e.parties.1) ≡ false) same (ground arith)
      ]
  perform-third k who h = ground (arith, v.third who)

  perform-IsJourney : (k : Call) → IsJourney (perform e k).0
  perform-IsJourney k =
      let (same, _, _) = perform-kept e k in
      record {
        apart = rw same v.apart;
        mediated = perform-mediated k;
        ruled = perform-ruled k;
        third = λ who h. rw same (perform-third k who h);
      }

run-IsJourney_from :
    (e : Escalation) (ks : List Call)
    → IsJourney e
    → IsJourney (run e ks)
      × ((run e ks).parties ≡ e.parties)
      × ((run e ks).subject ≡ e.subject)
      × ((run e ks).raised_at ≡ e.raised_at)
unfolding run
run-IsJourney_from e [] v = (v, refl, refl, refl)
run-IsJourney_from e (k ∷ ks) v =
    let (p, s, a) = perform-kept e k in
    let (final, p', s', a') = run-IsJourney_from (perform e k).0 ks (perform-IsJourney e v k) in
    (final, p' ∙ p, s' ∙ s, a' ∙ a)

raised_as :
    (org : OrgChart) (id a b : String) (subject : EscalationSubject) (at : String) (e : Escalation)
    (mediator : String)
    → raise org id a b subject at ≡ ok (e, mediator)
    → IsJourney e × (e.parties ≡ (a, b)) × (e.subject ≡ subject) × (e.raised_at ≡ at)
unfolding raise
raised_as org id a b subject at e mediator h = elim (Result-cases (mediator_of org a b)) [
  | inl (x, bad) ↦ absurd (ground arith)
  | inr (m, good) ↦ (
    record {
      apart = ground (arith, eq_iff a b);
      mediated = ground arith;
      ruled = (λ k. ground arith, λ k. ground arith);
      third = λ who k. ground arith;
    },
    ground arith,
    ground arith,
    ground arith,
  )
]

-- A dispute that was raised keeps its parties, which differ, its subject and its time through any
-- calls, refused ones included; it always has a mediator; it has a ruling exactly if it is resolved;
-- and an arbiter, if one was invoked, is neither party.
pub run-IsJourney :
    (org : OrgChart) (id a b : String) (subject : EscalationSubject) (at : String) (e : Escalation)
    (mediator : String) (ks : List Call)
    → raise org id a b subject at ≡ ok (e, mediator)
    → IsJourney (run e ks)
      × ((run e ks).parties ≡ (a, b))
      × ((run e ks).subject ≡ subject)
      × ((run e ks).raised_at ≡ at)
run-IsJourney org id a b subject at e mediator ks h =
    let (v, p, s, t) = raised_as org id a b subject at e mediator h in
    let (w, p', s', t') = run-IsJourney_from e ks v in (w, p' ∙ p, s' ∙ s, t' ∙ t)

-- A closed escalation, resolved or without agreement, refuses every call and survives untouched.
pub perform_closed :
    (e : Escalation) (k : Call)
    → is_closed e.stage ≡ true
    → ((perform e k).0 ≡ e) × ((perform e k).1 ≢ ok tt)
unfolding perform
perform_closed e (refers org) h = (ground arith, λ x. ground arith)
perform_closed e k h = (ground arith, λ x. ground arith)
