-- ===== src/Secure/Outcomes.antt =====
-- What a method of the manager of src/secure/session.rs leaves, from what its parts leave.
use hacp.Common.{
  String, ◌≡◌, refl, ap, sym, ◌∙◌, ◌>>=◌, ◌>>◌, Bool, true, false, Option, none, some, Result, ok,
  err, attempt,
}
use hacp.Secure.Wire.{SecureError, SecureEnvelope}
use hacp.Secure.Manager.{SessionManager}
use hacp.Secure.Handshake.{Outcome, then_with}

module _ (P : SessionManager → Type 0) {A B : Type 0} where
  pub attempt_leaves :
      (m : SessionManager) (r : Result SecureError A) (k : A → Outcome B)
      → P m
      → ((a : A) → r ≡ ok a → P (k a).0)
      → P (attempt m r k).0
  attempt_leaves m (ok a) k here next = next a refl
  attempt_leaves m (err e) k here next = here

  pub then_leaves :
      (o : Outcome A) (k : SessionManager → A → Outcome B)
      → P o.0
      → ((n : SessionManager) (a : A) → o ≡ (n, ok a) → P (k n a).0)
      → P (then_with o k).0
  then_leaves (m, ok a) k here next = next m a refl
  then_leaves (m, err e) k here next = here

module _ (P : SessionManager → Type 0) {B : Type 0} where
  pub test_leaves :
      (b : Bool) (x y : Outcome B)
      → (b ≡ true → P x.0)
      → (b ≡ false → P y.0)
      → P (elim b as (λ _. Outcome B) [ true ↦ x | false ↦ y ]).0
  test_leaves true x y one other = one refl
  test_leaves false x y one other = other refl

module _ (P : SessionManager → Type 0) {B C : Type 0} where
  pub option_leaves :
      (o : Option C) (x : Outcome B) (y : C → Outcome B)
      → (o ≡ none → P x.0)
      → ((c : C) → o ≡ some c → P (y c).0)
      → P (elim o as (λ _. Outcome B) [ none ↦ x | some c ↦ y c ]).0
  option_leaves none x y one other = one refl
  option_leaves (some c) x y one other = other c refl

-- The same of the whole outcome.
module _ {A B : Type 0} (P : Outcome B → Type 0) where
  pub attempt_gives :
      (m : SessionManager) (r : Result SecureError A) (k : A → Outcome B)
      → ((e : SecureError) → r ≡ err e → P (m, err e))
      → ((a : A) → r ≡ ok a → P (k a))
      → P (attempt m r k)
  attempt_gives m (ok a) k fails next = next a refl
  attempt_gives m (err e) k fails next = fails e refl

module _ {B : Type 0} (P : Outcome B → Type 0) where
  pub test_gives :
      (b : Bool) (x y : Outcome B)
      → (b ≡ true → P x)
      → (b ≡ false → P y)
      → P (elim b as (λ _. Outcome B) [ true ↦ x | false ↦ y ])
  test_gives true x y one other = one refl
  test_gives false x y one other = other refl

-- A part of an envelope that its signature is not, through the end of signing: the signature is set, the
-- envelope is checked and returned.
module _ {X : Type 0} (f : SecureEnvelope → X)
    (keeps : (e : SecureEnvelope) (sig : String) → f (record e { sig = some sig }) ≡ f e)
    (valid : SecureEnvelope → Result SecureError Unit) where
  checked : (r : Result SecureError Unit) (x y : SecureEnvelope) → r >> ok x ≡ ok y → x ≡ y
  checked (ok _) x y h = cc h
  checked (err e) x y h = absurd (cc h)

  pub signed_keeps :
      (r : Result SecureError String) (bare signed : SecureEnvelope)
      → (r >>= λ sig. valid (record bare { sig = some sig }) >> ok (record bare { sig = some sig }))
        ≡ ok signed
      → f signed ≡ f bare
  signed_keeps (err e) bare signed h = absurd (cc h)
  signed_keeps (ok sig) bare signed h =
      let named : SecureEnvelope = record bare { sig = some sig } in
      let same : named ≡ signed = checked (valid named) named signed h in
      ap f (sym same) ∙ keeps bare sig
