-- ===== src/Secure/View.antt =====
-- `ContractView` of src/secure/transport.rs: whether a message may claim a contract.
use Prim.Native.String.{◌++◌}
use hacp.Common.{
  ℕ, String, Bool, true, false, not, ◌||◌, none, some, List, [], ◌∷◌, any, Result, ok, err, ◌>>=◌,
  ◌>>◌, map_err, fail_if, str_is_empty, strip_prefix, ◌==◌, decimal,
}
use hacp.Canon.Json.{Value, string, number, object, members}
use hacp.Canon.{Crates, digest_of}
use hacp.Secure.Wire.{SecureError, contract_mismatch, contract_pending}

mutual
  pub data ContractView : Type 0 where
    bootstrap : ContractView
    pending : ContractView
    observed : (current : Views) (superseded : List String) (still_bootstrap : Bool) → ContractView
    frozen :
        (contract_id : String) (revision : ℕ) (content : Value) (digest : String) → ContractView

  pub data Views : Type 0 where
    end : Views
    view : ContractView → Views → Views

-- `digest.strip_prefix("sha256:").unwrap_or(digest)`.
unfoldable pub bare_digest : String → String
unfolding strip_prefix
bare_digest digest = elim (strip_prefix "sha256:" digest) [ none ↦ digest | some rest ↦ rest ]

abbrev pub no_views : Views → Bool
no_views end = true
no_views (view v vs) = false

-- The end of `check` for an observed view.
abbrev pub answer : (matched opening : Bool) → (claimed : String) → Result SecureError Unit
answer true opening claimed = ok tt
answer false true claimed = fail_if (not (str_is_empty claimed)) contract_pending
answer false false claimed = err contract_mismatch

module _ (crates : Crates) where
  -- The branch of `check` for a frozen view.
  unfoldable pub check_frozen :
      (contract_id : String) (revision : ℕ) (content : Value) (digest claimed : String)
      → Result SecureError Unit
  unfolding digest_of bare_digest decimal
  check_frozen contract_id revision content digest claimed = do
    computed ←
        map_err (λ _. contract_mismatch)
          (digest_of crates (
            object (
              members (
                ("contract_id", string contract_id)
                ∷ ("revision", number (decimal revision))
                ∷ ("content", content)
                ∷ []))))
    fail_if (not (bare_digest digest == computed) || not (claimed == "sha256:" ++ computed))
        contract_mismatch

  -- The loop over the current views, which must be frozen; it says whether one has the claimed binding.
  unfoldable pub check_current : Views → (claimed : String) → Bool → Result SecureError Bool
  unfolding check_frozen bare_digest
  check_current end claimed matched = ok matched
  check_current (view (frozen contract_id revision content digest) vs) claimed matched = do
    let binding = "sha256:" ++ bare_digest digest
    check_frozen contract_id revision content digest binding
    check_current vs claimed (matched || binding == claimed)
  check_current (view v vs) claimed matched = err contract_mismatch

  unfoldable pub check : ContractView → (claimed : String) → Result SecureError Unit
  unfolding check_frozen check_current
  check bootstrap claimed = fail_if (not (str_is_empty claimed)) contract_pending
  check pending claimed = fail_if (not (str_is_empty claimed)) contract_pending
  check (frozen contract_id revision content digest) claimed =
      check_frozen contract_id revision content digest claimed
  check (observed current superseded still_bootstrap) claimed = do
    matched ← check_current current claimed false
    fail_if (any (λ digest. digest == claimed) superseded) contract_mismatch
    answer matched (still_bootstrap || no_views current) claimed
