-- ===== src/Grant/Ledger/Ops.antt =====
-- The calls that change a ledger of src/v2/grant.rs, as data, and a run of them.
use hacp.Common.{String, List, [], ◌∷◌, Result}
use hacp.Canon.{Crates}
use hacp.Grant.Record.{CapabilityGrant, GrantError}
use hacp.Grant.Ledger.{GrantLedger, issue, revoke}

pub data Call : Type 0 where
  issues : (g : CapabilityGrant) (at : String) → Call
  revokes : (grant_id : String) → Call

module _ (crates : Crates) where
  unfoldable pub perform : GrantLedger → Call → GrantLedger × Result GrantError Unit
  unfolding issue revoke
  perform l (issues g at) = issue crates l g at
  perform l (revokes grant_id) = revoke l grant_id

  unfoldable pub run : GrantLedger → List Call → GrantLedger
  unfolding perform
  run l [] = l
  run l (c ∷ cs) = run (perform l c).0 cs
