-- ===== src/Contract/Parties.antt =====
-- What no call of src/v2/contract.rs changes: who a contract is between, and its bounds.
use hacp.Common.{◌≡◌, arith}
use hacp.Canon.{Crates}
use hacp.Contract.{Contract}
use hacp.Contract.Ops.{Call, decides, perform}

module _ (crates : Crates) (c : Contract) where
  -- No call changes who the contract is between, or its bounds.
  pub perform-parties :
      (k : Call)
      → ((perform crates c k).0.participants ≡ c.participants)
        × ((perform crates c k).0.limits ≡ c.limits)
        × ((perform crates c k).0.contract_id ≡ c.contract_id)
  unfolding perform
  perform-parties (decides v) = (ground arith, ground arith, ground arith)
  perform-parties k = (ground arith, ground arith, ground arith)
