-- ===== src/Contract/Terms.antt =====
-- The records and enumerations of src/v2/contract.rs.
use hacp.Common.{ℕ, String, List, u64_max}
use hacp.Canon.Json.{Value}

pub data Relationship : Type 0 where
  collaboration delegation : Relationship

pub record Task : Type 0 where
  pub task_id : String
  pub summary : String
  pub owner : String

pub record ContractLimits : Type 0 where
  pub max_rounds : ℕ
  pub max_amendments : ℕ
  pub max_rework : ℕ

abbrev pub default_max_rework : ℕ
default_max_rework = u64_max

pub data ContractState : Type 0 where
  proposed countered agreed executing amending verifying settled rejected withdrawn : ContractState
  no_agreement : ContractState

pub record Revision : Type 0 where
  pub number : ℕ
  pub content : Value
  pub digest : String

pub record Submission : Type 0 where
  pub against_revision : String
  pub artifacts : List String
  pub evidence : List String
  pub claim : String

pub data Verdict : Type 0 where
  accept : Verdict
  rework : (scope : String) → Verdict
  reject : Verdict
