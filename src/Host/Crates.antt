-- ===== src/Host/Crates.antt =====
-- The crates ckb-types, ckb-hash, ckb-mock-tx-types, ckb-chain-spec and ckb-script, as far as
-- src/vefier_context.rs calls them.
use jolt_ncp.Base.{ℕ, List, Option, Outcome, Bytes}
use jolt_ncp.Chain.{Byte32, Script, ScriptGroup, ScriptGroupType, ScriptVersion, OutPoint}
use jolt_ncp.Host.Text.{Text}
use jolt_ncp.Host.Convert.{MockTransaction}

-- `ScriptHashType`, which is open to further variants.
pub data ScriptHashType : Type 0 where
  data_hash data1_hash data2_hash type_hash further_hash : ScriptHashType

-- A cell dependency of a resolved transaction.
pub record CellMeta : Type 0 where
  pub out_point : OutPoint
  pub mem_cell_data : Option Bytes

pub record Crates (H : Type 0) : Type 1 where
  pub Resource : Type 0
  pub Resolved : Type 0
  pub Hardfork2021 : Type 0
  pub Hardfork2023 : Type 0
  pub Consensus : Type 0
  pub TxVerifyEnv : Type 0
  pub Verifier : Type 0
  pub Scheduler : Type 0
  pub SgData : Type 0
  pub blake2b_256 : Bytes → Byte32
  pub calc_script_hash : Script → Byte32
  pub script_hash_type : ℕ → Outcome Text ScriptHashType
  pub resource_of : MockTransaction H → Outcome Text Resource
  pub resolve_transaction : MockTransaction H → Resource → Outcome Text Resolved
  pub resolved_cell_deps : Resolved → List CellMeta
  -- the builders of the hard forks, for the epoch of an RFC
  pub build_ckb2021 : ℕ → Outcome Text Hardfork2021
  pub build_ckb2023 : ℕ → Outcome Text Hardfork2023
  pub consensus : Hardfork2021 → Hardfork2023 → Consensus
  -- the environment of a header with an epoch (number, index, length)
  pub new_commit : ℕ × ℕ × ℕ → TxVerifyEnv
  pub verifier : Resolved → Resource → Consensus → TxVerifyEnv → Verifier
  pub groups_with_type : Verifier → List (ScriptGroupType × Byte32 × ScriptGroup)
  pub select_version : Verifier → Script → Outcome Text ScriptVersion
  pub find_script_group : Verifier → ScriptGroupType → Byte32 → Option ScriptGroup
  pub create_scheduler : Verifier → ScriptGroup → Outcome Text Scheduler
  pub sg_data : Scheduler → SgData
