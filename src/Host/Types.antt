-- ===== src/Host/Types.antt =====
-- src/types/types.rs: the host's own traces, one program with each.
use jolt_ncp.Base.{List, Bytes}
use jolt_ncp.Chain.{Byte32, ScriptVersion, ScriptGroupType}

pub record ScriptGroupTraces : Type 0 where
  pub script_version : ScriptVersion
  pub script_group_type : ScriptGroupType
  pub script_hash : Byte32
  pub code_hash : Byte32
  pub machine_trace_data : Bytes
  pub machine_program_elf : Bytes

pub record TransactionProofContext : Type 0 where
  pub transaction : Bytes
  pub vm_traces : List ScriptGroupTraces

-- `Header` and `Tx` are the packed types of the ckb-types crate.
pub record HistoricalWitness (Header Tx : Type 0) : Type 0 where
  pub header : Header
  pub full_transactions : List Tx
