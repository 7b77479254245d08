-- ===== src/Host/NcpTypes.antt =====
-- src/types/ncp_types.rs: the guest's input as the host serialises it.
use jolt_ncp.Base.{ℕ, List, Bytes}
use jolt_ncp.Chain.{Byte32}

pub record ScriptGroupTraces : Type 0 where
  pub script_version : ℕ
  pub script_group_type : ℕ
  pub script_hash : Byte32
  pub machine_trace_data : Bytes
  pub machine_program_elf_index : ℕ

pub record TransactionProofContext : Type 0 where
  pub raw_transaction_bytes : Bytes
  pub vm_traces : List ScriptGroupTraces
  pub machine_program_elfs : List Bytes

pub record GuestOutput : Type 0 where
  pub transaction_hash : Byte32
