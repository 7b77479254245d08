-- ===== src/Host/GuestOutput.antt =====
-- src/types/guest_output_types.rs: what the guest's output is read as. A `u8`, `u32` or `u64` is a
-- number, an `i8` is its byte.
use jolt_ncp.Base.{ℕ}
use jolt_ncp.Chain.{Byte32}

pub record GuestOutput : Type 0 where
  pub transaction_hash : Byte32

pub record VmExecutionResult : Type 0 where
  pub vm_index : ℕ
  pub exit_code : ℕ
  pub cycles : ℕ

pub record TraceDetail : Type 0 where
  pub index : ℕ
  pub script_version : ℕ
  pub script_group_type : ℕ
  pub script_hash : Byte32
  pub trace_data_len : ℕ
  pub program_elf_len : ℕ
