-- ===== src/Host/Pack.antt =====
-- src/types/types.rs: the two conversions of a host context, to the guest's input type and to the
-- serialised one. Programs are shared: one entry of the table for each code hash.
pub mod Table
pub mod Faithful
pub mod Agree
pub mod Total
pub mod Programs
pub mod RawBytes
mod Examples
mod RawExamples
use jolt_ncp.Base.{
  ℕ, ◌%◌, ◌^◌, List, [], ◌∷◌, ◌++◌, foldl, Option, none, some, length, Bytes, lookup, Outcome, ok,
  ◌>>=◌, expect, map_err, traverse,
}
use jolt_ncp.Host.Text.{Text}
use jolt_ncp.Host.Errors.{HostError, transaction_proof_context_conversion}
use jolt_ncp.Chain.{Byte32, ScriptVersion, v0, v1, v2, ScriptGroupType, lock, type_script}
use jolt_ncp.Guest.Types as Guest
use jolt_ncp.Host.NcpTypes as Ncp
use jolt_ncp.Host.Types.{ScriptGroupTraces, TransactionProofContext}

-- `code_hash_to_index` and `machine_program_elfs`
pub record ElfTable : Type 0 where
  pub index : List (Byte32 × ℕ)
  pub elfs : List Bytes

abbrev pub empty : ElfTable
empty = record { index = []; elfs = [] }

-- The body of the first loop. The closure of `or_insert_with` runs only for a new code hash; the
-- length is cast to `u16`.
pub insert_elf : ElfTable → ScriptGroupTraces → ElfTable
insert_elf t trace = elim (lookup trace.code_hash t.index) [
  | some _ ↦ t
  | none ↦ record {
    index = (trace.code_hash, length t.elfs % 2 ^ 16) ∷ t.index;
    elfs = t.elfs ++ trace.machine_program_elf ∷ [];
  }
]

unfoldable pub elf_table : List ScriptGroupTraces → ElfTable
unfolding insert_elf
elf_table traces = foldl insert_elf empty traces

unfoldable pub version_u8 : ScriptVersion → ℕ
version_u8 v0 = 0
version_u8 v1 = 1
version_u8 v2 = 2

pub group_type_u8 : ScriptGroupType → ℕ
group_type_u8 lock = 0
group_type_u8 type_script = 1

-- The loop and the two matches of the second conversion.
pub ncp_insert_elf : ElfTable → ScriptGroupTraces → ElfTable
ncp_insert_elf t trace = elim (lookup trace.code_hash t.index) [
  | some _ ↦ t
  | none ↦ record {
    index = (trace.code_hash, length t.elfs % 2 ^ 16) ∷ t.index;
    elfs = t.elfs ++ trace.machine_program_elf ∷ [];
  }
]

pub ncp_elf_table : List ScriptGroupTraces → ElfTable
unfolding ncp_insert_elf
ncp_elf_table traces = foldl ncp_insert_elf empty traces

pub ncp_version_u8 : ScriptVersion → ℕ
ncp_version_u8 v0 = 0
ncp_version_u8 v1 = 1
ncp_version_u8 v2 = 2

pub ncp_group_type_u8 : ScriptGroupType → ℕ
ncp_group_type_u8 lock = 0
ncp_group_type_u8 type_script = 1

module _ {E : Type 0} where
  unfoldable pub guest_trace : ElfTable → ScriptGroupTraces → Outcome E Guest.ScriptGroupTraces
  unfolding version_u8 group_type_u8
  guest_trace table t = do
    elf_index ← expect (lookup t.code_hash table.index)
    ok (record {
      script_version = version_u8 t.script_version;
      script_group_type = group_type_u8 t.script_group_type;
      script_hash = t.script_hash;
      machine_trace_data = t.machine_trace_data;
      machine_program_elf_index = elf_index;
    })

  unfoldable pub to_guest : TransactionProofContext → Outcome E Guest.TransactionProofContext
  unfolding elf_table guest_trace
  to_guest ctx = do
    let table = elf_table ctx.vm_traces
    vm_traces ← traverse (guest_trace table) ctx.vm_traces
    ok (record {
      raw_transaction_bytes = ctx.transaction;
      vm_traces = vm_traces;
      machine_program_elfs = table.elfs;
    })

  pub ncp_trace : ElfTable → ScriptGroupTraces → Outcome E Ncp.ScriptGroupTraces
  unfolding ncp_version_u8 ncp_group_type_u8
  ncp_trace table t = do
    elf_index ← expect (lookup t.code_hash table.index)
    ok (record {
      script_version = ncp_version_u8 t.script_version;
      script_group_type = ncp_group_type_u8 t.script_group_type;
      script_hash = t.script_hash;
      machine_trace_data = t.machine_trace_data;
      machine_program_elf_index = elf_index;
    })

  pub to_ncp : TransactionProofContext → Outcome E Ncp.TransactionProofContext
  unfolding ncp_elf_table ncp_trace
  to_ncp ctx = do
    let table = ncp_elf_table ctx.vm_traces
    vm_traces ← traverse (ncp_trace table) ctx.vm_traces
    ok (record {
      raw_transaction_bytes = ctx.transaction;
      vm_traces = vm_traces;
      machine_program_elfs = table.elfs;
    })

-- `bincode::serialize` is a parameter; its error becomes a text.
unfoldable pub to_raw_bytes :
    (Ncp.TransactionProofContext → Outcome Text Bytes)
    → TransactionProofContext
    → Outcome HostError Bytes
to_raw_bytes serialize ctx = do
  raw_input ← to_ncp ctx
  map_err transaction_proof_context_conversion (serialize raw_input)
