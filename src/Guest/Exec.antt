-- ===== src/Guest/Exec.antt =====
-- guest/src/executor.rs, guest/src/exec_syscall_handler.rs and the entry point of guest/src/lib.rs:
-- the replay of a trace in CKB-VM, which with the syscall crates is a parameter.
pub mod Replay
pub mod Exit
pub mod Examples
use jolt_ncp.Base.{
  ℕ, Bool, true, false, List, Option, none, some, get_elem?, Outcome, ok, panic, ◌>>=◌, unwrap,
  expect, Bytes, ◌==◌, if◌then◌else◌,
}
use jolt_ncp.Host.Text.{Text}
use jolt_ncp.Guest.Types.{ScriptGroupTraces, TransactionProofContext}

-- The two registers that the override reads and writes.
pub record Registers : Type 0 where
  pub a0 : ℕ
  pub a7 : ℕ

pub data SyscallCode : Type 0 where
  exec : SyscallCode
  further : ℕ → SyscallCode

-- `VERSION0`, `VERSION1` and `VERSION2` of CKB-VM.
pub data MachineVersion : Type 0 where
  version0 version1 version2 : MachineVersion

pub record Replayer : Type 1 where
  pub RunnerImpls : Type 0
  pub Machine : Type 0
  -- `try_into` a syscall's code
  pub syscall_code : ℕ → Option SyscallCode
  pub new_with_bytes : Bytes → Outcome Text RunnerImpls
  pub args : RunnerImpls → List Bytes
  -- a machine whose first handler is the override and whose second replays the trace
  pub build : MachineVersion → (Registers → Bool × Registers) → RunnerImpls → Machine
  pub load_program : Machine → Bytes → List Bytes → Outcome Text Machine
  pub run : Machine → Outcome Text ℕ

pub record VmExecutor : Type 0 where
  pub trace_data : Bytes
  pub script_elf : Bytes
  pub script_version : ℕ

unfoldable pub new : Bytes → Bytes → ℕ → VmExecutor
new trace_data script_elf script_version = record {
  trace_data = trace_data;
  script_elf = script_elf;
  script_version = script_version;
}

-- The match on the script's version, which panics on any other number.
unfoldable pub machine_version : {E : Type 0} → ℕ → Outcome E MachineVersion
machine_version n =
    if n == 0
    then ok version0
    else if n == 1
    then ok version1
    else if n == 2
    then ok version2
    else panic

module _ (replayer : Replayer) where
  open replayer use {syscall_code, new_with_bytes, args, build, load_program, run}

  -- `ExecOverride::ecall`: whether the call is handled, and the registers after it.
  pub ecall : Registers → Bool × Registers
  ecall machine = elim (syscall_code machine.a7) [
    | none ↦ (false, machine)
    | some code ↦ elim code [
      | exec ↦ (true, record machine { a0 = 0 })
      | further _ ↦ (false, machine)
    ]
  ]

  unfoldable pub execute : VmExecutor → Outcome Text (Unit {0})
  execute self = do
    machine_trace_impls ← unwrap (new_with_bytes self.trace_data)
    version ← machine_version self.script_version
    let machine = build version ecall machine_trace_impls
    loaded ← unwrap (load_program machine self.script_elf (args machine_trace_impls))
    exit_code ← unwrap (run loaded)
    ok tt

  unfoldable pub entrypoint : TransactionProofContext → Outcome Text (Unit {0})
  entrypoint tx_context = do
    trace ← expect (get_elem? tx_context.vm_traces 0)
    elf ← expect (get_elem? tx_context.machine_program_elfs trace.machine_program_elf_index)
    execute (new trace.machine_trace_data elf trace.script_version)
