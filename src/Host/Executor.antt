-- ===== src/Host/Executor.antt =====
-- src/lib.rs, src/type_id.rs and src/collect_vm_syscalls.rs: the host, from a transaction's hash to
-- the proof of its replay. The lines that are printed are in Log, Report and RunLog.
pub mod Traces
pub mod Run
pub mod Log
pub mod Report
pub mod RunLog
pub mod ProofLine
pub mod NoProof
pub mod Sizes
pub mod Logged
pub mod Replayed
pub mod Missing
pub mod Failures
pub mod Examples
pub mod RunExamples
pub mod ReplayedExamples
mod LogExamples
mod FailureExamples
mod ContextExamples
use jolt_ncp.Base.{
  ℕ, add_word, List, [], ◌∷◌, ◌++◌, Option, none, some, Outcome, ok, err, panic, ◌>>=◌, map_err,
  unwrap, Bytes, length, ltb, ◌==◌, ◌&&◌, if◌then◌else◌, Bool, true, false,
}
use jolt_ncp.Chain.{
  Byte32, Script, ScriptGroup, ScriptGroupType, ScriptVersion, v2, OutPoint, Transaction,
}
use jolt_ncp.Guest.Types as Guest
use jolt_ncp.Host.Types.{ScriptGroupTraces, TransactionProofContext}
use jolt_ncp.Host.Pack.{to_guest}
use jolt_ncp.Host.Text.{Text, Piece, chars, lit}
use jolt_ncp.Host.Errors.{
  HostError, Stop, returned_error, exit_process, rpc_client_creation, transaction_fetch,
  program_elf_not_found,
}
use jolt_ncp.Host.Json.{Json}
use jolt_ncp.Host.Rpc.{get_transaction}
use jolt_ncp.Host.Batch.{RpcClient, Network, default_rpc_timeout_seconds, exec, new}
use jolt_ncp.Host.Convert.{MockTransaction, tx_to_mock_tx}
use jolt_ncp.Host.Crates.{Crates}
use jolt_ncp.Host.Verifier.{
  VerifierGroupContext, VerifierGroupMetadata, from_mock_transaction_with_groups, get_program_elf,
}

-- The key of a virtual machine: its id and its generation. The root has 0 and 0.
pub record CollectorKey : Type 0 where
  pub vm_id : ℕ
  pub generation_id : ℕ

-- What the tracer brings of a script group; a trace stands with the place of its program.
pub record CollectorResult (Locator Syscalls : Type 0) : Type 0 where
  pub exit_code : ℕ
  pub cycles : ℕ
  pub traces : List (CollectorKey × Locator × Syscalls)

-- The crates ckb-vm-syscall-tracer and ckb-chain-spec.
pub record Tracer {H : Type 0} (crates : Crates H) : Type 1 where
  pub Locator : Type 0
  pub Syscalls : Type 0
  pub type_id_code_hash : Byte32
  pub type_hash_byte : ℕ
  pub into_bytes : Syscalls → Bytes
  pub collect :
      VerifierGroupContext crates → ScriptGroup → Outcome Text (CollectorResult Locator Syscalls)

-- The guest as Jolt compiles it.
pub record Prover : Type 1 where
  pub Program : Type 0
  pub Proof : Type 0
  pub prove : Program → Guest.TransactionProofContext → Outcome Text Proof

pub record HostExecutor (V : Type 0) : Type 0 where
  pub rpc_client : RpcClient V
  pub network : List ℕ

pub record HostConfig : Type 0 where
  pub network : List ℕ
  pub rpc_url : List ℕ

abbrev pub new_executor :
    {V : Type 0} → (ℕ → Outcome Text (Network V)) → HostConfig → Outcome HostError (HostExecutor V)
new_executor build config = do
  rpc_client ← map_err rpc_client_creation (new build config.rpc_url default_rpc_timeout_seconds)
  ok (record { rpc_client = rpc_client; network = config.network })

-- `starts_with("0x")`, and the prefix where it is missing.
unfoldable pub with_prefix : List ℕ → List ℕ
with_prefix [] = b'0' ∷ b'x' ∷ []
with_prefix (c ∷ []) = b'0' ∷ b'x' ∷ c ∷ []
with_prefix (c ∷ d ∷ cs) = if c == b'0' && d == b'x' then c ∷ d ∷ cs else b'0' ∷ b'x' ∷ c ∷ d ∷ cs

-- The trace of the root machine, the one with key 0 and 0.
unfoldable pub root_trace : {L S : Type 0} → List (CollectorKey × L × S) → Option S
root_trace [] = none
root_trace ((key, _, syscalls) ∷ rest) =
    let later = root_trace rest in
    if key.vm_id == 0 && key.generation_id == 0 then some syscalls else later

-- A placeholder: the transaction stays as it is.
abbrev pub inject_type_id_if_needed : {H : Type 0} → MockTransaction H → MockTransaction H
inject_type_id_if_needed mock_tx = mock_tx

module _ {H : Type 0} (crates : Crates H) (tracer : Tracer crates) where
  open tracer use {Locator, Syscalls, type_id_code_hash, type_hash_byte, into_bytes, collect}

  unfoldable pub is_type_id_script : Script → Bool
  is_type_id_script script =
      script.code_hash == type_id_code_hash && script.hash_type == type_hash_byte

  unfoldable pub is_type_id_group : ScriptGroup → Bool
  is_type_id_group group = is_type_id_script group.script

  -- A failed collection is a line on stderr, and the process exits with 254.
  abbrev pub collect_vm_syscalls_for_group :
      VerifierGroupContext crates → ScriptGroup → Outcome Stop (CollectorResult Locator Syscalls)
  collect_vm_syscalls_for_group base group =
      map_err (λ e. exit_process 254 (lit "collect_vm_syscalls_for_group: " ∷ e))
        (collect base group)

  abbrev pub trace_data : CollectorResult Locator Syscalls → Bytes
  trace_data result = elim (root_trace result.traces) [ some found ↦ into_bytes found | none ↦ [] ]

  -- The body of the loop, for a group that is not a Type ID group.
  unfoldable pub script_trace :
      VerifierGroupContext crates → VerifierGroupMetadata → Outcome Stop ScriptGroupTraces
  script_trace base (script_group_type, script_hash, group, script_version) = do
    result ← collect_vm_syscalls_for_group base group
    elf ←
        map_err (λ _. returned_error program_elf_not_found)
          (get_program_elf crates base group.script)
    ok (record {
      script_version = script_version;
      script_group_type = script_group_type;
      script_hash = script_hash;
      code_hash = group.script.code_hash;
      machine_trace_data = trace_data result;
      machine_program_elf = elf;
    })

  unfoldable pub accumulate_traces :
      VerifierGroupContext crates
      → List VerifierGroupMetadata
      → Outcome Stop (List ScriptGroupTraces)
  accumulate_traces base [] = ok []
  accumulate_traces base ((t, h, group, v) ∷ groups) =
      let rest = accumulate_traces base groups in
      if is_type_id_group group
      then rest
      else (do trace ← script_trace base (t, h, group, v); traces ← rest; ok (trace ∷ traces))

-- The loop that adds the lengths of the programs to `total_elf_bytes`, and the sum of the traces'
-- lengths, which starts from 0 too. They are sums of `usize`.
abbrev pub total_elf_bytes : ℕ → List Bytes → ℕ
total_elf_bytes total [] = total
total_elf_bytes total (elf ∷ elfs) = total_elf_bytes (add_word total (length elf)) elfs

abbrev pub total_trace_bytes : ℕ → List Guest.ScriptGroupTraces → ℕ
total_trace_bytes total [] = total
total_trace_bytes total (t ∷ ts) =
    total_trace_bytes (add_word total (length t.machine_trace_data)) ts

abbrev pub total_input : Guest.TransactionProofContext → ℕ
total_input g =
    add_word (add_word (length g.raw_transaction_bytes) (total_trace_bytes 0 g.vm_traces))
      (total_elf_bytes 0 g.machine_program_elfs)

-- The warning on the size of the input, and the proof.
pub record Execution (Proof : Type 0) : Type 0 where
  pub exceeds_max_input_size : Bool
  pub proof : Proof

module _ (prover : Prover) where
  open prover use {Program, Proof, prove}

  unfoldable pub execute : Bytes → List ScriptGroupTraces → Program → Outcome Stop (Execution Proof)
  execute raw_tx script_traces program = do
    guest_context ← to_guest (record { transaction = raw_tx; vm_traces = script_traces })
    proof ← unwrap (prove program guest_context)
    ok (record { exceeds_max_input_size = ltb 2000000 (total_input guest_context); proof = proof })

module _ (json : Json) (crates : Crates json.HeaderView) (tracer : Tracer crates) (prover : Prover)
    (out_points_of : Bytes → Outcome Text (List OutPoint)) (is_cellbase : Transaction → Bool)
    (raw_bytes : Transaction → Bytes) where
  -- No execution for a cellbase. The conversion and the verifier's context are unwrapped.
  unfoldable pub run :
      HostExecutor json.Value
      → List ℕ
      → prover.Program
      → Outcome Stop (Option (Execution prover.Proof))
  run host tx_hash program = do
    let (call, next) =
        get_transaction json host.rpc_client.next_id (chars (with_prefix tx_hash) ∷ [])
    transaction ← map_err (λ e. returned_error (transaction_fetch e)) (exec host.rpc_client call)
    if is_cellbase transaction then ok none else (do
      (mock_transaction, _) ← unwrap (
          tx_to_mock_tx json out_points_of is_cellbase (record host.rpc_client { next_id = next })
            transaction)
      (verifier_base, groups) ←
          unwrap {F = Stop} (from_mock_transaction_with_groups crates mock_transaction v2)
      script_traces ← accumulate_traces crates tracer verifier_base groups
      execution ← execute prover (raw_bytes transaction) script_traces program
      ok (some execution))
