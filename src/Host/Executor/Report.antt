-- ===== src/Host/Executor/Report.antt =====
-- src/lib.rs: what `execute` prints, from the sizes of the input to the end of the proof.
use jolt_ncp.Base.{
  ◌≡◌, refl, ℕ, suc, ◌*◌, List, [], ◌∷◌, ◌++◌, length, ltb, ok, unwrap, Bytes, if◌then◌else◌,
}
use jolt_ncp.Guest.Types as Guest
use jolt_ncp.Host.Types.{ScriptGroupTraces}
use jolt_ncp.Host.Pack.{to_guest}
use jolt_ncp.Host.Text.{Text, lit, dec, fixed, msg}
use jolt_ncp.Host.Errors.{Stop}
use jolt_ncp.Host.Printed.{Printed, println, quiet, ◌>>=◌, result-bind}
use jolt_ncp.Host.Executor.{Prover, execute, Execution, total_input}

-- `{:?}` of bytes: the numbers between brackets.
pub debug_rest : Bytes → Text
debug_rest [] = lit "]" ∷ []
debug_rest (b ∷ bs) = lit ", " ∷ dec b ∷ debug_rest bs

pub debug_bytes : Bytes → Text
debug_bytes [] = lit "[]" ∷ []
debug_bytes (b ∷ bs) = lit "[" ∷ dec b ∷ debug_rest bs

-- " bytes (… KB", which each size has; the rest of the line follows.
unfoldable pub size_text : ℕ → Text → Text
size_text n rest = dec n ∷ lit " bytes (" ∷ fixed 2 n 1024 ∷ lit " KB" ∷ rest

unfoldable pub trace_size_lines : ℕ → List Guest.ScriptGroupTraces → List Text
trace_size_lines i [] = []
trace_size_lines i (trace ∷ traces) =
    (lit "    trace["
      ∷ dec i
      ∷ lit "]: trace_data="
      ∷ size_text (length trace.machine_trace_data)
          (lit "), elf_index=" ∷ dec trace.machine_program_elf_index ∷ []))
    ∷ trace_size_lines (suc i) traces

unfoldable pub elf_size_lines : ℕ → List Bytes → List Text
elf_size_lines i [] = []
elf_size_lines i (elf ∷ elfs) =
    (lit "    elf[" ∷ dec i ∷ lit "]: " ∷ size_text (length elf) (lit ")" ∷ []))
    ∷ elf_size_lines (suc i) elfs

unfoldable pub size_report : Guest.TransactionProofContext → List Text
size_report g =
    []
    ∷ msg "=== INPUT SIZE ANALYSIS ==="
    ∷ (lit "  raw_transaction_bytes: " ∷ size_text (length g.raw_transaction_bytes) (lit ")" ∷ []))
    ∷ (lit "  script groups (vm_traces): " ∷ dec (length g.vm_traces) ∷ [])
    ∷ (trace_size_lines 0 g.vm_traces
        ++ (lit "  unique ELF binaries: " ∷ dec (length g.machine_program_elfs) ∷ [])
          ∷ (elf_size_lines 0 g.machine_program_elfs
              ++ (lit "  TOTAL (approx): "
                  ∷ size_text (total_input g)
                      (lit " / " ∷ fixed 2 (total_input g) (1024 * 1024) ∷ lit " MB)" ∷ []))
                ∷ (lit "  max_input_size configured: 2,000,000 bytes ("
                    ∷ fixed 2 2000000 (1024 * 1024)
                    ∷ lit " MB)"
                    ∷ [])
                ∷ ((if ltb 2000000 (total_input g)
                      then msg "  ⚠ INPUT EXCEEDS max_input_size! Jolt will panic." ∷ []
                      else [])
                    ++ msg "===========================" ∷ [] ∷ [])))

abbrev pub proof_generated : Text
proof_generated = msg "Proof generated!"

module _ (prover : Prover) where
  open prover use {Program, Proof, prove}

  -- The guest's output is `()`.
  unfoldable pub execute_printed :
      Bytes → List ScriptGroupTraces → Program → Printed Stop (Execution Proof)
  execute_printed raw_tx script_traces program = do
    _ ← println ((lit "Raw encoded tx: " ∷ debug_bytes raw_tx) ∷ [])
    guest_context ← quiet (to_guest (record { transaction = raw_tx; vm_traces = script_traces }))
    _ ← println (size_report guest_context)
    _ ← println (msg "Starting proof generation..." ∷ [])
    proof ← quiet (unwrap (prove program guest_context))
    _ ← println (proof_generated ∷ msg "Output: ()" ∷ [])
    quiet (
        ok (record {
          exceeds_max_input_size = ltb 2000000 (total_input guest_context);
          proof = proof;
        }))

  -- Printing changes nothing.
  pub execute_printed-execute :
      (raw_tx : Bytes) (script_traces : List ScriptGroupTraces) (program : Program)
      → (execute_printed raw_tx script_traces program).1
        ≡ execute prover raw_tx script_traces program
  unfolding execute_printed execute
  execute_printed-execute raw_tx script_traces program = simp result-bind refl
