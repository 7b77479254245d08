-- ===== src/Host/Executor/Sizes.antt =====
-- src/lib.rs: the size that `execute` finds, in terms of the collected traces.
use jolt_ncp.Base.{
  ◌+◌, ◌%◌, ◌^◌, ℕ, ◌≤◌, ◌<◌, ◌∙◌, word, ◌≡◌, refl, ap, List, [], ◌∷◌, length, some, ltb, Bytes,
  arith, ok, ◌>>=◌, unwrap,
}
use jolt_ncp.Guest.Types as Guest
use jolt_ncp.Host.Types.{ScriptGroupTraces, TransactionProofContext}
use jolt_ncp.Host.Pack.{to_guest}
use jolt_ncp.Host.Pack.Faithful.{AllCarry, IsConsistent, to_guest-faithful}
use jolt_ncp.Host.Pack.Programs.{distinct_elfs, elfs-to_guest}
use jolt_ncp.Host.Errors.{Stop}
use jolt_ncp.Host.Executor.{Prover, total_input, total_elf_bytes, total_trace_bytes, execute}

-- The bytes of the collected traces.
abbrev pub trace_bytes : List ScriptGroupTraces → ℕ
trace_bytes [] = 0
trace_bytes (t ∷ ts) = length t.machine_trace_data + trace_bytes ts

-- The bytes of programs.
abbrev pub elf_bytes : List Bytes → ℕ
elf_bytes [] = 0
elf_bytes (elf ∷ elfs) = length elf + elf_bytes elfs

-- The size of the input, with each program once.
abbrev pub input_bytes : Bytes → List ScriptGroupTraces → ℕ
input_bytes raw ts = length raw + trace_bytes ts + elf_bytes (distinct_elfs [] ts)

total_elf_bytes-elf_bytes :
    (total : ℕ) (elfs : List Bytes)
    → total < word
    → total_elf_bytes total elfs ≡ (total + elf_bytes elfs) % word
total_elf_bytes-elf_bytes total [] fits = omega (arith, fits)
total_elf_bytes-elf_bytes total (elf ∷ elfs) fits =
    total_elf_bytes-elf_bytes ((total + length elf) % word) elfs (omega arith) ∙ omega arith

trace_bytes-carried :
    (elfs : List Bytes) (ts : List ScriptGroupTraces) (gs : List Guest.ScriptGroupTraces)
    → AllCarry elfs (λ t. some t.machine_program_elf) ts gs
    → (total : ℕ) → total < word
    → total_trace_bytes total gs ≡ (total + trace_bytes ts) % word
trace_bytes-carried elfs [] [] carried total fits = omega (arith, fits)
trace_bytes-carried elfs [] (g ∷ gs) carried total fits = absurd carried
trace_bytes-carried elfs (t ∷ ts) [] carried total fits = absurd carried
trace_bytes-carried elfs (t ∷ ts) (g ∷ gs) carried total fits =
    trace_bytes-carried elfs ts gs carried.1 ((total + length g.machine_trace_data) % word)
      (omega arith)
    ∙ omega (arith, ap length carried.0.trace_bytes)

module _ (prover : Prover) where
  -- For at most 65536 traces in which one code hash has one program, packing for the guest
  -- succeeds, and `execute` is the call of the prover on what is packed, with the warning exactly
  -- when the transaction's raw bytes, the bytes of all traces and the program of each code hash,
  -- counted once, are together more than 2000000 bytes; that sum is taken modulo 2^64.
  pub execute-input_bytes :
      (raw : Bytes) (ts : List ScriptGroupTraces) (program : prover.Program)
      → length ts ≤ 2 ^ 16
      → IsConsistent ts
      → (g : Guest.TransactionProofContext) × (to_guest {E = Stop}
            (record { transaction = raw; vm_traces = ts })
          ≡ ok g)
        × (execute prover raw ts program ≡ (do
          proof ← unwrap (prover.prove program g)
          ok (record {
            exceeds_max_input_size = ltb 2000000 (input_bytes raw ts % 2 ^ 64);
            proof = proof;
          })))
  unfolding execute
  execute-input_bytes raw ts program room same =
      let ctx : TransactionProofContext = record { transaction = raw; vm_traces = ts } in
      let (g, packed, kept_tx, carried) = to_guest-faithful {E = Stop} ctx room same in
      let elfs : elf_bytes g.machine_program_elfs ≡ elf_bytes (distinct_elfs [] ts) =
        ap elf_bytes (elfs-to_guest {E = Stop} ctx g packed) in
      let size : total_input g ≡ input_bytes raw ts % word = omega (
        arith,
        ap length kept_tx,
        trace_bytes-carried g.machine_program_elfs ts g.vm_traces carried 0 (omega arith),
        total_elf_bytes-elf_bytes 0 g.machine_program_elfs (omega arith),
        elfs,
      ) in
      (g, packed, rw (packed, size) refl)
