-- ===== src/Host/Executor/Replayed.antt =====
-- src/lib.rs and guest/src/lib.rs together: what the panic flag of a run's proof, which the host
-- drops, says of the script groups.
use jolt_ncp.Base.{
  ℕ, ◌^◌, ◌≤◌, ◌≡◌, ◌∙◌, refl, ap, Bool, true, false, List, [], ◌∷◌, length, some, Outcome, ok, err,
  panic, Bytes, ltb, arith,
}
use jolt_ncp.Chain.{OutPoint, Transaction}
use jolt_ncp.Guest.Types as Guest
use jolt_ncp.Guest.Exec.{Replayer, entrypoint}
use jolt_ncp.Guest.Exec.Replay.{replay, entrypoint-first}
use jolt_ncp.Host.Types.{ScriptGroupTraces}
use jolt_ncp.Host.Pack.{to_guest}
use jolt_ncp.Host.Pack.Faithful.{AllCarry, to_guest-faithful}
use jolt_ncp.Host.Text.{Text}
use jolt_ncp.Host.Errors.{Stop}
use jolt_ncp.Host.Json.{Json}
use jolt_ncp.Host.Crates.{Crates}
use jolt_ncp.Host.Verifier.{VerifierGroupContext, VerifierGroupMetadata}
use jolt_ncp.Host.Executor.{
  Tracer, Prover, HostExecutor, accumulate_traces, Execution, total_input, execute, run,
}
use jolt_ncp.Host.Executor.Traces.{accumulate_traces-IsConsistent, length-accumulate_traces}
use jolt_ncp.Host.Executor.Run.{Reaches}

abbrev pub failed : {E A : Type 0} → Outcome E A → Bool
failed (ok a) = false
failed (err e) = true
failed panic = true

-- Jolt on the guest's entry point: where an input is proved, `io_device.panic` of the proof says
-- whether the entry point failed on it. Which inputs are proved is left open.
pub record IsGuestProver (prover : Prover) (program : prover.Program) (replayer : Replayer)
    : Type 0 where
  pub panicked : prover.Proof → Bool
  pub flags :
      (g : Guest.TransactionProofContext) (proof : prover.Proof)
      → prover.prove program g ≡ ok proof
      → panicked proof ≡ failed (entrypoint replayer g)

-- Whether there is no trace, or the replay of the first fails.
unfoldable pub first_fails : Replayer → List ScriptGroupTraces → Bool
first_fails replayer [] = true
first_fails replayer (t ∷ ts) =
    failed (replay replayer t.script_version t.machine_trace_data t.machine_program_elf)

entrypoint-first_fails :
    (replayer : Replayer) (raw : Bytes) (ts : List ScriptGroupTraces) (elfs : List Bytes)
    (gs : List Guest.ScriptGroupTraces)
    → AllCarry elfs (λ u. some u.machine_program_elf) ts gs
    → failed (
        entrypoint replayer
          (record { raw_transaction_bytes = raw; vm_traces = gs; machine_program_elfs = elfs }))
      ≡ first_fails replayer ts
unfolding first_fails entrypoint
entrypoint-first_fails replayer raw [] elfs [] carried = refl
entrypoint-first_fails replayer raw [] elfs (g ∷ gs) carried = absurd carried
entrypoint-first_fails replayer raw (t ∷ ts) elfs gs carried =
    ap failed (entrypoint-first replayer elfs t ts raw gs carried)

module _ (json : Json) (crates : Crates json.HeaderView) (tracer : Tracer crates) (prover : Prover)
    (out_points_of : Bytes → Outcome Text (List OutPoint)) (is_cellbase : Transaction → Bool)
    (raw_bytes : Transaction → Bytes) (replayer : Replayer) where
  -- When the node gives the transaction, it is no cellbase, its conversion and its verifier's
  -- context succeed, the loop over at most 65536 script groups collects traces, and Jolt proves
  -- the input that these are packed to, where the flag of a proof says whether the guest's entry
  -- point failed on the input, the run succeeds whatever that flag is, and the flag is set exactly
  -- when there is no trace or the replay of the first trace in its own program fails.
  pub run-first_fails :
      (host : HostExecutor json.Value) (tx_hash : List ℕ) (program : prover.Program)
      (guest : IsGuestProver prover program replayer) (tx : Transaction)
      (base : VerifierGroupContext crates) (groups : List VerifierGroupMetadata)
      (traces : List ScriptGroupTraces) (proof : prover.Proof)
      → ((g : Guest.TransactionProofContext)
          → to_guest {E = Stop} (record { transaction = raw_bytes tx; vm_traces = traces }) ≡ ok g
          → prover.prove program g ≡ ok proof)
      → Reaches json crates tracer prover out_points_of is_cellbase raw_bytes host tx_hash tx base
          groups
      → accumulate_traces crates tracer base groups ≡ ok traces
      → length groups ≤ 2 ^ 16
      → (execution : Execution prover.Proof) × (run json crates tracer prover out_points_of
            is_cellbase raw_bytes host tx_hash program
          ≡ ok (some execution))
        × (guest.panicked execution.proof ≡ first_fails replayer traces)
  unfolding run execute
  run-first_fails host tx_hash program guest tx base groups traces proof proves stages traced room =
      let few : length traces ≤ length groups =
        rw traced at (length-accumulate_traces crates tracer base groups) in
      let (g, packed, kept_tx, carried) =
        to_guest-faithful {E = Stop} (record { transaction = raw_bytes tx; vm_traces = traces })
          (omega (arith, few))
          (accumulate_traces-IsConsistent crates tracer base groups traces traced) in
      (
        record { exceeds_max_input_size = ltb 2000000 (total_input g); proof = proof },
        rw
            (
              stages.fetched,
              stages.spending,
              stages.converted,
              stages.verified,
              traced,
              packed,
              proves g packed,
            )
            refl,
        guest.flags g proof (proves g packed)
            ∙ entrypoint-first_fails replayer g.raw_transaction_bytes traces g.machine_program_elfs
                g.vm_traces carried,
      )
