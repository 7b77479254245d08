-- ===== src/Host/Cli/Whole.antt =====
-- The whole program from the arguments to the guest's replay: its end, its lines and the panic flag of
-- its proof, where nothing is missing.
use jolt_ncp.Base.{
  ℕ, ◌≡◌, ◌∙◌, ap, sym, inl, inr, Bool, true, false, List, [], ◌∷◌, ◌++◌, map, Option, some,
  Outcome, ok, Bytes,
}
use jolt_ncp.Chain.{OutPoint, Transaction}
use jolt_ncp.Guest.Exec.{Replayer}
use jolt_ncp.Host.Text.{Text, msg}
use jolt_ncp.Host.Printed.{Printed}
use jolt_ncp.Host.Errors.{Stop}
use jolt_ncp.Host.Json.{Json}
use jolt_ncp.Host.Batch.{Network}
use jolt_ncp.Host.Crates.{Crates}
use jolt_ncp.Host.Convert.Ledger.{Ledger}
use jolt_ncp.Host.Executor.{Tracer, Prover, HostExecutor, Execution, new_executor}
use jolt_ncp.Host.Executor.Traces.{kept, trace_of, accumulate_traces-kept}
use jolt_ncp.Host.Executor.Replayed.{IsGuestProver, first_fails, run-first_fails}
use jolt_ncp.Host.Executor.Report.{proof_generated}
use jolt_ncp.Host.Executor.RunLog.{run_printed, run_printed-run}
use jolt_ncp.Host.Executor.NoProof.{NoProof}
use jolt_ncp.Host.Executor.ProofLine.{ProofLast, is_proved, run_printed-ProofLast}
use jolt_ncp.Host.Cli.{HostArgs, returns, as_config, main}
use jolt_ncp.Host.Cli.Returns.{IsComplete, complete-Reaches, main-returns}

-- The lines of a run end with the two on the proof.
pub record EndsWithProof {A : Type 0} (p : Printed Stop (Option A)) (a : A) : Type 0 where
  pub earlier : List Text
  pub lines : p ≡ (earlier ++ proof_generated ∷ msg "Output: ()" ∷ [], ok (some a))
  pub no_earlier : NoProof earlier

ProofLast-EndsWithProof :
    {A : Type 0} (p : Printed Stop (Option A)) (a : A)
    → ProofLast is_proved p
    → p.1 ≡ ok (some a)
    → EndsWithProof p a
ProofLast-EndsWithProof p a (inl (b, earlier, accepted, same, none_earlier)) proved =
    let result = sym (ap (λ q. q.1) same) ∙ proved in
    record {
      earlier = earlier;
      lines = same ∙ ap (λ r. (earlier ++ proof_generated ∷ msg "Output: ()" ∷ [], r)) result;
      no_earlier = none_earlier;
    }
ProofLast-EndsWithProof p a (inr (no_line, no_result)) proved =
    let impossible : true ≡ false = no_result (some a) proved in absurd cc

module _ (json : Json) (crates : Crates json.HeaderView) (tracer : Tracer crates) (prover : Prover)
    (out_points_of : Bytes → Outcome Text (List OutPoint)) (is_cellbase : Transaction → Bool)
    (raw_bytes : Transaction → Bytes) (ledger : Ledger json.HeaderView) (replayer : Replayer) where
  -- With a transaction's hash among the arguments and a client that is created, where the node
  -- answers each request by itself and gives the transaction, which is no cellbase, and every cell
  -- and header that it needs, every group's data parses, the counter has room for the calls, the
  -- verifier's context of that mock transaction succeeds with at most 65536 script groups, the
  -- tracer succeeds on every group but those of the built-in Type ID script, the programs of these
  -- are in the table, and Jolt proves the input that the traces are packed to, where the flag of a
  -- proof says whether the guest's entry point failed on the input: the program returns, whatever
  -- that flag is; the lines of its run end with `Proof generated!` and the guest's output, with no
  -- such line before; and the flag of the run's proof is set exactly when all groups are of the
  -- built-in script or the replay of the first other group's trace, in the program that the table
  -- has for it, fails.
  pub main-first_fails :
      (build : ℕ → Outcome Text (Network json.Value)) (program : prover.Program) (args : HostArgs)
      (host : HostExecutor json.Value) (tx_hash : List ℕ)
      (complete : IsComplete json crates tracer prover out_points_of is_cellbase raw_bytes ledger
        host tx_hash program)
      (guest : IsGuestProver prover program replayer)
      → args.tx_hash ≡ some tx_hash
      → new_executor build (as_config args) ≡ ok host
      → (main json crates tracer prover out_points_of is_cellbase raw_bytes build program args
          ≡ returns)
        × (execution : Execution prover.Proof) × EndsWithProof
            (run_printed json crates tracer prover out_points_of is_cellbase raw_bytes host tx_hash
              program)
            execution
        × (guest.panicked execution.proof
            ≡ first_fails replayer (
                map
                  (trace_of crates tracer complete.base complete.collected complete.elf)
                  (kept crates tracer complete.base complete.groups)))
  main-first_fails build program args host tx_hash complete guest given created =
      let (execution, ran, flag) =
        run-first_fails json crates tracer prover out_points_of is_cellbase raw_bytes replayer host
          tx_hash program guest complete.tx complete.base complete.groups
          (map (trace_of crates tracer complete.base complete.collected complete.elf)
            (kept crates tracer complete.base complete.groups))
          complete.proof complete.proves
          (complete-Reaches json crates tracer prover out_points_of is_cellbase raw_bytes ledger
            host tx_hash program complete)
          (accumulate_traces-kept crates tracer complete.base complete.collected complete.elf
            complete.groups complete.traced)
          complete.few in
      (
        main-returns json crates tracer prover out_points_of is_cellbase raw_bytes ledger build
            program args host tx_hash given created complete,
        execution,
        ProofLast-EndsWithProof _ execution
            (run_printed-ProofLast json crates tracer prover out_points_of is_cellbase raw_bytes
              host tx_hash program)
            (run_printed-run json crates tracer prover out_points_of is_cellbase raw_bytes host
                tx_hash program
              ∙ ran),
        flag,
      )
