-- ===== src/Host/Executor/RunLog.antt =====
-- src/lib.rs: the whole run with what it prints.
use jolt_ncp.Base.{
  ℕ, ◌≡◌, refl, Bool, List, [], ◌∷◌, Option, none, some, Outcome, ok, map_err, unwrap, Bytes,
  if◌then◌else◌,
}
use jolt_ncp.Chain.{OutPoint, Transaction, v2}
use jolt_ncp.Host.Text.{Text, chars, msg}
use jolt_ncp.Host.Errors.{Stop, returned_error, transaction_fetch}
use jolt_ncp.Host.Printed.{Printed, println, quiet, ◌>>=◌, result-bind, result-if}
use jolt_ncp.Host.Json.{Json}
use jolt_ncp.Host.Rpc.{get_transaction}
use jolt_ncp.Host.Batch.{exec}
use jolt_ncp.Host.Convert.Log.{tx_to_mock_tx_printed, tx_to_mock_tx_printed-tx_to_mock_tx}
use jolt_ncp.Host.Crates.{Crates}
use jolt_ncp.Host.Verifier.{from_mock_transaction_with_groups}
use jolt_ncp.Host.Executor.{Tracer, Prover, HostExecutor, with_prefix, Execution, run}
use jolt_ncp.Host.Executor.Log.{accumulate_printed}
use jolt_ncp.Host.Executor.Logged.{accumulate_printed-accumulate_traces}
use jolt_ncp.Host.Executor.Report.{execute_printed, execute_printed-execute}

-- `unwrap` behind a call that prints.
abbrev pub unwrap_printed : {E F A : Type 0} → Printed E A → Printed F A
unwrap_printed (out, m) = (out, unwrap m)

abbrev pub cellbase_lines : List Text
cellbase_lines =
    msg "Transaction is a cellbase (miner reward) - no scripts to verify"
    ∷ msg "Cellbase transactions are validated by block-level rules, not script execution."
    ∷ []

module _ (json : Json) (crates : Crates json.HeaderView) (tracer : Tracer crates) (prover : Prover)
    (out_points_of : Bytes → Outcome Text (List OutPoint)) (is_cellbase : Transaction → Bool)
    (raw_bytes : Transaction → Bytes) where
  unfoldable pub run_printed :
      HostExecutor json.Value
      → List ℕ
      → prover.Program
      → Printed Stop (Option (Execution prover.Proof))
  run_printed host tx_hash program = do
    let (call, next) =
        get_transaction json host.rpc_client.next_id (chars (with_prefix tx_hash) ∷ [])
    transaction ←
        quiet (map_err (λ e. returned_error (transaction_fetch e)) (exec host.rpc_client call))
    if is_cellbase transaction then (do _ ← println cellbase_lines; quiet (ok none)) else (do
      (mock_transaction, _) ← unwrap_printed (
          tx_to_mock_tx_printed json out_points_of is_cellbase
            (record host.rpc_client { next_id = next }) transaction)
      (verifier_base, groups) ←
          quiet (unwrap {F = Stop} (from_mock_transaction_with_groups crates mock_transaction v2))
      script_traces ← accumulate_printed crates tracer verifier_base groups
      execution ← execute_printed prover (raw_bytes transaction) script_traces program
      quiet (ok (some execution)))

  -- Printing changes nothing: the result is that of the run, errors and panics included.
  pub run_printed-run :
      (host : HostExecutor json.Value) (tx_hash : List ℕ) (program : prover.Program)
      → (run_printed host tx_hash program).1
        ≡ run json crates tracer prover out_points_of is_cellbase raw_bytes host tx_hash program
  unfolding run_printed run
  run_printed-run host tx_hash program =
      simp
        (
          result-bind, result-if, tx_to_mock_tx_printed-tx_to_mock_tx,
          accumulate_printed-accumulate_traces, execute_printed-execute,
        )
        refl
