-- ===== src/Host/Executor/LogExamples.antt =====
-- The lines of a run of the host, and of the loop over three script groups of which one is built in.
use jolt_ncp.Base.{
  ◌%◌, ◌^◌, ◌≡◌, refl, [], ◌∷◌, ◌++◌, map, flat_map, ok, ◌>>=◌, unwrap, ltb, arith, false,
}
use jolt_ncp.Host.Executor.Examples.{
  crates, tracer, base, groups, collected, program_of, groups-Traced,
}
use jolt_ncp.Host.Node.{node_json}
use jolt_ncp.Host.Convert.Examples.{out_points_of}
use jolt_ncp.Host.Executor.RunExamples.{one_group, one_tracer, prover, host, traces}
use jolt_ncp.Guest.Types as Guest
use jolt_ncp.Host.Pack.{to_guest}
use jolt_ncp.Host.Errors.{Stop}
use jolt_ncp.Host.Executor.{execute}
use jolt_ncp.Host.Executor.Sizes.{input_bytes, execute-input_bytes}
use jolt_ncp.Host.Executor.RunLog.{run_printed}
use jolt_ncp.Host.Executor.ProofLine.{ProofLast, is_proved, run_printed-ProofLast}
use jolt_ncp.Host.Executor.Traces.{kept, trace_of}
use jolt_ncp.Host.Executor.Log.{accumulate_printed}
use jolt_ncp.Host.Executor.Logged.{summaries, group_lines, accumulate_printed-kept}

accumulate_printed-kept_example : accumulate_printed crates tracer base groups ≡ (
  flat_map (group_lines crates tracer base collected program_of) groups
      ++ summaries collected 0 (kept crates tracer base groups),
  ok (map (trace_of crates tracer base collected program_of) (kept crates tracer base groups)),
)
accumulate_printed-kept_example =
    accumulate_printed-kept crates tracer base collected program_of groups groups-Traced

run_printed-ProofLast_example : ProofLast is_proved (
    run_printed node_json one_group one_tracer prover out_points_of
      (λ t. false)
      (λ t. 9 ∷ [])
      host
      (70 ∷ [])
      tt)
run_printed-ProofLast_example =
    run_printed-ProofLast node_json one_group one_tracer prover out_points_of (λ t. false)
      (λ t. 9 ∷ []) host (70 ∷ []) tt

execute-input_bytes_example :
    (g : Guest.TransactionProofContext) × (to_guest {E = Stop}
        (record { transaction = 9 ∷ []; vm_traces = traces })
      ≡ ok g)
    × (execute prover (9 ∷ []) traces tt ≡ (do
      proof ← unwrap (prover.prove tt g)
      ok (record {
        exceeds_max_input_size = ltb 2000000 (input_bytes (9 ∷ []) traces % 2 ^ 64);
        proof = proof;
      })))
execute-input_bytes_example =
    execute-input_bytes prover (9 ∷ []) traces tt (omega arith) (((λ e. refl), tt), tt)
