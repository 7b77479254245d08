-- ===== src/Host/Cli/WholeExamples.antt =====
-- The command line of a transaction whose script the guest's CKB-VM refuses.
use jolt_ncp.Base.{◌≡◌, ok, sym, refl, Bool, true, false, [], ◌∷◌}
use jolt_ncp.Guest.Exec.{entrypoint, execute, new, machine_version}
use jolt_ncp.Guest.Exec.Replay.{replay}
use jolt_ncp.Guest.Types as Guest
use jolt_ncp.Host.Node.{node_json}
use jolt_ncp.Host.Convert.Examples.{out_points_of, ledger}
use jolt_ncp.Host.Executor.{Execution}
use jolt_ncp.Host.Executor.Traces.{kept}
use jolt_ncp.Host.Executor.RunExamples.{one_group, one_tracer}
use jolt_ncp.Host.Executor.{is_type_id_group, is_type_id_script}
use jolt_ncp.Host.Executor.ReplayedExamples.{refusing, flag_prover, flag_IsGuestProver}
use jolt_ncp.Host.Executor.Replayed.{first_fails}
use jolt_ncp.Host.Executor.RunLog.{run_printed}
use jolt_ncp.Host.Cli.{returns, main}
use jolt_ncp.Host.Cli.Returns.{IsComplete}
use jolt_ncp.Host.Cli.ReturnExamples.{
  given_args, connect, local_host, local_host_created, local-IsComplete, Packed, Packed-unique,
}
use jolt_ncp.Host.Cli.Whole.{EndsWithProof, main-first_fails}

refused_proves : (g : Guest.TransactionProofContext) → Packed g → flag_prover.prove tt g ≡ ok true
unfolding entrypoint execute new machine_version
refused_proves g packed = rw (sym (Packed-unique g packed)) refl

refused-IsComplete :
    IsComplete node_json one_group one_tracer flag_prover out_points_of
      (λ t. false)
      (λ t. 9 ∷ [])
      ledger
      local_host
      (70 ∷ [])
      tt
unfolding local-IsComplete
refused-IsComplete = record {
  serve = local-IsComplete.serve;
  fetch = local-IsComplete.fetch;
  fetch_header = local-IsComplete.fetch_header;
  tx = local-IsComplete.tx;
  base = local-IsComplete.base;
  groups = local-IsComplete.groups;
  collected = local-IsComplete.collected;
  elf = local-IsComplete.elf;
  proof = true;
  node = local-IsComplete.node;
  fetched = local-IsComplete.fetched;
  spending = local-IsComplete.spending;
  room = local-IsComplete.room;
  known = local-IsComplete.known;
  verified = local-IsComplete.verified;
  few = local-IsComplete.few;
  traced = local-IsComplete.traced;
  proves = refused_proves;
}

main-first_fails_example :
    (main node_json one_group one_tracer flag_prover out_points_of
        (λ t. false)
        (λ t. 9 ∷ [])
        connect
        tt
        given_args
      ≡ returns)
    × (execution : Execution Bool) × EndsWithProof
        (run_printed node_json one_group one_tracer flag_prover out_points_of
          (λ t. false)
          (λ t. 9 ∷ [])
          local_host
          (70 ∷ [])
          tt)
        execution
    × (execution.proof ≡ true)
unfolding refused-IsComplete local-IsComplete first_fails replay kept is_type_id_group
    is_type_id_script
main-first_fails_example =
    main-first_fails node_json one_group one_tracer flag_prover out_points_of (λ t. false)
      (λ t. 9 ∷ []) ledger refusing connect tt given_args local_host (70 ∷ []) refused-IsComplete
      flag_IsGuestProver refl local_host_created
