-- ===== src/Host/Cli/ReturnExamples.antt =====
-- A command line whose transaction is replayed to the end.
use jolt_ncp.Base.{
  ℕ, ◌≡◌, refl, sym, [], ◌∷◌, map, some, false, arith, Outcome, ok, insert, lookup, traverse,
  range_from,
}
use jolt_ncp.Host.Text.{Text, codes}
use jolt_ncp.Host.Batch.{Network, exec, new, trim_slashes}
use jolt_ncp.Host.Rpc.{
  get_transaction, decode_transaction, get_cell_by_out_point, decode_cell_by_out_point, get_header,
  decode_header, output_at,
}
use jolt_ncp.Host.Node.{Value, node_json, serve, network}
use jolt_ncp.Host.Convert.{resolved_inputs, sub_out_point, group_out_points}
use jolt_ncp.Host.Convert.Layout.{expanded}
use jolt_ncp.Host.Convert.Stages.{IsNode, IsKnown}
use jolt_ncp.Host.Convert.Examples.{fetch, out_points_of, ledger, fetch_header}
use jolt_ncp.Host.Verifier.{
  VerifierGroupMetadata, insert_cell_dep, elf_by_hash, get_program_elf, verifier_consensus,
  with_version, from_mock_transaction_with_groups,
}
use jolt_ncp.Guest.Types as Guest
use jolt_ncp.Host.Errors.{Stop}
use jolt_ncp.Host.Pack.{to_guest}
use jolt_ncp.Host.Executor.{
  root_trace, CollectorResult, HostExecutor, new_executor, with_prefix, is_type_id_script,
  is_type_id_group,
}
use jolt_ncp.Host.Executor.Traces.{kept, trace_of}
use jolt_ncp.Host.Executor.Failures.{later}
use jolt_ncp.Host.Executor.RunExamples.{one_group, one_tracer, prover, tx, base, groups}
use jolt_ncp.Host.Cli.{HostArgs, returns, as_config, effective_rpc_url, main}
use jolt_ncp.Host.Cli.Returns.{IsComplete, main-returns}

abbrev pub given_args : HostArgs
given_args = record {
  tx_hash = some (70 ∷ []);
  network = codes "mainnet";
  rpc_url = some (codes "http://localhost:8114/");
}

abbrev pub connect : ℕ → Outcome Text (Network Value)
connect timeout = ok network

abbrev pub local_host : HostExecutor Value
local_host = record {
  rpc_client = record { client = network; rpc_url = codes "http://localhost:8114/"; next_id = 0 };
  network = codes "mainnet";
}

pub local_host_created : new_executor connect (as_config given_args) ≡ ok local_host
unfolding new trim_slashes effective_rpc_url
local_host_created = refl

pub local-IsNode :
    IsNode node_json
      (later node_json local_host (70 ∷ []))
      ledger
      out_points_of
      serve
      fetch
      fetch_header
unfolding get_transaction get_cell_by_out_point decode_cell_by_out_point get_header decode_header
    output_at
local-IsNode = record {
  server = record { serve_id = λ r. refl; batch = λ reqs. (map serve reqs, refl, λ i. refl) };
  cells = λ n op. refl;
  headers = λ n h. refl;
}

pub local-IsKnown :
    IsKnown node_json
      (later node_json local_host (70 ∷ []))
      ledger
      out_points_of
      fetch
      fetch_header
      []
      tx
unfolding output_at sub_out_point group_out_points range_from traverse
local-IsKnown = record {
  inputs_known = tt;
  deps_known = (refl, tt);
  groups_known = (refl, tt);
  members_known = tt;
  headers_known = tt;
}

abbrev pub collected : VerifierGroupMetadata → CollectorResult (Unit {0}) ℕ
collected m = record {
  exit_code = 0;
  cycles = 100;
  traces = (record { vm_id = 0; generation_id = 0 }, tt, m.2.script.code_hash) ∷ [];
}

abbrev pub packed_context : Guest.TransactionProofContext
packed_context = record {
  raw_transaction_bytes = 9 ∷ [];
  vm_traces =
      record {
        script_version = 1;
        script_group_type = 0;
        script_hash = 31;
        machine_trace_data = 1081 ∷ [];
        machine_program_elf_index = 0;
      }
      ∷ [];
  machine_program_elfs = (81 ∷ []) ∷ [];
}

-- The input that the run's trace is packed to.
abbrev pub Packed : Guest.TransactionProofContext → Type 0
Packed g =
    to_guest {E = Stop} (record {
      transaction = 9 ∷ [];
      vm_traces =
          map (trace_of one_group one_tracer base collected (λ m. 81 ∷ []))
            (kept one_group one_tracer base groups);
    })
    ≡ ok g

packed_context-Packed : Packed packed_context
unfolding to_guest traverse kept is_type_id_group is_type_id_script root_trace lookup
packed_context-Packed = refl

pub Packed-unique : (g : Guest.TransactionProofContext) → Packed g → packed_context ≡ g
Packed-unique g packed = cc (packed, packed_context-Packed)

pub local_proves : (g : Guest.TransactionProofContext) → Packed g → prover.prove tt g ≡ ok 3
local_proves g packed = rw (sym (Packed-unique g packed)) refl

unfoldable pub local-IsComplete :
    IsComplete node_json one_group one_tracer prover out_points_of
      (λ t. false)
      (λ t. 9 ∷ [])
      ledger
      local_host
      (70 ∷ [])
      tt
unfolding get_transaction decode_transaction exec with_prefix resolved_inputs expanded insert lookup
    insert_cell_dep elf_by_hash verifier_consensus with_version from_mock_transaction_with_groups
    traverse get_program_elf is_type_id_script is_type_id_group kept
local-IsComplete = record {
  serve = serve;
  fetch = fetch;
  fetch_header = fetch_header;
  tx = tx;
  base = base;
  groups = groups;
  collected = collected;
  elf = λ m. 81 ∷ [];
  proof = 3;
  node = local-IsNode;
  fetched = refl;
  spending = refl;
  room = omega arith;
  known = local-IsKnown;
  verified = refl;
  few = omega arith;
  traced = ((refl, refl), tt);
  proves = local_proves;
}

main-returns_example :
    main node_json one_group one_tracer prover out_points_of
      (λ t. false)
      (λ t. 9 ∷ [])
      connect
      tt
      given_args
    ≡ returns
main-returns_example =
    main-returns node_json one_group one_tracer prover out_points_of (λ t. false) (λ t. 9 ∷ [])
      ledger connect tt given_args local_host (70 ∷ []) refl local_host_created local-IsComplete
