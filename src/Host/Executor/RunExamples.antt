-- ===== src/Host/Executor/RunExamples.antt =====
-- A whole run against the concrete node: one script whose program is in a dependency.
use jolt_ncp.Base.{
  ℕ, ◌≡◌, refl, List, [], ◌∷◌, ok, traverse, range_from, lookup, insert, map, false, arith,
}
use jolt_ncp.Chain.{Transaction, lock, v1, code}
use jolt_ncp.Host.Types.{ScriptGroupTraces}
use jolt_ncp.Host.Rpc.{
  get_transaction, decode_transaction, get_cell_by_out_point, decode_cell_by_out_point, get_header,
  decode_header, output_at,
}
use jolt_ncp.Host.Batch.{RpcClient, exec}
use jolt_ncp.Host.Node.{Value, transaction_at, node_json, serve, node_client}
use jolt_ncp.Host.Convert.{mock_cell_dep, resolved_inputs, sub_out_point, group_out_points}
use jolt_ncp.Host.Convert.Layout.{expanded}
use jolt_ncp.Host.Convert.Stages.{IsNode, IsKnown}
use jolt_ncp.Host.Convert.Correct.{tx_to_mock_tx-mock}
use jolt_ncp.Host.Convert.Examples.{fetch, out_points_of, cell_at, ledger, fetch_header}
use jolt_ncp.Host.Crates.{Crates}
use jolt_ncp.Host.Verifier.{
  VerifierGroupContext, VerifierGroupMetadata, insert_cell_dep, elf_by_hash, get_program_elf,
  verifier_consensus, with_version, from_mock_transaction_with_groups,
}
use jolt_ncp.Host.Executor.{
  Tracer, Prover, HostExecutor, with_prefix, root_trace, is_type_id_script, is_type_id_group,
  script_trace, accumulate_traces, total_input,
}
use jolt_ncp.Host.Executor.Run.{Reaches}
use jolt_ncp.Host.Executor.Examples.{crates, script}

-- The verifier of this run finds one script group.
abbrev pub one_group : Crates ℕ
one_group = record crates {
  groups_with_type = λ v. (lock, 31, record { script = script 1081 }) ∷ [];
}

abbrev pub one_tracer : Tracer one_group
one_tracer = record {
  Locator = Unit {0};
  Syscalls = ℕ;
  type_id_code_hash = 7777;
  type_hash_byte = 1;
  into_bytes = λ n. n ∷ [];
  collect = λ base g. ok (record {
    exit_code = 0;
    cycles = 100;
    traces = (record { vm_id = 0; generation_id = 0 }, tt, g.script.code_hash) ∷ [];
  });
}

-- A prover whose proof is the size of its input.
abbrev pub prover : Prover
prover = record { Program = Unit {0}; Proof = ℕ; prove = λ p g. ok (total_input g) }

abbrev pub host : HostExecutor Value
host = record { rpc_client = node_client; network = [] }

abbrev pub tx : Transaction
tx = transaction_at 70

abbrev pub later_client : RpcClient Value
later_client = record node_client { next_id = 4 }

pub later-IsNode : IsNode node_json later_client ledger out_points_of serve fetch fetch_header
unfolding get_cell_by_out_point decode_cell_by_out_point get_header decode_header output_at
later-IsNode = record {
  server = record { serve_id = λ r. refl; batch = λ reqs. (map serve reqs, refl, λ i. refl) };
  cells = λ n op. refl;
  headers = λ n h. refl;
}

pub tx-IsKnown : IsKnown node_json later_client ledger out_points_of fetch fetch_header [] tx
unfolding output_at sub_out_point group_out_points range_from traverse
tx-IsKnown = record {
  inputs_known = tt;
  deps_known = (refl, tt);
  groups_known = (refl, tt);
  members_known = tt;
  headers_known = tt;
}

abbrev pub base : VerifierGroupContext one_group
base = record {
  group_resolve_transaction = tt;
  group_resource = tt;
  group_consensus = (20, 30);
  group_tx_env = (35, 0, 1);
  cell_dep_data_hash_to_elf = (1081, 81 ∷ []) ∷ [];
}

abbrev pub groups : List VerifierGroupMetadata
groups = (lock, 31, record { script = script 1081 }, v1) ∷ []

abbrev pub traces : List ScriptGroupTraces
traces =
    record {
      script_version = v1;
      script_group_type = lock;
      script_hash = 31;
      code_hash = 1081;
      machine_trace_data = 1081 ∷ [];
      machine_program_elf = 81 ∷ [];
    }
    ∷ []

stages :
    Reaches node_json one_group one_tracer prover out_points_of
      (λ t. false)
      (λ t. 9 ∷ [])
      host
      (70 ∷ [])
      tx
      base
      groups
unfolding with_prefix get_transaction decode_transaction exec resolved_inputs expanded insert
    insert_cell_dep elf_by_hash verifier_consensus with_version from_mock_transaction_with_groups
    traverse get_program_elf is_type_id_script is_type_id_group root_trace script_trace
    accumulate_traces lookup
stages = record {
  mock = record {
    inputs = [];
    cell_deps =
        mock_cell_dep (record { out_point = record { tx_hash = 80; index = 0 }; dep_type = code })
          (cell_at (record { tx_hash = 80; index = 0 }))
        ∷ [];
    header_deps = [];
    tx = tx;
  };
  last_id = 5;
  fetched = refl;
  spending = refl;
  converted =
      tx_to_mock_tx-mock node_json later_client ledger out_points_of later-IsNode (λ t. false) tx
        (omega arith) tx-IsKnown;
  verified = refl;
}

traced : accumulate_traces one_group one_tracer base groups ≡ ok traces
unfolding insert lookup get_program_elf is_type_id_script is_type_id_group root_trace script_trace
    accumulate_traces
traced = refl
