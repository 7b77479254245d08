-- ===== src/Host/Executor/FailureExamples.antt =====
-- A run whose script has no program among the dependencies, and one whose dependency is missing.
use jolt_ncp.Base.{
  ℕ, ◌≡◌, refl, ◌⊎◌, [], ◌∷◌, some, false, arith, Outcome, ok, err, panic, ◌>>=◌, map, insert,
  lookup, traverse,
}
use jolt_ncp.Chain.{OutPoint, Transaction, lock, code}
use jolt_ncp.Host.Text.{Text, lit, dec, chars}
use jolt_ncp.Host.Errors.{
  returned_error, transaction_fetch, program_elf_not_found, cell_resolution_error,
}
use jolt_ncp.Host.Json.{Json, left}
use jolt_ncp.Host.Rpc.{
  Cell, get_transaction, decode_transaction, get_cell_by_out_point, decode_cell_by_out_point,
  get_header, decode_header, output_at,
}
use jolt_ncp.Host.Batch.{exec}
use jolt_ncp.Host.Node.{transaction_at, with_number, node_json, serve}
use jolt_ncp.Host.Convert.{resolved_inputs}
use jolt_ncp.Host.Convert.Layout.{expanded}
use jolt_ncp.Host.Convert.Stages.{IsNode}
use jolt_ncp.Host.Convert.Correct.{tx_to_mock_tx-mock}
use jolt_ncp.Host.Convert.Failures.{FailsAt, cell_missing}
use jolt_ncp.Host.Convert.Examples.{out_points_of, cell_at, ledger, fetch_header}
use jolt_ncp.Host.Crates.{Crates}
use jolt_ncp.Host.Verifier.{
  insert_cell_dep, elf_by_hash, get_program_elf, verifier_consensus, with_version,
  from_mock_transaction_with_groups,
}
use jolt_ncp.Host.Executor.{
  Tracer, with_prefix, root_trace, is_type_id_script, is_type_id_group, script_trace,
  accumulate_traces, run,
}
use jolt_ncp.Host.Executor.Failures.{later, Unprogrammed, Untraceable, run-errors, run-unresolved}
use jolt_ncp.Host.Executor.Missing.{untraced}
use jolt_ncp.Host.Executor.Examples.{crates, script}
use jolt_ncp.Host.Executor.RunExamples.{
  one_group, one_tracer, prover, host, tx, later_client, later-IsNode, tx-IsKnown,
}

-- The verifier finds a group whose script names no dependency's program.
abbrev stray : Crates ℕ
stray = record crates { groups_with_type = λ v. (lock, 31, record { script = script 555 }) ∷ [] }

abbrev stray_tracer : Tracer stray
stray_tracer = record {
  Locator = Unit {0};
  Syscalls = ℕ;
  type_id_code_hash = 7777;
  type_hash_byte = 1;
  into_bytes = λ n. n ∷ [];
  collect = λ base g. ok (record { exit_code = 0; cycles = 100; traces = [] });
}

stray_run :
    run node_json stray stray_tracer prover out_points_of
      (λ t. false)
      (λ t. 9 ∷ [])
      host
      (70 ∷ [])
      tt
    ≡ err (returned_error program_elf_not_found)
unfolding run with_prefix get_transaction decode_transaction exec resolved_inputs expanded insert
    insert_cell_dep elf_by_hash verifier_consensus with_version from_mock_transaction_with_groups
    traverse get_program_elf is_type_id_script is_type_id_group root_trace script_trace
    accumulate_traces lookup
stray_run =
    rw
      (tx_to_mock_tx-mock node_json later_client ledger out_points_of later-IsNode (λ t. false) tx
        (omega arith) tx-IsKnown)
      refl

run-errors_example :
    ((t : Text) × (exec host.rpc_client
          (get_transaction node_json 3 (chars (with_prefix (70 ∷ [])) ∷ [])).0
        ≡ err t)
      × (returned_error program_elf_not_found ≡ returned_error (transaction_fetch t)))
    ⊎ (((returned_error program_elf_not_found ≡ returned_error program_elf_not_found)
          × Unprogrammed node_json stray stray_tracer prover out_points_of
              (λ t. false)
              (λ t. 9 ∷ [])
              host
              (70 ∷ []))
        ⊎ ((t : Text) × (returned_error program_elf_not_found ≡ untraced stray stray_tracer t)
            × Untraceable node_json stray stray_tracer prover out_points_of
                (λ t. false)
                (λ t. 9 ∷ [])
                host
                (70 ∷ [])
                t))
run-errors_example =
    run-errors node_json stray stray_tracer prover out_points_of (λ t. false) (λ t. 9 ∷ []) host
      (70 ∷ []) tt (returned_error program_elf_not_found) stray_run

-- A node whose transactions depend on an output that does not exist.
abbrev lost_at : ℕ → Transaction
lost_at h = record (transaction_at h) {
  cell_deps = record { out_point = record { tx_hash = 80; index = 3 }; dep_type = code } ∷ [];
}

abbrev lost_json : Json
lost_json = record node_json {
  transaction_of = λ v.
      with_number v (λ h. record { transaction = some (left (lost_at h)); block_hash = some h });
}

abbrev lost_fetch : OutPoint → Outcome Text Cell
lost_fetch op =
    (output_at (lost_at op.tx_hash) op.index []) >>= (λ x. ok (x.0, x.1, some op.tx_hash))

lost-IsNode :
    IsNode lost_json
      (later lost_json host (70 ∷ []))
      ledger
      out_points_of
      serve
      lost_fetch
      fetch_header
unfolding get_transaction get_cell_by_out_point decode_cell_by_out_point get_header decode_header
    output_at
lost-IsNode = record {
  server = record { serve_id = λ r. refl; batch = λ reqs. (map serve reqs, refl, λ i. refl) };
  cells = λ n op. refl;
  headers = λ n h. refl;
}

abbrev lost_reason : Text
lost_reason = lit "output index " ∷ dec 3 ∷ lit " out of bounds" ∷ []

dependency_fails : FailsAt lost_fetch (record { tx_hash = 80; index = 3 } ∷ []) lost_reason
unfolding output_at
dependency_fails = record {
  before = [];
  item = record { tx_hash = 80; index = 3 };
  after = [];
  result = cell_at;
  split = refl;
  passes = tt;
  fails = refl;
}

run-unresolved_example :
    run lost_json one_group one_tracer prover out_points_of
      (λ t. false)
      (λ t. 9 ∷ [])
      host
      (70 ∷ [])
      tt
    ≡ panic
unfolding get_transaction decode_transaction exec with_prefix resolved_inputs
run-unresolved_example =
    run-unresolved lost_json one_group one_tracer prover out_points_of (λ t. false) (λ t. 9 ∷ [])
      host (70 ∷ []) tt (lost_at 70) ledger
      (cell_resolution_error (lit "Failed to resolve cells: " ∷ lost_reason)) lost-IsNode refl refl
      (omega arith) (cell_missing lost_reason dependency_fails)
