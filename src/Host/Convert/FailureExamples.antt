-- ===== src/Host/Convert/FailureExamples.antt =====
-- A transaction whose second input names an output that the node's transaction does not have.
use jolt_ncp.Base.{ℕ, ◌≡◌, refl, [], ◌∷◌, map, arith, err, false}
use jolt_ncp.Chain.{CellInput, Transaction}
use jolt_ncp.Host.Text.{Text, lit, dec}
use jolt_ncp.Host.Errors.{cell_resolution_error}
use jolt_ncp.Host.Node.{node_json, serve, node_client}
use jolt_ncp.Host.Rpc.{
  output_at, get_cell_by_out_point, decode_cell_by_out_point, get_header, decode_header,
}
use jolt_ncp.Host.Convert.{resolved_inputs, tx_to_mock_tx}
use jolt_ncp.Host.Convert.Stages.{IsNode}
use jolt_ncp.Host.Convert.Failures.{FailsAt, cell_missing, tx_to_mock_tx-Fails}
use jolt_ncp.Host.Convert.Examples.{fetch, out_points_of, cell_at, ledger, fetch_header}

whole-IsNode : IsNode node_json node_client ledger out_points_of serve fetch fetch_header
unfolding get_cell_by_out_point decode_cell_by_out_point get_header decode_header output_at
whole-IsNode = record {
  server = record { serve_id = λ r. refl; batch = λ reqs. (map serve reqs, refl, λ i. refl) };
  cells = λ n op. refl;
  headers = λ n h. refl;
}

abbrev spend : ℕ → CellInput
spend i = record { previous_output = record { tx_hash = 60; index = i }; since = 0 }

abbrev overspending : Transaction
overspending = record {
  inputs = spend 0 ∷ spend 4 ∷ [];
  cell_deps = [];
  header_deps = [];
  outputs = [];
  outputs_data = [];
}

abbrev reason : Text
reason = lit "output index " ∷ dec 4 ∷ lit " out of bounds" ∷ []

second_fails : FailsAt fetch ((spend 0).previous_output ∷ (spend 4).previous_output ∷ []) reason
unfolding output_at
second_fails = record {
  before = (spend 0).previous_output ∷ [];
  item = (spend 4).previous_output;
  after = [];
  result = cell_at;
  split = refl;
  passes = (refl, tt);
  fails = refl;
}

tx_to_mock_tx-Fails_example :
    tx_to_mock_tx node_json out_points_of (λ tx. false) node_client overspending
    ≡ err (cell_resolution_error (lit "Failed to resolve cells: " ∷ reason))
unfolding resolved_inputs
tx_to_mock_tx-Fails_example =
    tx_to_mock_tx-Fails node_json node_client ledger out_points_of whole-IsNode (λ tx. false)
      overspending (cell_resolution_error (lit "Failed to resolve cells: " ∷ reason)) (omega arith)
      (cell_missing reason second_fails)
