-- ===== src/Host/Convert/Examples.antt =====
-- A transaction with one input, a group of one cell, a plain dependency and a header.
use jolt_ncp.Base.{
  ℕ, ◌+◌, ◌≡◌, refl, List, [], ◌∷◌, map, none, some, arith, Outcome, ok, ◌>>=◌, Bytes, false,
  flat_map, traverse, range_from,
}
use jolt_ncp.Chain.{Byte32, OutPoint, code, dep_group, CellDep, Transaction}
use jolt_ncp.Host.Text.{Text}
use jolt_ncp.Host.Node.{Value, transaction_at, node_json, serve, node_client, some_script}
use jolt_ncp.Host.Rpc.{
  Cell, output_at, numbered, get_cell_by_out_point, decode_cell_by_out_point, get_header,
  decode_header,
}
use jolt_ncp.Host.Batch.{exec_batch}
use jolt_ncp.Host.Convert.{
  mock_input, sub_out_point, group_out_points, interleave, resolved_inputs, tx_to_mock_tx,
}
use jolt_ncp.Host.Convert.Calls.{IsServer, exec_batch-fetch}
use jolt_ncp.Host.Convert.Layout.{expanded, interleave-expanded}
use jolt_ncp.Host.Convert.Stages.{IsNode, IsKnown}
use jolt_ncp.Host.Convert.Correct.{tx_to_mock_tx-mock}
use jolt_ncp.Host.Convert.Ledger.{Ledger}

abbrev pub fetch : OutPoint → Outcome Text Cell
fetch op =
    (output_at (transaction_at op.tx_hash) op.index []) >>= (λ x. ok (x.0, x.1, some op.tx_hash))

-- A stand-in for the molecule parser: every byte is the hash of an out point.
abbrev pub out_points_of : Bytes → Outcome Text (List OutPoint)
out_points_of data_bytes = ok (map (λ b. record { tx_hash = b; index = 0 }) data_bytes)

abbrev pub cell_at : OutPoint → Cell
cell_at op = (
  record { capacity = op.tx_hash; lock_script = some_script; type_ = none },
  (op.tx_hash + 1) ∷ [],
  some op.tx_hash,
)

abbrev pub members : CellDep → List OutPoint
members dep = elim dep.dep_type [
  | code ↦ []
  | dep_group ↦ record { tx_hash = dep.out_point.tx_hash + 1; index = 0 } ∷ []
]

abbrev pub ledger : Ledger ℕ
ledger = record { cell = cell_at; header = λ h. h; members = members }

abbrev pub fetch_header : Byte32 → Outcome Text ℕ
fetch_header h = ok h

server : IsServer Value node_client serve
server = record { serve_id = λ r. refl; batch = λ reqs. (map serve reqs, refl, λ i. refl) }

node : IsNode node_json node_client ledger out_points_of serve fetch fetch_header
unfolding get_cell_by_out_point decode_cell_by_out_point get_header decode_header output_at
node = record { server = server; cells = λ n op. refl; headers = λ n h. refl }

abbrev group_dep : CellDep
group_dep = record { out_point = record { tx_hash = 70; index = 0 }; dep_type = dep_group }

abbrev plain_dep : CellDep
plain_dep = record { out_point = record { tx_hash = 80; index = 0 }; dep_type = code }

abbrev transfer : Transaction
transfer = record {
  inputs = record { previous_output = record { tx_hash = 60; index = 0 }; since = 0 } ∷ [];
  cell_deps = group_dep ∷ plain_dep ∷ [];
  header_deps = 90 ∷ [];
  outputs = [];
  outputs_data = [];
}

transfer-IsKnown :
    IsKnown node_json node_client ledger out_points_of fetch fetch_header transfer.inputs transfer
unfolding output_at sub_out_point group_out_points range_from traverse
transfer-IsKnown = record {
  inputs_known = (refl, tt);
  deps_known = (refl, (refl, tt));
  groups_known = (refl, (refl, tt));
  members_known = (refl, tt);
  headers_known = (refl, tt);
}

tx_to_mock_tx-mock_example :
    tx_to_mock_tx node_json out_points_of (λ tx. false) node_client transfer
    ≡ ok (
      record {
        inputs = map (λ i. mock_input i (cell_at i.previous_output)) transfer.inputs;
        cell_deps = flat_map (expanded cell_at members) transfer.cell_deps;
        header_deps = 90 ∷ [];
        tx = transfer;
      },
      8,
    )
unfolding resolved_inputs
tx_to_mock_tx-mock_example =
    tx_to_mock_tx-mock node_json node_client ledger out_points_of node (λ tx. false) transfer
      (omega arith) transfer-IsKnown

interleave-expanded_example :
    interleave
      (cell_at (record { tx_hash = 71; index = 0 }) ∷ [])
      0
      (map (λ d. (d, cell_at d.out_point)) transfer.cell_deps)
      (map members transfer.cell_deps)
    ≡ ok (flat_map (expanded cell_at members) transfer.cell_deps)
interleave-expanded_example =
    interleave-expanded cell_at members (cell_at (record { tx_hash = 71; index = 0 }) ∷ []) 0
      transfer.cell_deps ((λ e. cc), ((λ e. refl), tt)) (refl, tt)

exec_batch-fetch_example :
    exec_batch node_client
      (numbered
        (get_cell_by_out_point node_json)
        3
        (group_dep.out_point ∷ plain_dep.out_point ∷ record { tx_hash = 5; index = 4 } ∷ [])).0
    ≡ traverse fetch
        (group_dep.out_point ∷ plain_dep.out_point ∷ record { tx_hash = 5; index = 4 } ∷ [])
unfolding get_cell_by_out_point decode_cell_by_out_point output_at
exec_batch-fetch_example =
    exec_batch-fetch server (get_cell_by_out_point node_json) (λ n op. refl) (λ n op. refl) fetch
      (λ n op. refl) 3
      (group_dep.out_point ∷ plain_dep.out_point ∷ record { tx_hash = 5; index = 4 } ∷ [])
      (omega arith)
