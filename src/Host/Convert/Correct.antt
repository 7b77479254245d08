-- ===== src/Host/Convert/Correct.antt =====
-- The conversion, end to end, against its specification.
use mathlib.Core.List.{map-map}
use jolt_ncp.Base.{
  ℕ, ◌+◌, ◌<◌, ◌≡◌, refl, ap, ◌∙◌, Bool, List, [], ◌∷◌, map, length, flat_map, arith, Outcome, ok,
  All, Bytes, word,
}
use jolt_ncp.Chain.{Byte32, OutPoint, CellDep, Transaction}
use jolt_ncp.Host.Text.{Text}
use jolt_ncp.Host.Json.{Json}
use jolt_ncp.Host.Rpc.{JsonRpcRequest, JsonRpcResponse, Cell, numbered}
use jolt_ncp.Host.Batch.{RpcClient}
use jolt_ncp.Host.Convert.{
  mock_cell_dep, cell_calls, group_out_points, mock_cell_deps, resolve_sub_cells, tx_to_mock_tx,
  resolved_inputs,
}
use jolt_ncp.Host.Convert.Layout.{
  input_with, StandsAt, StandsAt-whole, expanded, OnlyGroups, interleave-expanded,
  flat_map-expanded_nil,
}
use jolt_ncp.Host.Convert.Stages.{
  IsNode, IsKnown, batch_cells, cell_counter, headers_fetched, tx_to_mock_tx-mains,
}
use jolt_ncp.Host.Convert.Ledger.{
  spent, Ledger, main_ops, length-main_ops, traverse-groups, only_groups, flat_map-map, n_calls,
}

module _ (json : Json) (c : RpcClient json.Value) (ledger : Ledger json.HeaderView)
    (out_points_of : Bytes → Outcome Text (List OutPoint)) where
  open json use {Value, HeaderView}
  open ledger use {cell, header, members}

  module _ {serve : JsonRpcRequest Value → JsonRpcResponse Value}
      {fetch : OutPoint → Outcome Text Cell} {fetch_header : Byte32 → Outcome Text HeaderView}
      (node : IsNode json c ledger out_points_of serve fetch fetch_header) where
    -- The batch for the groups' cells, for either outcome of the test on its calls.
    sub_cells_expanded :
        (n : ℕ) (deps : List CellDep) (ops : List OutPoint)
        → flat_map members deps ≡ ops
        → n + length ops < word
        → All (OnlyGroups cell members) deps
        → All (λ op. fetch op ≡ ok (cell op)) ops
        → resolve_sub_cells json c n (map (λ d. (d, cell d.out_point)) deps) (map members deps)
          ≡ ok (flat_map (expanded cell members) deps, n + length ops)
    unfolding resolve_sub_cells numbered
    sub_cells_expanded n deps [] e room groups known =
        rw
          (
            resolve_sub_cells,
            flat_map-map ledger deps,
            e,
            flat_map-expanded_nil cell members deps e,
            map-map (λ (x : CellDep × Cell). mock_cell_dep x.0 x.1) (λ d. (d, cell d.out_point))
                deps,
          )
          (ap (λ k. ok (map (λ d. mock_cell_dep d (cell d.out_point)) deps, k))
            (ap (λ os. (cell_calls json n os).1) (flat_map-map ledger deps ∙ e)
              ∙ cell_counter json c ledger out_points_of node n [] room))
    sub_cells_expanded n deps (op ∷ ops) e room groups known =
        let whole : StandsAt (map cell (op ∷ ops)) 0 (map cell (flat_map members deps)) =
          rw e (StandsAt-whole (map cell (op ∷ ops))) in
        rw
          (
            resolve_sub_cells,
            flat_map-map ledger deps,
            e,
            batch_cells json c ledger out_points_of node n (op ∷ ops) room known,
            interleave-expanded cell members (map cell (op ∷ ops)) 0 deps groups whole,
          )
          (ap (λ k. ok (flat_map (expanded cell members) deps, k))
            (ap (λ os. (cell_calls json n os).1) (flat_map-map ledger deps ∙ e)
              ∙ cell_counter json c ledger out_points_of node n (op ∷ ops) room))

    -- The dependencies, each group followed by its cells.
    pub cell_deps_expanded :
        (n : ℕ) (deps : List CellDep)
        → n + length (flat_map members deps) < word
        → All (λ d. group_out_points out_points_of (d, cell d.out_point) ≡ ok (members d)) deps
        → All (λ op. fetch op ≡ ok (cell op)) (flat_map members deps)
        → mock_cell_deps json out_points_of c n (map (λ d. (d, cell d.out_point)) deps)
          ≡ ok (flat_map (expanded cell members) deps, n + length (flat_map members deps))
    unfolding mock_cell_deps
    cell_deps_expanded n deps room groups known =
        rw (traverse-groups ledger out_points_of deps groups) (
          sub_cells_expanded n deps (flat_map members deps) refl room
            (only_groups ledger out_points_of deps groups) known)

    -- When the node knows every cell and header that the transaction needs, every group's data
    -- parses, and the counter of request ids has room for the calls, `tx_to_mock_tx` succeeds: the
    -- inputs (none of a cellbase) come with their cells' outputs, data and block hashes, every
    -- dependency is followed by the cells of its group as dependencies of type `code`, with the
    -- same of theirs, the headers are in order, and the counter has moved by one for each call.
    pub tx_to_mock_tx-mock :
        (is_cellbase : Transaction → Bool) (tx : Transaction)
        → c.next_id + n_calls members (spent is_cellbase tx) tx < word
        → IsKnown json c ledger out_points_of fetch fetch_header (spent is_cellbase tx) tx
        → tx_to_mock_tx json out_points_of is_cellbase c tx
          ≡ ok (
            record {
              inputs = map (input_with cell) (spent is_cellbase tx);
              cell_deps = flat_map (expanded cell members) tx.cell_deps;
              header_deps = map header tx.header_deps;
              tx = tx;
            },
            c.next_id + n_calls members (spent is_cellbase tx) tx,
          )
    unfolding resolved_inputs
    tx_to_mock_tx-mock is_cellbase tx room known =
        let ins = spent is_cellbase tx in
        let n_ops = length-main_ops ins tx.cell_deps in
        let n = c.next_id + length (main_ops ins tx.cell_deps) in
        let n' = n + length (flat_map members tx.cell_deps) in
        rw
          (
            tx_to_mock_tx-mains json c ledger out_points_of node is_cellbase tx
                (omega (arith, n_ops)) known.inputs_known known.deps_known,
            cell_deps_expanded n tx.cell_deps (omega (arith, n_ops)) known.groups_known
                known.members_known,
            headers_fetched json c ledger out_points_of node n' tx.header_deps
                (omega (arith, n_ops)) known.headers_known,
          )
          (ap
            (λ k. ok (
              record {
                inputs = map (input_with cell) ins;
                cell_deps = flat_map (expanded cell members) tx.cell_deps;
                header_deps = map header tx.header_deps;
                tx = tx;
              },
              k,
            ))
            (omega (arith, n_ops)))
