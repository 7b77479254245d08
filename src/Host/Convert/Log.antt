-- ===== src/Host/Convert/Log.antt =====
-- src/tx_converter.rs: the conversion with what it prints.
use jolt_ncp.Base.{
  ◌≡◌, refl, bind_assoc, ℕ, Bool, List, [], ◌∷◌, ◌++◌, map, length, drop, zip, flat_map, leb,
  traverse, Outcome, ok, panic, map_err, Bytes, if◌then◌else◌,
}
use jolt_ncp.Chain.{OutPoint, Transaction}
use jolt_ncp.Host.Text.{Text, lit, dec, msg}
use jolt_ncp.Host.Errors.{cell_resolution_error}
use jolt_ncp.Host.Errors.{HostError}
use jolt_ncp.Host.Printed.{Printed, result-bind, println, quiet, ◌>>=◌}
use jolt_ncp.Host.Json.{Json}
use jolt_ncp.Host.Batch.{RpcClient, exec_batch}
use jolt_ncp.Host.Convert.{
  MockTransaction, cell_calls, resolved_inputs, mock_inputs, group_out_points, resolve_sub_cells,
  mock_cell_deps, tx_to_mock_tx, mock_header_deps,
}

-- A line with a number, where the number counts something that there is.
unfoldable pub count_lines : {A : Type 0} → Text → List A → List Text
count_lines what [] = []
count_lines what (x ∷ xs) = (what ++ dec (length (x ∷ xs)) ∷ []) ∷ []

module _ (json : Json) (out_points_of : Bytes → Outcome Text (List OutPoint)) where
  open json use {Value, HeaderView}

  unfoldable pub tx_to_mock_tx_printed :
      (Transaction → Bool)
      → RpcClient Value
      → Transaction
      → Printed HostError (MockTransaction HeaderView × ℕ)
  tx_to_mock_tx_printed is_cellbase c tx = do
    _ ← println (
        if is_cellbase tx
        then msg "Transaction is a cellbase (miner reward) - skipping input resolution" ∷ []
        else [])
    let inputs = resolved_inputs is_cellbase tx
    let n_inputs = length inputs
    let main_ops = map (λ i. i.previous_output) inputs ++ map (λ d. d.out_point) tx.cell_deps
    let (calls, next) = cell_calls json c.next_id main_ops
    _ ←
        println
          ((lit "Resolving " ∷ dec (length calls) ∷ lit " cells (inputs + cell deps)..." ∷ []) ∷ [])
    cell_results ← quiet (
        map_err (λ e. cell_resolution_error (lit "Failed to resolve cells: " ∷ e))
          (exec_batch c calls))
    mock_ins ← quiet (mock_inputs cell_results 0 inputs)
    main_results ←
        quiet
          (if leb n_inputs (length cell_results) then ok (drop n_inputs cell_results) else panic)
    let mains = zip tx.cell_deps main_results
    subs_per_dep ← quiet (traverse (group_out_points out_points_of) mains)
    _ ←
        println (
          count_lines (msg "Resolving dep group sub-cells... ")
            (flat_map (λ ops. ops) subs_per_dep))
    (deps, next') ← quiet (resolve_sub_cells json c next mains subs_per_dep)
    _ ← println (count_lines (msg "Resolving header deps... ") tx.header_deps)
    (headers, next'') ← quiet (mock_header_deps json c next' tx.header_deps)
    quiet (
        ok (record { inputs = mock_ins; cell_deps = deps; header_deps = headers; tx = tx }, next''))

  -- Printing changes nothing: the result is that of the conversion, errors and panics included.
  pub tx_to_mock_tx_printed-tx_to_mock_tx :
      (is_cellbase : Transaction → Bool) (c : RpcClient Value) (tx : Transaction)
      → (tx_to_mock_tx_printed is_cellbase c tx).1
        ≡ tx_to_mock_tx json out_points_of is_cellbase c tx
  unfolding tx_to_mock_tx_printed tx_to_mock_tx mock_cell_deps
  tx_to_mock_tx_printed-tx_to_mock_tx is_cellbase c tx = simp (result-bind, bind_assoc) refl
