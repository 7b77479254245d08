-- ===== src/Host/Convert.antt =====
-- src/tx_converter.rs: every cell and header that a transaction names is fetched, in three batches at
-- most, and laid out as the mock transaction that the verifier reads.
pub mod Calls
pub mod Layout
pub mod Ledger
pub mod Stages
pub mod Correct
pub mod Failures
pub mod Examples
pub mod Log
mod FailureExamples
use jolt_ncp.Base.{
  ℕ, zero, suc, ◌+◌, Bool, true, false, List, [], ◌∷◌, ◌++◌, map, length, get_elem?, range_from,
  drop, zip, flat_map, Outcome, ok, panic, ◌>>=◌, ok_or, expect, map_err, traverse, Bytes, leb,
  ◌==◌, if◌then◌else◌, Option,
}
use jolt_ncp.Chain.{
  Byte32, OutPoint, DepType, code, dep_group, CellDep, CellInput, CellOutput, Transaction,
}
use jolt_ncp.Host.Text.{Piece, lit, dec, hash_hex, Text}
use jolt_ncp.Host.Errors.{
  HostError, cell_resolution_error, verification_error, header_resolution_error,
}
use jolt_ncp.Host.Json.{Json}
use jolt_ncp.Host.Rpc.{RpcCall, Cell, get_cell_by_out_point, get_header, numbered}
use jolt_ncp.Host.Batch.{RpcClient, exec_batch}

pub record MockInput : Type 0 where
  pub input : CellInput
  pub output : CellOutput
  pub data_bytes : Bytes
  pub header : Option Byte32

pub record MockCellDep : Type 0 where
  pub cell_dep : CellDep
  pub output : CellOutput
  pub data_bytes : Bytes
  pub header : Option Byte32

pub record MockTransaction (H : Type 0) : Type 0 where
  pub inputs : List MockInput
  pub cell_deps : List MockCellDep
  pub header_deps : List H
  pub tx : Transaction

abbrev pub mock_input : CellInput → Cell → MockInput
mock_input input (output, data_bytes, block_hash) = record {
  input = input;
  output = output;
  data_bytes = data_bytes;
  header = block_hash;
}

abbrev pub mock_cell_dep : CellDep → Cell → MockCellDep
mock_cell_dep cell_dep (output, data_bytes, block_hash) = record {
  cell_dep = cell_dep;
  output = output;
  data_bytes = data_bytes;
  header = block_hash;
}

-- The code dependency that stands for one cell of a group.
abbrev pub code_dep : OutPoint → CellDep
code_dep op = record { out_point = op; dep_type = code }

abbrev pub is_group : CellDep → Bool
is_group dep = elim dep.dep_type [ code ↦ false | dep_group ↦ true ]

-- The loop over the inputs, with `&cell_results[i]`.
pub mock_inputs : List Cell → ℕ → List CellInput → Outcome HostError (List MockInput)
mock_inputs results i [] = ok []
mock_inputs results i (input ∷ inputs) = do
  cell ← expect (get_elem? results i)
  rest ← mock_inputs results (suc i) inputs
  ok (mock_input input cell ∷ rest)

-- The inner loop over the cells of one group, with `&sub_results[sub_result_idx]`.
pub sub_deps : List Cell → ℕ → List OutPoint → Outcome HostError (List MockCellDep)
sub_deps results i [] = ok []
sub_deps results i (op ∷ ops) = do
  cell ← expect (get_elem? results i)
  rest ← sub_deps results (suc i) ops
  ok (mock_cell_dep (code_dep op) cell ∷ rest)

-- The loop that pushes each dependency and, behind a group, its cells.
pub interleave :
    List Cell
    → ℕ
    → List (CellDep × Cell)
    → List (List OutPoint)
    → Outcome HostError (List MockCellDep)
interleave results i [] subs = ok []
interleave results i (x ∷ xs) [] = panic
interleave results i ((dep, cell) ∷ xs) (ops ∷ opss) = do
  own ← if is_group dep then sub_deps results i ops else ok []
  rest ← interleave results (if is_group dep then i + length ops else i) xs opss
  ok (mock_cell_dep dep cell ∷ (own ++ rest))

-- `get(i)` on the vector of out points, under `ok_or_else`.
unfoldable pub sub_out_point : List OutPoint → ℕ → Outcome HostError OutPoint
sub_out_point ops i =
    ok_or (get_elem? ops i)
      (verification_error (lit "Invalid DepGroup data: missing OutPoint at index " ∷ dec i ∷ []))

module _ (out_points_of : Bytes → Outcome Text (List OutPoint)) where
  -- The out points in a dependency's data, one index after the other, if it is a group.
  unfoldable pub group_out_points : CellDep × Cell → Outcome HostError (List OutPoint)
  group_out_points (dep, (output, data_bytes, block_hash)) =
      if is_group dep
      then (do
        sub_out_points ← map_err verification_error (out_points_of data_bytes)
        traverse (sub_out_point sub_out_points) (range_from 0 (length sub_out_points)))
      else ok []

-- The inputs to resolve; a cellbase has none. `is_cellbase` is a method of the ckb-types crate.
unfoldable pub resolved_inputs : (Transaction → Bool) → Transaction → List CellInput
resolved_inputs is_cellbase tx = if is_cellbase tx then [] else tx.inputs

module _ (json : Json) where
  open json use {Value, HeaderView}

  -- One call for each out point, or header hash, the ids in order.
  abbrev pub cell_calls : ℕ → List OutPoint → List (RpcCall Value Cell) × ℕ
  cell_calls = numbered (get_cell_by_out_point json)

  abbrev pub header_call : ℕ → Byte32 → RpcCall Value HeaderView × ℕ
  header_call next_id h = get_header json next_id (lit "0x" ∷ hash_hex h ∷ [])

  abbrev pub header_calls : ℕ → List Byte32 → List (RpcCall Value HeaderView) × ℕ
  header_calls = numbered header_call

  -- One batch for the cells of all groups, if there is any.
  pub resolve_sub_cells :
      RpcClient Value
      → ℕ
      → List (CellDep × Cell)
      → List (List OutPoint)
      → Outcome HostError (List MockCellDep × ℕ)
  resolve_sub_cells c next_id mains subs_per_dep =
      let (sub_calls, next) = cell_calls next_id (flat_map (λ ops. ops) subs_per_dep) in
      elim sub_calls [
        | [] ↦ ok (map (λ x. mock_cell_dep x.0 x.1) mains, next)
        | call ∷ calls ↦ (do
          sub_results ← map_err cell_resolution_error (exec_batch c (call ∷ calls))
          deps ← interleave sub_results 0 mains subs_per_dep
          ok (deps, next))
      ]

  -- `header_deps` stays empty, its default, for a transaction without header dependencies.
  pub mock_header_deps : RpcClient Value → ℕ → List Byte32 → Outcome HostError (List HeaderView × ℕ)
  mock_header_deps c next_id [] = ok ([], next_id)
  mock_header_deps c next_id (h ∷ hs) = do
    let (calls, next) = header_calls next_id (h ∷ hs)
    headers ← map_err header_resolution_error (exec_batch c calls)
    ok (headers, next)

module _ (json : Json) (out_points_of : Bytes → Outcome Text (List OutPoint)) where
  open json use {Value, HeaderView}

  -- The dependencies, once the main cells are there; the counter goes on from `next_id`.
  pub mock_cell_deps :
      RpcClient Value → ℕ → List (CellDep × Cell) → Outcome HostError (List MockCellDep × ℕ)
  mock_cell_deps c next_id mains =
      traverse (group_out_points out_points_of) mains >>= resolve_sub_cells json c next_id mains

  -- The counter comes back on success; every error ends the run.
  pub tx_to_mock_tx :
      (Transaction → Bool)
      → RpcClient Value
      → Transaction
      → Outcome HostError (MockTransaction HeaderView × ℕ)
  tx_to_mock_tx is_cellbase c tx = do
    let inputs = resolved_inputs is_cellbase tx
    let n_inputs = length inputs
    let main_ops = map (λ i. i.previous_output) inputs ++ map (λ d. d.out_point) tx.cell_deps
    let (calls, next) = cell_calls json c.next_id main_ops
    cell_results ←
        map_err (λ e. cell_resolution_error (lit "Failed to resolve cells: " ∷ e))
          (exec_batch c calls)
    mock_ins ← mock_inputs cell_results 0 inputs
    main_results ←
        if leb n_inputs (length cell_results) then ok (drop n_inputs cell_results) else panic
    (deps, next') ← mock_cell_deps c next (zip tx.cell_deps main_results)
    (headers, next'') ← mock_header_deps json c next' tx.header_deps
    ok (record { inputs = mock_ins; cell_deps = deps; header_deps = headers; tx = tx }, next'')
