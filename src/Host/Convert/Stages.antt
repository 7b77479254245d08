-- ===== src/Host/Convert/Stages.antt =====
-- The stages of the conversion against a node that answers each request by itself.
use jolt_ncp.Base.{
  ℕ, ◌+◌, ◌<◌, ◌≡◌, refl, ap, sym, ◌∙◌, Bool, true, List, [], ◌∷◌, ◌++◌, map, length, length-append,
  length-map, drop, flat_map, arith, Outcome, ok, ◌>>=◌, All, leb, Bytes, word,
}
use jolt_ncp.Chain.{Byte32, OutPoint, CellInput, Transaction}
use jolt_ncp.Host.Text.{Text}
use jolt_ncp.Host.Json.{Json}
use jolt_ncp.Host.Rpc.{
  JsonRpcRequest, JsonRpcResponse, Cell, numbered, get_cell_by_out_point, decode_cell_by_out_point,
  get_header, decode_header,
}
use jolt_ncp.Host.Batch.{RpcClient, exec_batch}
use jolt_ncp.Host.Convert.{
  mock_input, cell_calls, header_call, group_out_points, mock_cell_deps, mock_header_deps,
  tx_to_mock_tx, resolved_inputs,
}
use jolt_ncp.Host.Convert.Calls.{IsServer, numbered_counter, exec_batch-fetch}
use jolt_ncp.Host.Convert.Layout.{StandsAt-append, drop-append, mock_inputs-map}
use jolt_ncp.Host.Convert.Ledger.{
  Ledger, traverse-ok, main_ops, zip-map, cells-main_ops, known-main_ops,
}

module _ (json : Json) (c : RpcClient json.Value) (ledger : Ledger json.HeaderView)
    (out_points_of : Bytes → Outcome Text (List OutPoint)) where
  open json use {Value, HeaderView}
  open ledger use {cell, header, members}

  -- The server answers for the cells and the headers of the ledger.
  pub record IsNode (serve : JsonRpcRequest Value → JsonRpcResponse Value)
      (fetch : OutPoint → Outcome Text Cell) (fetch_header : Byte32 → Outcome Text HeaderView)
      : Type 0 where
    pub server : IsServer Value c serve
    pub cells :
        (n : ℕ) (op : OutPoint)
        → decode_cell_by_out_point json
            (serve (get_cell_by_out_point json n op).0.request)
            (get_cell_by_out_point json n op).0.request.output_index
          ≡ fetch op
    pub headers :
        (n : ℕ) (h : Byte32)
        → decode_header json
            (serve (header_call json n h).0.request)
            (header_call json n h).0.request.output_index
          ≡ fetch_header h

  -- What the ledger holds of a transaction whose inputs are `ins`.
  pub record IsKnown (fetch : OutPoint → Outcome Text Cell)
      (fetch_header : Byte32 → Outcome Text HeaderView) (ins : List CellInput) (tx : Transaction)
      : Type 0 where
    pub inputs_known : All (λ i. fetch i.previous_output ≡ ok (cell i.previous_output)) ins
    pub deps_known : All (λ d. fetch d.out_point ≡ ok (cell d.out_point)) tx.cell_deps
    pub groups_known :
        All
          (λ d. group_out_points out_points_of (d, cell d.out_point) ≡ ok (members d))
          tx.cell_deps
    pub members_known : All (λ op. fetch op ≡ ok (cell op)) (flat_map members tx.cell_deps)
    pub headers_known : All (λ h. fetch_header h ≡ ok (header h)) tx.header_deps

  module _ {serve : JsonRpcRequest Value → JsonRpcResponse Value}
      {fetch : OutPoint → Outcome Text Cell} {fetch_header : Byte32 → Outcome Text HeaderView}
      (node : IsNode serve fetch fetch_header) where
    -- One batch of cell calls brings the cells.
    pub batch_cells :
        (n : ℕ) (ops : List OutPoint)
        → n + length ops < word
        → All (λ op. fetch op ≡ ok (cell op)) ops
        → exec_batch c (cell_calls json n ops).0 ≡ ok (map cell ops)
    unfolding get_cell_by_out_point
    batch_cells n ops room known =
        exec_batch-fetch node.server (get_cell_by_out_point json) (λ k op. refl) (λ k op. refl)
          fetch node.cells n ops room
        ∙ traverse-ok fetch cell ops known

    pub cell_counter :
        (n : ℕ) (ops : List OutPoint)
        → n + length ops < word
        → (cell_calls json n ops).1 ≡ n + length ops
    cell_counter n ops room =
        numbered_counter (get_cell_by_out_point json) (λ k op. unfold get_cell_by_out_point in refl)
          (λ k op. unfold get_cell_by_out_point in refl) n ops room

    pub headers_fetched :
        (n : ℕ) (hs : List Byte32)
        → n + length hs < word
        → All (λ h. fetch_header h ≡ ok (header h)) hs
        → mock_header_deps json c n hs ≡ ok (map header hs, n + length hs)
    unfolding mock_header_deps get_header numbered
    headers_fetched n [] room known = ap (λ k. ok ([], k)) (omega arith)
    headers_fetched n (h ∷ hs) room known = rw (
      exec_batch-fetch node.server (header_call json) (λ k a. refl) (λ k a. refl) fetch_header
          node.headers n (h ∷ hs) room,
      traverse-ok fetch_header header (h ∷ hs) known,
      numbered_counter (header_call json) (λ k a. refl) (λ k a. refl) n (h ∷ hs) room,
    )

    -- The first batch, and the inputs laid out: what is left of the conversion once every cell that
    -- the transaction names itself is known.
    pub tx_to_mock_tx-mains :
        (is_cellbase : Transaction → Bool) (tx : Transaction)
        → c.next_id + length (main_ops (resolved_inputs is_cellbase tx) tx.cell_deps) < word
        → All
            (λ i. fetch i.previous_output ≡ ok (cell i.previous_output))
            (resolved_inputs is_cellbase tx)
        → All (λ d. fetch d.out_point ≡ ok (cell d.out_point)) tx.cell_deps
        → tx_to_mock_tx json out_points_of is_cellbase c tx ≡ (do
          (deps, next') ←
              mock_cell_deps json out_points_of c
                (c.next_id + length (main_ops (resolved_inputs is_cellbase tx) tx.cell_deps))
                (map (λ d. (d, cell d.out_point)) tx.cell_deps)
          (headers, next'') ← mock_header_deps json c next' tx.header_deps
          ok (
            record {
              inputs =
                  map (λ i. mock_input i (cell i.previous_output)) (resolved_inputs is_cellbase tx);
              cell_deps = deps;
              header_deps = headers;
              tx = tx;
            },
            next'',
          ))
    unfolding tx_to_mock_tx
    tx_to_mock_tx-mains is_cellbase tx room ins_known deps_known =
        let ins = resolved_inputs is_cellbase tx in
        let here = map (λ i. cell i.previous_output) ins in
        let there = map (λ d. cell d.out_point) tx.cell_deps in
        let n_here : length here ≡ length ins = length-map (λ i. cell i.previous_output) ins in
        let fits : leb (length ins) (length (here ++ there)) ≡ true =
          ground (arith, length-append here there, n_here) in
        let rest : drop (length ins) (here ++ there) ≡ there =
          ap (λ k. drop k (here ++ there)) (sym n_here) ∙ drop-append here there in
        rw
          (
            batch_cells c.next_id (main_ops ins tx.cell_deps) room
                (known-main_ops ledger fetch ins tx.cell_deps ins_known deps_known),
            cells-main_ops ledger ins tx.cell_deps,
            mock_inputs-map cell (here ++ there) 0 ins (StandsAt-append here there),
            fits,
            rest,
            zip-map ledger tx.cell_deps,
            cell_counter c.next_id (main_ops ins tx.cell_deps) room,
          )
          refl
