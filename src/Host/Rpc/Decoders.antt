-- ===== src/Host/Rpc/Decoders.antt =====
-- The decoder of a cell against the decoder of its transaction.
use jolt_ncp.Base.{ℕ, Outcome, err, ◌∷◌, Bytes, get_elem?, ◌≡◌, [], none, some, ok, ◌>>=◌, arith}
use jolt_ncp.Chain.{Transaction, CellOutput}
use jolt_ncp.Host.Text.{Text, lit, dec}
use jolt_ncp.Host.Json.{Json}
use jolt_ncp.Host.Rpc.{JsonRpcResponse, decode_transaction, decode_cell_by_out_point}

-- The output of a transaction at an index and its data, with the errors for short vectors.
abbrev pub at_index : Transaction → ℕ → Outcome Text (CellOutput × Bytes)
at_index tx i = elim (get_elem? tx.outputs i) [
  | none ↦ err (lit "output index " ∷ dec i ∷ lit " out of bounds" ∷ [])
  | some output ↦ elim (get_elem? tx.outputs_data i) [
    | none ↦ err (lit "outputs_data index " ∷ dec i ∷ lit " out of bounds" ∷ [])
    | some data_bytes ↦ ok (output, data_bytes)
  ]
]

module _ (json : Json) where
  -- Decoding a cell at an index, without the block's hash, is decoding the transaction and taking
  -- the output at that index with its data, for every answer and every error.
  pub decode_cell_by_out_point-decode_transaction :
      (body : JsonRpcResponse json.Value) (index : ℕ)
      → (do
        (output, data_bytes, _) ← decode_cell_by_out_point json body (some index)
        ok (output, data_bytes))
        ≡ (do tx ← decode_transaction json body none; at_index tx index)
  unfolding decode_cell_by_out_point decode_transaction
  decode_cell_by_out_point-decode_transaction body index = ground arith
