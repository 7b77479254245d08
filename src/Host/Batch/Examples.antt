-- ===== src/Host/Batch/Examples.antt =====
-- Batches of two calls against a node that answers in order, and one that answers from the end.
use jolt_ncp.Host.Rpc.Ids.{
  Drawn, new_client, then, transaction, cell, AllDistinct, Drawn-AllDistinct,
}
use jolt_ncp.Base.{
  ℕ, ◌%◌, ◌≡◌, refl, List, [], ◌∷◌, length, map, arith, traverse, some, none, ok, ◌>>=◌, word,
}
use jolt_ncp.Host.Node.{Value, node_json, serve, known, backwards, node_client, reversed}
use jolt_ncp.Host.Batch.{RpcClient, exec_batch}
use jolt_ncp.Host.Rpc.{
  RpcCall, get_header, get_transaction, get_cell_by_out_point, JsonRpcResponse, decode_transaction,
  decode_cell_by_out_point,
}
use jolt_ncp.Host.Rpc.Decoders.{at_index, decode_cell_by_out_point-decode_transaction}
use jolt_ncp.Host.Batch.Answers.{
  last_with, HasDistinctIds, decoded, exec_batch-last_with, exec_batch_any_order,
}
use jolt_ncp.Host.Text.{lit, hash_hex, msg}

abbrev other_client : RpcClient Value
other_client = record node_client { client = backwards }

abbrev calls : List (RpcCall Value ℕ)
calls =
    (get_header node_json 3 (lit "0x" ∷ hash_hex 90 ∷ [])).0
    ∷ (get_header node_json 4 (lit "0x" ∷ hash_hex 91 ∷ [])).0
    ∷ []

calls-HasDistinctIds : HasDistinctIds calls
unfolding get_header
calls-HasDistinctIds = ((omega arith, tt), (tt, tt))

exec_batch-last_with_example :
    exec_batch node_client calls
    ≡ traverse
        (λ k. decoded (last_with k.request.id (map serve (map (λ c. c.request) calls))) k)
        calls
exec_batch-last_with_example =
    exec_batch-last_with node_client calls (map serve (map (λ c. c.request) calls))
      calls-HasDistinctIds refl

same_answers :
    (i : ℕ)
    → last_with i (map serve (map (λ c. c.request) calls))
      ≡ last_with i (reversed (map serve (map (λ c. c.request) calls)))
unfolding last_with get_header
same_answers i = ground arith

exec_batch_any_order_example : exec_batch node_client calls ≡ exec_batch other_client calls
exec_batch_any_order_example =
    exec_batch_any_order node_client other_client calls (map serve (map (λ c. c.request) calls))
      (reversed (map serve (map (λ c. c.request) calls))) calls-HasDistinctIds refl refl
      same_answers

abbrev answer : JsonRpcResponse Value
answer = record { id = 3; result = some (known 70); error = none }

decode_cell_by_out_point-decode_transaction_example :
    (do
      (output, data_bytes, _) ← decode_cell_by_out_point node_json answer (some 0)
      ok (output, data_bytes))
    ≡ (do tx ← decode_transaction node_json answer none; at_index tx 0)
decode_cell_by_out_point-decode_transaction_example =
    decode_cell_by_out_point-decode_transaction node_json answer 0

two_ids : Drawn node_json (1 ∷ 0 ∷ []) 2
unfolding get_transaction get_cell_by_out_point
two_ids =
    then (then new_client (transaction (msg "0x46"))) (cell (record { tx_hash = 80; index = 0 }))

Drawn-AllDistinct_example : AllDistinct (1 ∷ 0 ∷ []) × (2 ≡ length {A = ℕ} (1 ∷ 0 ∷ []) % word)
Drawn-AllDistinct_example = Drawn-AllDistinct node_json (omega arith) two_ids
