-- ===== src/Host/Rpc.antt =====
-- src/rpc_client.rs: the requests of the JSON-RPC client, the decoders of their answers, and the two
-- ways to run them. The counter behind the request ids is passed along; its `fetch_add` wraps.
pub mod Decoders
pub mod Ids
use mathlib.Core.Option
use jolt_ncp.Base.{
  ℕ, String, Bool, List, [], ◌∷◌, Option, none, some, get_elem?, Outcome, ok, err, ◌>>=◌, ok_or,
  Bytes, add_word,
}
use jolt_ncp.Chain.{Byte32, OutPoint, CellOutput, Transaction}
use jolt_ncp.Host.Text.{lit, dec, hex, hash_hex, Text, msg}
use jolt_ncp.Host.Json.{Json, Either, left, right, regular, with_cycles}

-- `{ jsonrpc: "2.0", method, params, id }`, and `output_index`, which is not sent.
pub record JsonRpcRequest (V : Type 0) : Type 0 where
  pub method : String
  pub params : List V
  pub id : ℕ
  pub output_index : Option ℕ

-- `error` holds the `message` of a `JsonRpcError`.
pub record JsonRpcResponse (V : Type 0) : Type 0 where
  pub id : ℕ
  pub result : Option V
  pub error : Option Text

pub record RpcCall (V T : Type 0) : Type 0 where
  pub request : JsonRpcRequest V
  pub decode : JsonRpcResponse V → Option ℕ → Outcome Text T

-- A cell, its data, and the block that holds the transaction which created it.
abbrev pub Cell : Type 0
Cell = CellOutput × Bytes × Option Byte32

abbrev not_found : Text
not_found = msg "RPC returned null (transaction not found)"

abbrev null_field : Text
null_field = msg "transaction field is null (not found or verbosity too low)"

abbrev hex_format : Text
hex_format = msg "hex format not supported here; use verbosity 2"

module _ {V T : Type 0} where
  -- `if let Some(e) = body.error { return Err(e.message.into()); }`
  abbrev pub check_error : JsonRpcResponse V → Outcome Text T → Outcome Text T
  check_error body rest = elim body.error [ some message ↦ err message | none ↦ rest ]

-- The JSON form of an answer, or the error for its hex form.
abbrev pub json_form : {A : Type 0} → Either A → Outcome Text A
json_form (left view) = ok view
json_form (right _) = err hex_format

-- `outputs().into_iter().nth(i)` and `outputs_data().get(i)`, each with its error for a short vector.
unfoldable pub output_at : Transaction → ℕ → Text → Outcome Text (CellOutput × Bytes)
output_at tx i suffix = do
  output ←
      ok_or (get_elem? tx.outputs i) (lit "output index " ∷ dec i ∷ lit " out of bounds" ∷ suffix)
  data_bytes ←
      ok_or (get_elem? tx.outputs_data i)
        (lit "outputs_data index " ∷ dec i ∷ lit " out of bounds" ∷ suffix)
  ok (output, data_bytes)

pub cell_from_tx : Transaction → OutPoint → Outcome Text (CellOutput × Bytes)
unfolding output_at
cell_from_tx tx out_point =
    output_at tx out_point.index (lit " for tx " ∷ lit "0x" ∷ hash_hex out_point.tx_hash ∷ [])

-- A loop that pushes one call for each item; each draws the next id.
unfoldable pub numbered :
    {V T A : Type 0} → (ℕ → A → RpcCall V T × ℕ) → ℕ → List A → List (RpcCall V T) × ℕ
numbered make next_id [] = ([], next_id)
numbered make next_id (x ∷ xs) =
    let (call, next) = make next_id x in
    let (calls, last) = numbered make next xs in (call ∷ calls, last)

module _ (json : Json) where
  open json use {
    Value, CellWithStatus, HeaderView, BlockView, string_value, bool_value, null_value, to_value,
    transaction_of, cell_of, header_of, block_of, transaction_into, header_into, block_into,
  }

  unfoldable pub decode_transaction : JsonRpcResponse Value → Option ℕ → Outcome Text Transaction
  decode_transaction body _ = check_error body (do
    value ← ok_or body.result not_found
    tws ← transaction_of value
    tx_view ← ok_or tws.transaction null_field
    view ← json_form tx_view
    ok (transaction_into view))

  pub decode_live_cell : JsonRpcResponse Value → Option ℕ → Outcome Text CellWithStatus
  decode_live_cell body _ =
      check_error body
        (do value ← ok_or body.result (msg "RPC returned null (cell not found)"); cell_of value)

  unfoldable pub decode_header : JsonRpcResponse Value → Option ℕ → Outcome Text HeaderView
  decode_header body _ = check_error body (do
    value ← ok_or body.result (msg "header not found")
    found ← header_of value
    response_format ← ok_or found (msg "header not found")
    json_view ← json_form response_format
    ok (header_into json_view))

  pub decode_block : JsonRpcResponse Value → Option ℕ → Outcome Text (BlockView × List ℕ)
  decode_block body _ = check_error body (do
    value ← ok_or body.result (msg "header not found")
    block_response ← block_of value
    elim block_response [
      | regular format ↦ (do json_view ← json_form format; ok (block_into json_view, []))
      | with_cycles format cycles ↦ (do
        json_view ← json_form format
        ok (block_into json_view, Option.get_or cycles []))
    ])

  unfoldable pub decode_cell_by_out_point : JsonRpcResponse Value → Option ℕ → Outcome Text Cell
  decode_cell_by_out_point body output_index = do
    index ← ok_or output_index (msg "get_cell_by_out_point requires output_index")
    check_error body (do
      value ← ok_or body.result not_found
      tws ← transaction_of value
      tx_view ← ok_or tws.transaction null_field
      view ← json_form tx_view
      let tx = transaction_into view
      (output, data_bytes) ← do
        output ←
            ok_or (get_elem? tx.outputs index)
              (lit "output index " ∷ dec index ∷ lit " out of bounds" ∷ [])
        data_bytes ←
            ok_or (get_elem? tx.outputs_data index)
              (lit "outputs_data index " ∷ dec index ∷ lit " out of bounds" ∷ [])
        ok (output, data_bytes)
      ok (output, data_bytes, tws.block_hash))

  -- The calls take the counter `next_id` and return what it becomes.
  abbrev pub next_request_id : ℕ → ℕ
  next_request_id next_id = add_word next_id 1

  unfoldable pub get_transaction : ℕ → Text → RpcCall Value Transaction × ℕ
  unfolding decode_transaction
  get_transaction next_id tx_hash = (
    record {
      request = record {
        method = "get_transaction";
        params = string_value tx_hash ∷ string_value (msg "0x2") ∷ null_value ∷ [];
        id = next_id;
        output_index = none;
      };
      decode = decode_transaction;
    },
    next_request_id next_id,
  )

  -- The id is drawn only after the out point is serialised.
  pub get_live_cell : ℕ → OutPoint → Bool → Bool → Outcome Text (RpcCall Value CellWithStatus × ℕ)
  unfolding decode_live_cell
  get_live_cell next_id out_point with_data include_tx_pool = do
    value ← to_value out_point
    ok (
      record {
        request = record {
          method = "get_live_cell";
          params = value ∷ bool_value with_data ∷ bool_value include_tx_pool ∷ [];
          id = next_id;
          output_index = none;
        };
        decode = decode_live_cell;
      },
      next_request_id next_id,
    )

  unfoldable pub get_cell_by_out_point : ℕ → OutPoint → RpcCall Value Cell × ℕ
  unfolding decode_cell_by_out_point
  get_cell_by_out_point next_id out_point = (
    record {
      request = record {
        method = "get_transaction";
        params =
            string_value (lit "0x" ∷ hash_hex out_point.tx_hash ∷ [])
            ∷ string_value (msg "0x2")
            ∷ null_value
            ∷ [];
        id = next_id;
        output_index = some out_point.index;
      };
      decode = decode_cell_by_out_point;
    },
    next_request_id next_id,
  )

  unfoldable pub get_header : ℕ → Text → RpcCall Value HeaderView × ℕ
  unfolding decode_header
  get_header next_id block_hash = (
    record {
      request = record {
        method = "get_header";
        params = string_value block_hash ∷ string_value (msg "0x1") ∷ [];
        id = next_id;
        output_index = none;
      };
      decode = decode_header;
    },
    next_request_id next_id,
  )

  pub get_block : ℕ → Text → Bool → RpcCall Value (BlockView × List ℕ) × ℕ
  unfolding decode_block
  get_block next_id block_hash cycles_wanted = (
    record {
      request = record {
        method = "get_block";
        params = string_value block_hash ∷ string_value (msg "0x2") ∷ bool_value cycles_wanted ∷ [];
        id = next_id;
        output_index = none;
      };
      decode = decode_block;
    },
    next_request_id next_id,
  )

  pub get_block_by_number : ℕ → ℕ → Bool → RpcCall Value (BlockView × List ℕ) × ℕ
  unfolding decode_block
  get_block_by_number next_id block_number cycles_wanted = (
    record {
      request = record {
        method = "get_block_by_number";
        params =
            string_value (lit "0x" ∷ hex block_number ∷ [])
            ∷ string_value (msg "0x2")
            ∷ bool_value cycles_wanted
            ∷ [];
        id = next_id;
        output_index = none;
      };
      decode = decode_block;
    },
    next_request_id next_id,
  )
