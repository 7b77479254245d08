-- ===== src/Host/Json.antt =====
-- The crates serde_json, ckb-jsonrpc-types and reqwest, as far as the client calls them: JSON
-- values, the conversions between them and the chain's types, and the HTTP transport.
use jolt_ncp.Base.{ℕ, Bool, List, Option, Outcome, Bytes}
use jolt_ncp.Chain.{OutPoint, Transaction, Byte32}
use jolt_ncp.Host.Text.{Text}

-- `Either` of ckb-jsonrpc-types: the JSON form or the hex form of an answer.
pub data Either (A : Type 0) : Type 0 where
  left : A → Either A
  right : Bytes → Either A

-- The fields of `TransactionWithStatusResponse` that are read; `A` is the JSON transaction.
pub record TransactionWithStatus (A : Type 0) : Type 0 where
  pub transaction : Option (Either A)
  pub block_hash : Option Byte32

-- `BlockResponse`
pub data BlockResponse (A : Type 0) : Type 0 where
  regular : Either A → BlockResponse A
  with_cycles : Either A → Option (List ℕ) → BlockResponse A

pub record Json : Type 1 where
  pub Value : Type 0
  pub JsonTransaction : Type 0
  pub JsonHeader : Type 0
  pub JsonBlock : Type 0
  pub CellWithStatus : Type 0
  pub HeaderView : Type 0
  pub BlockView : Type 0
  pub string_value : Text → Value
  pub bool_value : Bool → Value
  pub null_value : Value
  pub to_value : OutPoint → Outcome Text Value
  pub transaction_of : Value → Outcome Text (TransactionWithStatus JsonTransaction)
  pub cell_of : Value → Outcome Text CellWithStatus
  pub header_of : Value → Outcome Text (Option (Either JsonHeader))
  pub block_of : Value → Outcome Text (BlockResponse JsonBlock)
  pub transaction_into : JsonTransaction → Transaction
  pub header_into : JsonHeader → HeaderView
  pub block_into : JsonBlock → BlockView
