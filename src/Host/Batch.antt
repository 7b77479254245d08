-- ===== src/Host/Batch.antt =====
-- src/rpc_client.rs: the client, and running calls, one by one or in a batch.
pub mod Answers
pub mod Address
mod Examples
use jolt_ncp.Base.{
  ℕ, List, [], ◌∷◌, map, ◌++◌, foldl, Option, none, some, Outcome, ok, err, ◌>>=◌, ok_or, lookup,
  insert, without, ◌==◌, if◌then◌else◌,
}
use jolt_ncp.Host.Text.{Text, msg, codes}
use jolt_ncp.Host.Rpc.{JsonRpcRequest, JsonRpcResponse, RpcCall}

-- A URL as its code points. `trim_end_matches('/')` drops the slashes at the end.
unfoldable pub trim_slashes : List ℕ → List ℕ
trim_slashes [] = []
trim_slashes (c ∷ cs) = elim (trim_slashes cs) [
  | [] ↦ if c == b'/' then [] else c ∷ []
  | d ∷ ds ↦ c ∷ d ∷ ds
]

-- The blocking HTTP client: it posts one request or a batch to a URL and reads the answer as JSON.
pub record Network (V : Type 0) : Type 0 where
  pub post : List ℕ → JsonRpcRequest V → Outcome Text (JsonRpcResponse V)
  pub post_batch : List ℕ → List (JsonRpcRequest V) → Outcome Text (List (JsonRpcResponse V))

pub record RpcClient (V : Type 0) : Type 0 where
  pub client : Network V
  pub rpc_url : List ℕ
  pub next_id : ℕ

abbrev pub default_rpc_url_mainnet : List ℕ
default_rpc_url_mainnet = codes "https://mainnet.ckb.dev"

abbrev pub default_rpc_url_testnet : List ℕ
default_rpc_url_testnet = codes "https://testnet.ckb.dev"

abbrev pub default_rpc_timeout_seconds : ℕ
default_rpc_timeout_seconds = 30

-- `by_id`: a later response with the id of an earlier one replaces it.
unfoldable pub by_id : {V : Type 0} → List (JsonRpcResponse V) → List (ℕ × JsonRpcResponse V)
by_id responses = foldl (λ m r. insert r.id r m) [] responses

module _ {V T : Type 0} where
  unfoldable pub exec : RpcClient V → RpcCall V T → Outcome Text T
  exec c call = do
    raw ← c.client.post c.rpc_url call.request
    call.decode raw call.request.output_index

  -- The loop that takes each call's response out of the map and decodes it.
  unfoldable pub take_answers :
      List (ℕ × JsonRpcResponse V) → List (RpcCall V T) → Outcome Text (List T)
  take_answers m [] = ok []
  take_answers m (call ∷ calls) = do
    resp ← ok_or (lookup call.request.id m) (msg "missing RPC response in batch")
    out ← call.decode resp call.request.output_index
    outs ← take_answers (without call.request.id m) calls
    ok (out ∷ outs)

  unfoldable pub exec_batch : RpcClient V → List (RpcCall V T) → Outcome Text (List T)
  exec_batch c [] = ok []
  exec_batch c (call ∷ calls) = do
    responses ← c.client.post_batch c.rpc_url (map (λ k. k.request) (call ∷ calls))
    take_answers (by_id responses) (call ∷ calls)

-- `Client::builder().timeout(…).build()` is a parameter.
unfoldable pub new :
    {V : Type 0} → (ℕ → Outcome Text (Network V)) → List ℕ → ℕ → Outcome Text (RpcClient V)
unfolding trim_slashes
new build rpc_url timeout = do
  client ← build timeout
  ok (record { client = client; rpc_url = trim_slashes rpc_url ++ b'/' ∷ []; next_id = 0 })

abbrev pub default : {V : Type 0} → (ℕ → Outcome Text (Network V)) → Outcome Text (RpcClient V)
default build = new build default_rpc_url_mainnet default_rpc_timeout_seconds
