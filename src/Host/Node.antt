-- ===== src/Host/Node.antt =====
-- A concrete node for the tests: its answers carry a hash, transaction `h` has one output whose data
-- is the byte `h + 1`, and header `h` is `h` itself.
use jolt_ncp.Base.{
  ℕ, ◌+◌, Bool, List, [], ◌∷◌, map, Option, none, some, Outcome, ok, err, panic, ◌++◌,
}
use jolt_ncp.Chain.{Script, Transaction, code}
use jolt_ncp.Host.Text.{hash_hex, Text, msg, chars}
use jolt_ncp.Host.Json.{Json, left, regular}
use jolt_ncp.Host.Rpc.{JsonRpcRequest, JsonRpcResponse}
use jolt_ncp.Host.Batch.{Network, RpcClient}

pub data Value : Type 0 where
  text_value : Text → Value
  flag : Bool → Value
  nothing : Value
  known : ℕ → Value

-- The number in an answer.
abbrev number_of : Value → Outcome Text ℕ
number_of (text_value _) = err (msg "a text")
number_of (flag _) = err (msg "a flag")
number_of nothing = err (msg "null")
number_of (known h) = ok h

abbrev pub some_script : Script
some_script = record { code_hash = 1; hash_type = 1; args = [] }

abbrev pub transaction_at : ℕ → Transaction
transaction_at h = record {
  inputs = [];
  cell_deps = record { out_point = record { tx_hash = 80; index = 0 }; dep_type = code } ∷ [];
  header_deps = [];
  outputs = record { capacity = h; lock_script = some_script; type_ = none } ∷ [];
  outputs_data = ((h + 1) ∷ []) ∷ [];
}

abbrev pub with_number : {A : Type 0} → Value → (ℕ → A) → Outcome Text A
with_number v f = elim (number_of v) [ ok h ↦ ok (f h) | err e ↦ err e | panic ↦ err (msg "none") ]

abbrev pub node_json : Json
node_json = record {
  Value = Value;
  JsonTransaction = Transaction;
  JsonHeader = ℕ;
  JsonBlock = ℕ;
  CellWithStatus = ℕ;
  HeaderView = ℕ;
  BlockView = ℕ;
  string_value = text_value;
  bool_value = flag;
  null_value = nothing;
  to_value = λ op. ok (known op.tx_hash);
  transaction_of = λ v.
      with_number v
        (λ h. record { transaction = some (left (transaction_at h)); block_hash = some h });
  cell_of = number_of;
  header_of = λ v. with_number v (λ h. some (left h));
  block_of = λ v. with_number v (λ h. regular (left h));
  transaction_into = λ tx. tx;
  header_into = λ h. h;
  block_into = λ h. h;
}

-- The hash that the first parameter of a request spells.
abbrev asked : List Value → Option Value
asked [] = none
asked (text_value (p ∷ hash_hex h ∷ rest) ∷ vs) = some (known h)
asked (text_value (chars (a ∷ b ∷ c ∷ cs) ∷ []) ∷ vs) = some (known c)
asked (v ∷ vs) = none

abbrev pub serve : JsonRpcRequest Value → JsonRpcResponse Value
serve req = record { id = req.id; result = asked req.params; error = none }

abbrev pub reversed : {A : Type 0} → List A → List A
reversed [] = []
reversed (x ∷ xs) = reversed xs ++ x ∷ []

abbrev pub network : Network Value
network = record { post = λ url r. ok (serve r); post_batch = λ url rs. ok (map serve rs) }

-- The same node, answering a batch from its end.
abbrev pub backwards : Network Value
backwards = record {
  post = λ url r. ok (serve r);
  post_batch = λ url rs. ok (reversed (map serve rs));
}

abbrev pub node_client : RpcClient Value
node_client = record { client = network; rpc_url = []; next_id = 3 }
