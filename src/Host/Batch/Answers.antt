-- ===== src/Host/Batch/Answers.antt =====
-- The answers to a batch and their order.
use mathlib.Core.Path.{fun_ext}
use jolt_ncp.Base.{
  ℕ, ◌≡◌, ◌≢◌, refl, ap, sym, ◌∙◌, List, false, [], ◌∷◌, map, foldl, Option, none, some, arith,
  Outcome, ok, ◌>>=◌, ok_or, traverse, lookup, insert, without, lookup-insert, lookup-without, ◌==◌,
  if◌then◌else◌, All,
}
use jolt_ncp.Host.Text.{Text, msg}
use jolt_ncp.Host.Rpc.{JsonRpcResponse, RpcCall}
use jolt_ncp.Host.Batch.{by_id, take_answers, RpcClient, exec_batch}

module _ {V : Type 0} where
  -- The last response with an id.
  unfoldable pub last_with : ℕ → List (JsonRpcResponse V) → Option (JsonRpcResponse V)
  last_with i [] = none
  last_with i (r ∷ rs) =
      let rest = last_with i rs in
      elim rest [ some found ↦ some found | none ↦ if r.id == i then some r else none ]

  lookup-inserts :
      (i : ℕ) (m : List (ℕ × JsonRpcResponse V)) (rs : List (JsonRpcResponse V))
      → lookup i (foldl (λ n r. insert r.id r n) m rs)
        ≡ elim (last_with i rs) [ some found ↦ some found | none ↦ lookup i m ]
  unfolding last_with
  lookup-inserts i m [] = refl
  lookup-inserts i m (r ∷ rs) =
      ground (arith, lookup-inserts i (insert r.id r m) rs, lookup-insert r.id i r m)

  -- The map of a batch holds, under an id, the last response with it.
  pub lookup-by_id : (i : ℕ) (rs : List (JsonRpcResponse V)) → lookup i (by_id rs) ≡ last_with i rs
  unfolding by_id lookup
  lookup-by_id i rs = lookup-inserts i [] rs ∙ ground arith

module _ {V T : Type 0} where
  -- No two calls have one id.
  abbrev pub HasDistinctIds : List (RpcCall V T) → Type 0
  HasDistinctIds [] = Unit
  HasDistinctIds (c ∷ cs) = All (λ d. c.request.id ≢ d.request.id) cs × HasDistinctIds cs

  -- What a call makes of a response to it.
  abbrev pub decoded : Option (JsonRpcResponse V) → RpcCall V T → Outcome Text T
  decoded found call = do
    resp ← ok_or found (msg "missing RPC response in batch")
    call.decode resp call.request.output_index

  traverse-without :
      (k : ℕ) (m : List (ℕ × JsonRpcResponse V)) (calls : List (RpcCall V T))
      → All (λ d. k ≢ d.request.id) calls
      → traverse (λ c. decoded (lookup c.request.id (without k m)) c) calls
        ≡ traverse (λ c. decoded (lookup c.request.id m) c) calls
  unfolding traverse
  traverse-without k m [] h = refl
  traverse-without k m (c ∷ cs) h =
      let other : (k == c.request.id) ≡ false = ground (arith, h.0) in
      rw (lookup-without k c.request.id m, other, traverse-without k m cs h.1)

  take_answers-traverse :
      (m : List (ℕ × JsonRpcResponse V)) (calls : List (RpcCall V T))
      → HasDistinctIds calls
      → take_answers m calls ≡ traverse (λ c. decoded (lookup c.request.id m) c) calls
  unfolding take_answers traverse
  take_answers-traverse m [] h = refl
  take_answers-traverse m (c ∷ cs) h = ground (
    arith,
    take_answers-traverse (without c.request.id m) cs h.1,
    traverse-without c.request.id m cs h.0,
  )

  -- A batch of calls with distinct ids, whose post succeeds, gives for each call in order the
  -- decoding of the last response with that call's id; a call without a response, or whose
  -- decoding fails, fails the batch, the first such call deciding the error.
  pub exec_batch-last_with :
      (c : RpcClient V) (calls : List (RpcCall V T)) (rs : List (JsonRpcResponse V))
      → HasDistinctIds calls
      → c.client.post_batch c.rpc_url (map (λ k. k.request) calls) ≡ ok rs
      → exec_batch c calls ≡ traverse (λ k. decoded (last_with k.request.id rs) k) calls
  unfolding exec_batch
  exec_batch-last_with c [] rs h e = unfold traverse in refl
  exec_batch-last_with c (k ∷ ks) rs h e = rw e (
      take_answers-traverse (by_id rs) (k ∷ ks) h
      ∙ ap (λ (f : RpcCall V T → Outcome Text T). traverse f (k ∷ ks))
          (fun_ext λ d. ap (λ o. decoded o d) (lookup-by_id d.request.id rs)))

  -- Two servers whose answers have, for each id, the same last response, in whatever order, give a
  -- batch of calls with distinct ids the same result.
  pub exec_batch_any_order :
      (c d : RpcClient V) (calls : List (RpcCall V T)) (rs qs : List (JsonRpcResponse V))
      → HasDistinctIds calls
      → c.client.post_batch c.rpc_url (map (λ k. k.request) calls) ≡ ok rs
      → d.client.post_batch d.rpc_url (map (λ k. k.request) calls) ≡ ok qs
      → ((i : ℕ) → last_with i rs ≡ last_with i qs)
      → exec_batch c calls ≡ exec_batch d calls
  exec_batch_any_order c d calls rs qs h e f same =
      exec_batch-last_with c calls rs h e
      ∙ ap (λ (g : RpcCall V T → Outcome Text T). traverse g calls)
          (fun_ext λ k. ap (λ o. decoded o k) (same k.request.id))
      ∙ sym (exec_batch-last_with d calls qs h f)
