-- ===== src/Host/Convert/Calls.antt =====
-- The ids of a loop's calls, and the answers of a server that answers each request by itself.
use jolt_ncp.Base.{
  ℕ, suc, ◌+◌, ◌<◌, ◌≡◌, ◌≢◌, refl, ◌∙◌, List, [], ◌∷◌, map, length, none, some, arith, Outcome, ok,
  traverse, word, add_word, All, ◌==◌, true, false, All-map,
}
use jolt_ncp.Host.Text.{Text}
use jolt_ncp.Host.Rpc.{JsonRpcRequest, JsonRpcResponse, RpcCall, numbered}
use jolt_ncp.Host.Batch.{RpcClient, exec_batch}
use jolt_ncp.Host.Batch.Answers.{last_with, HasDistinctIds, decoded, exec_batch-last_with}

-- A server that answers each request by itself and in any order.
pub record IsServer (V : Type 0) (c : RpcClient V) (serve : JsonRpcRequest V → JsonRpcResponse V)
    : Type 0 where
  pub serve_id : (r : JsonRpcRequest V) → (serve r).id ≡ r.id
  pub batch :
      (reqs : List (JsonRpcRequest V))
      → (rs : List (JsonRpcResponse V)) × (c.client.post_batch c.rpc_url reqs ≡ ok rs)
        × ((i : ℕ) → last_with i rs ≡ last_with i (map serve reqs))

module _ {V T A : Type 0} (make : ℕ → A → RpcCall V T × ℕ)
    (id_lem : (n : ℕ) (a : A) → (make n a).0.request.id ≡ n)
    (next_lem : (n : ℕ) (a : A) → (make n a).1 ≡ add_word n 1) where
  -- The counter moves on by the number of calls.
  pub numbered_counter :
      (n : ℕ) (xs : List A) → n + length xs < word → (numbered make n xs).1 ≡ n + length xs
  unfolding numbered
  numbered_counter n [] h = omega arith
  numbered_counter n (x ∷ xs) h =
      let e : (make n x).1 ≡ suc n = omega (arith, next_lem n x) in
      rw e (omega (arith, numbered_counter (suc n) xs (omega arith)))

  numbered_ids :
      (n k : ℕ) (xs : List A)
      → k < n
      → n + length xs < word
      → All (λ (d : RpcCall V T). k ≢ d.request.id) (numbered make n xs).0
  unfolding numbered
  numbered_ids n k [] l h = tt
  numbered_ids n k (x ∷ xs) l h =
      let e : (make n x).1 ≡ suc n = omega (arith, next_lem n x) in
      ((omega (arith, id_lem n x)), rw e (numbered_ids (suc n) k xs (omega arith) (omega arith)))

  -- The ids that a loop draws are distinct, as long as the counter does not wrap.
  pub numbered-HasDistinctIds :
      (n : ℕ) (xs : List A) → n + length xs < word → HasDistinctIds (numbered make n xs).0
  unfolding numbered
  numbered-HasDistinctIds n [] h = tt
  numbered-HasDistinctIds n (x ∷ xs) h =
      let e : (make n x).1 ≡ suc n = omega (arith, next_lem n x) in
      (
        rw (id_lem n x, e) (numbered_ids (suc n) n xs (omega arith) (omega arith)),
        rw e (numbered-HasDistinctIds (suc n) xs (omega arith)),
      )

module _ {V T : Type 0} {c : RpcClient V} {serve : JsonRpcRequest V → JsonRpcResponse V}
    (server : IsServer V c serve) where
  unanswered :
      (k : ℕ) (calls : List (RpcCall V T))
      → All (λ d. k ≢ d.request.id) calls
      → last_with k (map serve (map (λ d. d.request) calls)) ≡ none
  unfolding last_with
  unanswered k [] h = refl
  unanswered k (d ∷ ds) h =
      let other : ((serve d.request).id == k) ≡ false =
        ground (arith, server.serve_id d.request, h.0) in
      rw (unanswered k ds h.1, other)

  answered :
      (calls : List (RpcCall V T))
      → HasDistinctIds calls
      → All
          (λ d.
            last_with d.request.id (map serve (map (λ e. e.request) calls))
            ≡ some (serve d.request))
          calls
  unfolding last_with
  answered [] h = tt
  answered (d ∷ ds) h =
      let self : ((serve d.request).id == d.request.id) ≡ true =
        ground (arith, server.serve_id d.request) in
      (
        rw (unanswered d.request.id ds h.0, self),
        All-map
            {P = λ e.
              last_with e.request.id (map serve (map (λ k. k.request) ds)) ≡ some (serve e.request)}
            {Q = λ e.
              last_with e.request.id (map serve (map (λ k. k.request) (d ∷ ds)))
              ≡ some (serve e.request)}
            ds (λ e found. rw found) (answered ds h.1),
      )

  traverse-served :
      (rs : List (JsonRpcResponse V)) (calls : List (RpcCall V T))
      → All (λ d. last_with d.request.id rs ≡ some (serve d.request)) calls
      → traverse (λ d. decoded (last_with d.request.id rs) d) calls
        ≡ traverse (λ d. d.decode (serve d.request) d.request.output_index) calls
  unfolding traverse
  traverse-served rs [] h = refl
  traverse-served rs (d ∷ ds) h = rw (h.0, traverse-served rs ds h.1)

module _ {V T A : Type 0} {c : RpcClient V} {serve : JsonRpcRequest V → JsonRpcResponse V}
    (server : IsServer V c serve) (make : ℕ → A → RpcCall V T × ℕ)
    (id_lem : (n : ℕ) (a : A) → (make n a).0.request.id ≡ n)
    (next_lem : (n : ℕ) (a : A) → (make n a).1 ≡ add_word n 1) (fetch : A → Outcome Text T)
    (fetched : (n : ℕ) (a : A)
      → (make n a).0.decode (serve (make n a).0.request) (make n a).0.request.output_index
        ≡ fetch a) where
  traverse-fetched :
      (n : ℕ) (xs : List A)
      → traverse (λ d. d.decode (serve d.request) d.request.output_index) (numbered make n xs).0
        ≡ traverse fetch xs
  unfolding traverse numbered
  traverse-fetched n [] = refl
  traverse-fetched n (x ∷ xs) = rw (fetched n x, traverse-fetched (make n x).1 xs)

  -- Against a server that answers each request by itself, in any order, a batch of calls that drew
  -- their ids from a counter which does not wrap gives what the server holds for each item, in the
  -- order of the items, or the error of the first item that fails.
  pub exec_batch-fetch :
      (n : ℕ) (xs : List A)
      → n + length xs < word
      → exec_batch c (numbered make n xs).0 ≡ traverse fetch xs
  exec_batch-fetch n xs room =
      let calls = (numbered make n xs).0 in
      let distinct = numbered-HasDistinctIds make id_lem next_lem n xs room in
      let (rs, posted, same) = server.batch (map (λ k. k.request) calls) in
      exec_batch-last_with c calls rs distinct posted
      ∙ traverse-served server rs calls (
          All-map
            {P = λ e.
              last_with e.request.id (map serve (map (λ k. k.request) calls))
              ≡ some (serve e.request)}
            {Q = λ e. last_with e.request.id rs ≡ some (serve e.request)} calls
            (λ e found. same e.request.id ∙ found) (answered server calls distinct))
      ∙ traverse-fetched n xs
