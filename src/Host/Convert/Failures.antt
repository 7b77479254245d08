-- ===== src/Host/Convert/Failures.antt =====
-- The failures of the conversion: what the node does not have, and a group that does not parse.
use jolt_ncp.Base.{
  ℕ, ◌+◌, ◌<◌, ◌≡◌, refl, ap, ◌∙◌, List, [], ◌∷◌, ◌++◌, map, length, length-append, flat_map, arith,
  Outcome, ok, err, traverse, All, Bytes, word, Bool,
}
use jolt_ncp.Chain.{Byte32, OutPoint, CellDep, CellInput, Transaction}
use jolt_ncp.Host.Text.{Text, lit}
use jolt_ncp.Host.Errors.{
  HostError, cell_resolution_error, verification_error, header_resolution_error,
}
use jolt_ncp.Host.Json.{Json}
use jolt_ncp.Host.Rpc.{
  JsonRpcRequest, JsonRpcResponse, Cell, numbered, get_cell_by_out_point, get_header,
}
use jolt_ncp.Host.Batch.{RpcClient, exec_batch}
use jolt_ncp.Host.Convert.{
  cell_calls, header_call, group_out_points, mock_cell_deps, mock_header_deps, resolve_sub_cells,
  tx_to_mock_tx, resolved_inputs,
}
use jolt_ncp.Host.Convert.Calls.{exec_batch-fetch}
use jolt_ncp.Host.Convert.Ledger.{
  Ledger, main_ops, length-main_ops, traverse-groups, flat_map-map, n_calls,
}
use jolt_ncp.Host.Convert.Stages.{IsNode, tx_to_mock_tx-mains}
use jolt_ncp.Host.Convert.Correct.{cell_deps_expanded}

-- The first item on which a fallible body fails, and the error.
pub record FailsAt {E A B : Type 0} (f : A → Outcome E B) (xs : List A) (e : E) : Type 0 where
  pub before : List A
  pub item : A
  pub after : List A
  pub result : A → B
  pub split : xs ≡ before ++ (item ∷ after)
  pub passes : All (λ x. f x ≡ ok (result x)) before
  pub fails : f item ≡ err e

traverse-append_err :
    {E A B : Type 0} (f : A → Outcome E B) (g : A → B) (e : E) (xs : List A) (x : A) (ys : List A)
    → All (λ y. f y ≡ ok (g y)) xs
    → f x ≡ err e
    → traverse f (xs ++ (x ∷ ys)) ≡ err e
unfolding traverse
traverse-append_err f g e [] x ys h k = rw k refl
traverse-append_err f g e (y ∷ xs) x ys h k = rw (h.0, traverse-append_err f g e xs x ys h.1 k) refl

traverse-FailsAt :
    {E A B : Type 0} (f : A → Outcome E B) (xs : List A) (e : E)
    → FailsAt f xs e
    → traverse f xs ≡ err e
traverse-FailsAt f xs e h =
    ap (traverse f) h.split
    ∙ traverse-append_err f h.result e h.before h.item h.after h.passes h.fails

module _ (json : Json) (c : RpcClient json.Value) (ledger : Ledger json.HeaderView)
    (out_points_of : Bytes → Outcome Text (List OutPoint)) where
  open json use {Value, HeaderView}
  open ledger use {cell, header, members}

  -- The four ways to fail, each behind the stages that come before it.
  pub data Fails (fetch : OutPoint → Outcome Text Cell)
      (fetch_header : Byte32 → Outcome Text HeaderView) (ins : List CellInput) (tx : Transaction)
      : HostError → Type 0 where
    cell_missing :
        (e : Text)
        → FailsAt fetch (main_ops ins tx.cell_deps) e
        → Fails fetch fetch_header ins tx
            (cell_resolution_error (lit "Failed to resolve cells: " ∷ e))
    bad_group :
        (e : Text)
        → All (λ i. fetch i.previous_output ≡ ok (cell i.previous_output)) ins
        → All (λ d. fetch d.out_point ≡ ok (cell d.out_point)) tx.cell_deps
        → FailsAt
            (group_out_points out_points_of)
            (map (λ d. (d, cell d.out_point)) tx.cell_deps)
            (verification_error e)
        → Fails fetch fetch_header ins tx (verification_error e)
    member_missing :
        (e : Text)
        → All (λ i. fetch i.previous_output ≡ ok (cell i.previous_output)) ins
        → All (λ d. fetch d.out_point ≡ ok (cell d.out_point)) tx.cell_deps
        → All
            (λ d. group_out_points out_points_of (d, cell d.out_point) ≡ ok (members d))
            tx.cell_deps
        → FailsAt fetch (flat_map members tx.cell_deps) e
        → Fails fetch fetch_header ins tx (cell_resolution_error e)
    header_missing :
        (e : Text)
        → All (λ i. fetch i.previous_output ≡ ok (cell i.previous_output)) ins
        → All (λ d. fetch d.out_point ≡ ok (cell d.out_point)) tx.cell_deps
        → All
            (λ d. group_out_points out_points_of (d, cell d.out_point) ≡ ok (members d))
            tx.cell_deps
        → All (λ op. fetch op ≡ ok (cell op)) (flat_map members tx.cell_deps)
        → FailsAt fetch_header tx.header_deps e
        → Fails fetch fetch_header ins tx (header_resolution_error e)

  module _ {serve : JsonRpcRequest Value → JsonRpcResponse Value}
      {fetch : OutPoint → Outcome Text Cell} {fetch_header : Byte32 → Outcome Text HeaderView}
      (node : IsNode json c ledger out_points_of serve fetch fetch_header) where
    cells-FailsAt :
        (n : ℕ) (ops : List OutPoint) (e : Text)
        → n + length ops < word
        → FailsAt fetch ops e
        → exec_batch c (cell_calls json n ops).0 ≡ err e
    unfolding get_cell_by_out_point
    cells-FailsAt n ops e room h =
        exec_batch-fetch node.server (get_cell_by_out_point json) (λ k op. refl) (λ k op. refl)
          fetch node.cells n ops room
        ∙ traverse-FailsAt fetch ops e h

    headers-FailsAt :
        (n : ℕ) (hs : List Byte32) (e : Text)
        → n + length hs < word
        → FailsAt fetch_header hs e
        → mock_header_deps json c n hs ≡ err (header_resolution_error e)
    unfolding mock_header_deps get_header
    headers-FailsAt n [] e room h =
        absurd (omega (arith, ap length h.split, length-append h.before (h.item ∷ h.after)))
    headers-FailsAt n (h ∷ hs) e room fail =
        rw
          (exec_batch-fetch node.server (header_call json) (λ k a. refl) (λ k a. refl) fetch_header
              node.headers n (h ∷ hs) room
            ∙ traverse-FailsAt fetch_header (h ∷ hs) e fail)
          refl

    members-FailsAt :
        (n : ℕ) (deps : List CellDep) (ops : List OutPoint) (e : Text)
        → flat_map members deps ≡ ops
        → n + length ops < word
        → FailsAt fetch ops e
        → resolve_sub_cells json c n (map (λ d. (d, cell d.out_point)) deps) (map members deps)
          ≡ err (cell_resolution_error e)
    unfolding resolve_sub_cells numbered
    members-FailsAt n deps [] e same room h =
        absurd (omega (arith, ap length h.split, length-append h.before (h.item ∷ h.after)))
    members-FailsAt n deps (op ∷ ops) e same room h =
        rw (resolve_sub_cells, flat_map-map ledger deps, same, cells-FailsAt n (op ∷ ops) e room h)
          refl

    -- Against a node that answers each request by itself, and with room in the counter for the
    -- calls, the conversion fails with the error of the first cell that an input or a dependency
    -- names and the node does not have; or, where there is none, of the first group that does not
    -- parse; or, where there is none, of the first cell of a group that the node does not have;
    -- or, where there is none, of the first header that it does not have; each under the error
    -- kind of its stage.
    pub tx_to_mock_tx-Fails :
        (is_cellbase : Transaction → Bool) (tx : Transaction) (e : HostError)
        → c.next_id + n_calls members (resolved_inputs is_cellbase tx) tx < word
        → Fails fetch fetch_header (resolved_inputs is_cellbase tx) tx e
        → tx_to_mock_tx json out_points_of is_cellbase c tx ≡ err e
    unfolding tx_to_mock_tx mock_cell_deps
    tx_to_mock_tx-Fails is_cellbase tx e room (cell_missing t h) =
        rw
          (cells-FailsAt c.next_id (main_ops (resolved_inputs is_cellbase tx) tx.cell_deps) t
            (omega (arith, length-main_ops (resolved_inputs is_cellbase tx) tx.cell_deps)) h)
          refl
    tx_to_mock_tx-Fails is_cellbase tx e room (bad_group t hi hd h) =
        let ins = resolved_inputs is_cellbase tx in
        let n_ops = length-main_ops ins tx.cell_deps in
        let n = c.next_id + length (main_ops ins tx.cell_deps) in
        rw
          (
            tx_to_mock_tx-mains json c ledger out_points_of node is_cellbase tx
                (omega (arith, n_ops)) hi hd,
            traverse-FailsAt (group_out_points out_points_of)
                (map (λ d. (d, cell d.out_point)) tx.cell_deps) (verification_error t) h,
          )
          refl
    tx_to_mock_tx-Fails is_cellbase tx e room (member_missing t hi hd hg h) =
        let ins = resolved_inputs is_cellbase tx in
        let n_ops = length-main_ops ins tx.cell_deps in
        let n = c.next_id + length (main_ops ins tx.cell_deps) in
        rw
          (
            tx_to_mock_tx-mains json c ledger out_points_of node is_cellbase tx
                (omega (arith, n_ops)) hi hd,
            traverse-groups ledger out_points_of tx.cell_deps hg,
            members-FailsAt n tx.cell_deps (flat_map members tx.cell_deps) t refl
                (omega (arith, n_ops)) h,
          )
          refl
    tx_to_mock_tx-Fails is_cellbase tx e room (header_missing t hi hd hg hm h) =
        let ins = resolved_inputs is_cellbase tx in
        let n_ops = length-main_ops ins tx.cell_deps in
        let n = c.next_id + length (main_ops ins tx.cell_deps) in
        rw
          (
            tx_to_mock_tx-mains json c ledger out_points_of node is_cellbase tx
                (omega (arith, n_ops)) hi hd,
            cell_deps_expanded json c ledger out_points_of node n tx.cell_deps
                (omega (arith, n_ops)) hg hm,
            headers-FailsAt (n + length (flat_map members tx.cell_deps)) tx.header_deps t
                (omega (arith, n_ops)) h,
          )
          refl
