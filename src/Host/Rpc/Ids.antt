-- ===== src/Host/Rpc/Ids.antt =====
-- src/rpc_client.rs: the ids that the users of one client draw from its counter. The counter's
-- `fetch_add` is atomic, so the calls of several users make one sequence.
use jolt_ncp.Base.{
  ℕ, ◌%◌, ◌≤◌, ◌<◌, ◌≡◌, ◌≢◌, refl, Bool, List, [], ◌∷◌, length, All, All-map, ok, Outcome-cases,
  OnOk, inl, inr, arith, word, add_word,
}
use jolt_ncp.Chain.{OutPoint}
use jolt_ncp.Host.Text.{Text}
use jolt_ncp.Host.Json.{Json}
use jolt_ncp.Host.Rpc.{
  RpcCall, get_transaction, get_live_cell, get_cell_by_out_point, get_header, get_block,
  get_block_by_number,
}

module _ (json : Json) where
  open json use {Value, CellWithStatus}

  -- A call that is made at a value of the counter: its id, and the counter after it.
  pub data Draws (n : ℕ) : ℕ → ℕ → Type 0 where
    transaction :
        (tx_hash : Text)
        → Draws n (get_transaction json n tx_hash).0.request.id (get_transaction json n tx_hash).1
    live_cell :
        (out_point : OutPoint) (with_data include_tx_pool : Bool)
        (call : RpcCall Value CellWithStatus) (next : ℕ)
        → get_live_cell json n out_point with_data include_tx_pool ≡ ok (call, next)
        → Draws n call.request.id next
    cell :
        (out_point : OutPoint)
        → Draws n
            (get_cell_by_out_point json n out_point).0.request.id
            (get_cell_by_out_point json n out_point).1
    header :
        (block_hash : Text)
        → Draws n (get_header json n block_hash).0.request.id (get_header json n block_hash).1
    block :
        (block_hash : Text) (cycles_wanted : Bool)
        → Draws n
            (get_block json n block_hash cycles_wanted).0.request.id
            (get_block json n block_hash cycles_wanted).1
    block_by_number :
        (block_number : ℕ) (cycles_wanted : Bool)
        → Draws n
            (get_block_by_number json n block_number cycles_wanted).0.request.id
            (get_block_by_number json n block_number cycles_wanted).1

  -- The ids that were drawn from a new client's counter, the last first, and the counter after them.
  pub data Drawn : List ℕ → ℕ → Type 0 where
    new_client : Drawn [] 0
    then : {ids : List ℕ} {n id next : ℕ} → Drawn ids n → Draws n id next → Drawn (id ∷ ids) next

  live_cell-draws :
      (n : ℕ) (out_point : OutPoint) (with_data include_tx_pool : Bool)
      → OnOk
          (λ x. (x.0.request.id ≡ n) × (x.1 ≡ add_word n 1))
          (get_live_cell json n out_point with_data include_tx_pool)
  unfolding get_live_cell
  live_cell-draws n out_point with_data include_tx_pool =
      elim (Outcome-cases (json.to_value out_point)) [
        | inl (value, fine) ↦ rw fine (refl, refl)
        | inr (inl (e, failed)) ↦ rw failed tt
        | inr (inr stuck) ↦ rw stuck tt
      ]

  -- Every call takes the counter's value, and moves it by one.
  Draws-next : {n id next : ℕ} → Draws n id next → (id ≡ n) × (next ≡ add_word n 1)
  unfolding get_transaction get_cell_by_out_point get_header get_block get_block_by_number
  Draws-next (transaction h) = (refl, refl)
  Draws-next {n} (live_cell op d p call next made) = rw made at (live_cell-draws n op d p)
  Draws-next (cell op) = (refl, refl)
  Draws-next (header h) = (refl, refl)
  Draws-next (block h c) = (refl, refl)
  Draws-next (block_by_number k c) = (refl, refl)

-- No element of a list is another of it.
abbrev pub AllDistinct : List ℕ → Type 0
AllDistinct [] = Unit
AllDistinct (id ∷ ids) = All (λ other. id ≢ other) ids × AllDistinct ids

record Fresh (ids : List ℕ) (n : ℕ) : Type 0 where
  counted : n ≡ length ids % word
  below : All (λ id. id < length ids) ids
  distinct : AllDistinct ids

above_all : (n : ℕ) (ids : List ℕ) → All (λ id. id < n) ids → All (λ other. n ≢ other) ids
above_all n ids low = All-map ids (λ id small same. omega (arith, small, same)) low

Fresh-next :
    (ids : List ℕ) (n id next : ℕ)
    → length ids < word
    → Fresh ids n
    → id ≡ n
    → next ≡ add_word n 1
    → Fresh (id ∷ ids) next
Fresh-next ids n id next room fresh drawn moved =
    let at : id ≡ length ids = omega (arith, drawn, fresh.counted, room) in
    record {
      counted = omega (arith, moved, fresh.counted, room);
      below = (omega (arith, at), All-map ids (λ i small. omega (arith, small)) fresh.below);
      distinct = (rw at (above_all (length ids) ids fresh.below), fresh.distinct);
    }

module _ (json : Json) where
  Drawn-Fresh : {ids : List ℕ} {n : ℕ} → length ids ≤ word → Drawn json ids n → Fresh ids n
  Drawn-Fresh room new_client = record { counted = omega arith; below = tt; distinct = tt }
  Drawn-Fresh room (then {ids} {n} {id} {next} drawn draws) =
      let (took, moved) = Draws-next json draws in
      Fresh-next ids n id next (omega (arith, room)) (Drawn-Fresh (omega (arith, room)) drawn) took
        moved

  -- The ids of up to 2^64 calls of any kind that draw from one new client's counter, in any
  -- sequence, are distinct, and the counter is the number of these calls modulo 2^64.
  pub Drawn-AllDistinct :
      {ids : List ℕ} {n : ℕ}
      → length ids ≤ word
      → Drawn json ids n
      → AllDistinct ids × (n ≡ length ids % word)
  Drawn-AllDistinct room drawn =
      let fresh = Drawn-Fresh room drawn in (fresh.distinct, fresh.counted)
