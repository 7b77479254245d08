-- ===== src/Host/Cli/Returns.antt =====
-- The whole program, where nothing is missing.
use jolt_ncp.Base.{
  ℕ, ◌+◌, ◌^◌, ◌<◌, ◌≤◌, ◌≡◌, Bool, false, List, [], ◌∷◌, map, flat_map, length, some, Outcome, ok,
  ltb, All, Bytes, word,
}
use jolt_ncp.Chain.{Byte32, OutPoint, Transaction, v2}
use jolt_ncp.Guest.Types as Guest
use jolt_ncp.Host.Text.{Text, chars}
use jolt_ncp.Host.Errors.{Stop}
use jolt_ncp.Host.Pack.{to_guest}
use jolt_ncp.Host.Json.{Json}
use jolt_ncp.Host.Rpc.{JsonRpcRequest, JsonRpcResponse, Cell, get_transaction}
use jolt_ncp.Host.Batch.{Network, exec}
use jolt_ncp.Host.Convert.{MockTransaction}
use jolt_ncp.Host.Convert.Layout.{expanded, input_with}
use jolt_ncp.Host.Convert.Ledger.{spent, Ledger, n_calls}
use jolt_ncp.Host.Convert.Stages.{IsNode, IsKnown}
use jolt_ncp.Host.Convert.Correct.{tx_to_mock_tx-mock}
use jolt_ncp.Host.Crates.{Crates}
use jolt_ncp.Host.Verifier.{
  VerifierGroupContext, VerifierGroupMetadata, from_mock_transaction_with_groups,
}
use jolt_ncp.Host.Executor.{
  CollectorResult, Tracer, Prover, HostExecutor, Execution, new_executor, run, with_prefix,
  total_input,
}
use jolt_ncp.Host.Executor.Traces.{kept, trace_of, Traced, accumulate_traces-kept}
use jolt_ncp.Host.Executor.Run.{Reaches, run-packed}
use jolt_ncp.Host.Executor.Failures.{later}
use jolt_ncp.Host.Cli.{HostArgs, returns, as_config, main}

module _ {H : Type 0} (ledger : Ledger H) (is_cellbase : Transaction → Bool) where
  open ledger use {cell, header, members}

  -- The mock transaction over a ledger.
  abbrev pub mock_of : Transaction → MockTransaction H
  mock_of tx = record {
    inputs = map (input_with cell) (spent is_cellbase tx);
    cell_deps = flat_map (expanded cell members) tx.cell_deps;
    header_deps = map header tx.header_deps;
    tx = tx;
  }

module _ (json : Json) (crates : Crates json.HeaderView) (tracer : Tracer crates) (prover : Prover)
    (out_points_of : Bytes → Outcome Text (List OutPoint)) (is_cellbase : Transaction → Bool)
    (raw_bytes : Transaction → Bytes) (ledger : Ledger json.HeaderView) where
  -- What a run needs of the node, the verifier, the tracer and the prover.
  pub record IsComplete (host : HostExecutor json.Value) (tx_hash : List ℕ)
      (program : prover.Program) : Type 0 where
    pub serve : JsonRpcRequest json.Value → JsonRpcResponse json.Value
    pub fetch : OutPoint → Outcome Text Cell
    pub fetch_header : Byte32 → Outcome Text json.HeaderView
    pub tx : Transaction
    pub base : VerifierGroupContext crates
    pub groups : List VerifierGroupMetadata
    pub collected : VerifierGroupMetadata → CollectorResult tracer.Locator tracer.Syscalls
    pub elf : VerifierGroupMetadata → Bytes
    pub proof : prover.Proof
    pub node : IsNode json (later json host tx_hash) ledger out_points_of serve fetch fetch_header
    pub fetched :
        exec host.rpc_client
          (get_transaction json host.rpc_client.next_id (chars (with_prefix tx_hash) ∷ [])).0
        ≡ ok tx
    pub spending : is_cellbase tx ≡ false
    pub room :
        (later json host tx_hash).next_id + n_calls ledger.members (spent is_cellbase tx) tx < word
    pub known :
        IsKnown json
          (later json host tx_hash)
          ledger
          out_points_of
          fetch
          fetch_header
          (spent is_cellbase tx)
          tx
    pub verified :
        from_mock_transaction_with_groups crates (mock_of ledger is_cellbase tx) v2
        ≡ ok (base, groups)
    pub few : length groups ≤ 2 ^ 16
    pub traced : All (Traced crates tracer base collected elf) (kept crates tracer base groups)
    -- the prover accepts the input of this run
    pub proves :
        (g : Guest.TransactionProofContext)
        → to_guest {E = Stop} (record {
          transaction = raw_bytes tx;
          vm_traces =
              map (trace_of crates tracer base collected elf) (kept crates tracer base groups);
        })
          ≡ ok g
        → prover.prove program g ≡ ok proof

  module _ (host : HostExecutor json.Value) (tx_hash : List ℕ) (program : prover.Program)
      (complete : IsComplete host tx_hash program) where
    open complete use {tx, base, groups, collected, elf, proof}

    pub complete-Reaches :
        Reaches json crates tracer prover out_points_of is_cellbase raw_bytes host tx_hash tx base
          groups
    complete-Reaches = record {
      mock = mock_of ledger is_cellbase tx;
      last_id =
          (later json host tx_hash).next_id + n_calls ledger.members (spent is_cellbase tx) tx;
      fetched = complete.fetched;
      spending = complete.spending;
      converted =
          tx_to_mock_tx-mock json (later json host tx_hash) ledger out_points_of complete.node
            is_cellbase tx complete.room complete.known;
      verified = complete.verified;
    }

    complete_run :
        (execution : Execution prover.Proof) × (run json crates tracer prover out_points_of
            is_cellbase raw_bytes host tx_hash program
          ≡ ok (some execution))
    complete_run =
        let (g, packed, kept_tx, carried, ran) =
          run-packed json crates tracer prover out_points_of is_cellbase raw_bytes host tx_hash
            program tx base groups
            (map (trace_of crates tracer base collected elf) (kept crates tracer base groups))
            complete-Reaches
            (accumulate_traces-kept crates tracer base collected elf groups complete.traced)
            complete.few in
        (
          record { exceeds_max_input_size = ltb 2000000 (total_input g); proof = proof },
          rw (complete.proves g packed) at ran,
        )

  -- With a transaction's hash among the arguments and a client that is created, where the node
  -- answers each request by itself and gives the transaction, which is no cellbase, and every cell
  -- and header that it needs, every group's data parses, the counter has room for the calls, the
  -- verifier's context of that mock transaction succeeds with at most 65536 script groups, the
  -- tracer succeeds on every group but those of the built-in Type ID script, the programs of these
  -- are in the table, and the prover succeeds on the input that the traces are packed to, the
  -- program returns.
  pub main-returns :
      (build : ℕ → Outcome Text (Network json.Value)) (program : prover.Program) (args : HostArgs)
      (host : HostExecutor json.Value) (tx_hash : List ℕ)
      → args.tx_hash ≡ some tx_hash
      → new_executor build (as_config args) ≡ ok host
      → IsComplete host tx_hash program
      → main json crates tracer prover out_points_of is_cellbase raw_bytes build program args
        ≡ returns
  unfolding main
  main-returns build program args host tx_hash given created complete =
      let (execution, ran) = complete_run host tx_hash program complete in cc
