-- ===== src/Host/Executor/Run.antt =====
-- The run of the host, from the answer of the node to the call of the prover.
use jolt_ncp.Base.{
  ℕ, ◌^◌, ◌≤◌, ◌≡◌, Bool, false, List, [], ◌∷◌, length, some, Outcome, ok, ◌>>=◌, bind_assoc,
  unwrap, Bytes, lookup, ltb,
}
use jolt_ncp.Chain.{OutPoint, Transaction, v2}
use jolt_ncp.Guest.Types as Guest
use jolt_ncp.Host.Types.{ScriptGroupTraces}
use jolt_ncp.Host.Errors.{Stop}
use jolt_ncp.Host.Pack.{to_guest}
use jolt_ncp.Host.Pack.Faithful.{AllCarry}
use jolt_ncp.Host.Text.{Text, chars}
use jolt_ncp.Host.Json.{Json}
use jolt_ncp.Host.Rpc.{get_transaction}
use jolt_ncp.Host.Batch.{exec}
use jolt_ncp.Host.Convert.{MockTransaction, tx_to_mock_tx}
use jolt_ncp.Host.Crates.{Crates}
use jolt_ncp.Host.Verifier.{
  VerifierGroupContext, VerifierGroupMetadata, from_mock_transaction_with_groups,
}
use jolt_ncp.Host.Executor.{
  Tracer, Prover, HostExecutor, with_prefix, accumulate_traces, total_input, execute, run,
}
use jolt_ncp.Host.Executor.Traces.{accumulate_traces-to_guest}

module _ (json : Json) (crates : Crates json.HeaderView) (tracer : Tracer crates) (prover : Prover)
    (out_points_of : Bytes → Outcome Text (List OutPoint)) (is_cellbase : Transaction → Bool)
    (raw_bytes : Transaction → Bytes) where
  -- The stages of a run before the loop over the script groups, each with its result.
  pub record Reaches (host : HostExecutor json.Value) (tx_hash : List ℕ) (tx : Transaction)
      (base : VerifierGroupContext crates) (groups : List VerifierGroupMetadata) : Type 0 where
    pub mock : MockTransaction json.HeaderView
    pub last_id : ℕ
    pub fetched :
        exec host.rpc_client
          (get_transaction json host.rpc_client.next_id (chars (with_prefix tx_hash) ∷ [])).0
        ≡ ok tx
    pub spending : is_cellbase tx ≡ false
    pub converted :
        tx_to_mock_tx json out_points_of is_cellbase
          (record host.rpc_client {
            next_id =
                (get_transaction json host.rpc_client.next_id (chars (with_prefix tx_hash) ∷ [])).1;
          })
          tx
        ≡ ok (mock, last_id)
    pub verified : from_mock_transaction_with_groups crates mock v2 ≡ ok (base, groups)

  -- When the node gives the transaction, it is no cellbase, its conversion and its verifier's
  -- context succeed, and the loop over at most 65536 script groups collects traces, the run is the
  -- call of the prover on what they are packed to, a context with the transaction's raw bytes in which each collected
  -- trace, in order, finds under its index the program that the table has under its code hash; the
  -- warning says whether that context's contents are longer than 2000000 bytes.
  pub run-packed :
      (host : HostExecutor json.Value) (tx_hash : List ℕ) (program : prover.Program)
      (tx : Transaction) (base : VerifierGroupContext crates) (groups : List VerifierGroupMetadata)
      (traces : List ScriptGroupTraces)
      → Reaches host tx_hash tx base groups
      → accumulate_traces crates tracer base groups ≡ ok traces
      → length groups ≤ 2 ^ 16
      → (g : Guest.TransactionProofContext) × (to_guest {E = Stop}
            (record { transaction = raw_bytes tx; vm_traces = traces })
          ≡ ok g)
        × (g.raw_transaction_bytes ≡ raw_bytes tx)
        × AllCarry g.machine_program_elfs
            (λ t. lookup t.code_hash base.cell_dep_data_hash_to_elf)
            traces
            g.vm_traces
        × (run json crates tracer prover out_points_of is_cellbase raw_bytes host tx_hash program
            ≡ (do
              proof ← unwrap (prover.prove program g)
              ok (
                  some (record {
                    exceeds_max_input_size = ltb 2000000 (total_input g);
                    proof = proof;
                  }))))
  unfolding run execute
  run-packed host tx_hash program tx base groups traces stages traced room =
      let (g, packed, kept_tx, carried) =
        accumulate_traces-to_guest crates tracer base groups traces (raw_bytes tx) traced room in
      (
        g,
        packed,
        kept_tx,
        carried,
        rw (stages.fetched, stages.spending, stages.converted, stages.verified, traced, packed)
            (bind_assoc (unwrap (prover.prove program g)) _ _),
      )
