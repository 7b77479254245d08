-- ===== src/Host/Executor/Failures.antt =====
-- How a run of the host ends without a proof.
use jolt_ncp.Base.{
  ℕ, ◌≡◌, refl, ◌⊎◌, inl, inr, Bool, false, List, [], ◌∷◌, Outcome, ok, err, panic, Bytes,
  Bool-cases, sym, ◌∙◌, ◌≢◌, ◌+◌, ◌<◌, word, Outcome-cases,
}
use jolt_ncp.Chain.{Byte32, OutPoint, Transaction, v2}
use jolt_ncp.Host.Types.{ScriptGroupTraces}
use jolt_ncp.Host.Pack.{to_guest}
use jolt_ncp.Host.Pack.Total.{to_guest-error}
use jolt_ncp.Host.Executor.Run.{Reaches}
use jolt_ncp.Host.Text.{Text, chars}
use jolt_ncp.Host.Errors.{HostError, Stop, returned_error, transaction_fetch, program_elf_not_found}
use jolt_ncp.Host.Json.{Json}
use jolt_ncp.Host.Rpc.{JsonRpcRequest, JsonRpcResponse, Cell, get_transaction}
use jolt_ncp.Host.Batch.{RpcClient, exec}
use jolt_ncp.Host.Convert.{tx_to_mock_tx, resolved_inputs}
use jolt_ncp.Host.Convert.Ledger.{Ledger, n_calls}
use jolt_ncp.Host.Convert.Stages.{IsNode}
use jolt_ncp.Host.Convert.Failures.{Fails, tx_to_mock_tx-Fails}
use jolt_ncp.Host.Crates.{Crates}
use jolt_ncp.Host.Verifier.{
  VerifierGroupContext, VerifierGroupMetadata, from_mock_transaction_with_groups,
}
use jolt_ncp.Host.Executor.{
  Tracer, Prover, HostExecutor, with_prefix, accumulate_traces, execute, run,
}
use jolt_ncp.Host.Executor.Missing.{
  StopsAt, LacksProgram, FailsToTrace, untraced, accumulate_traces-error,
}

execute-error :
    (prover : Prover) (raw_tx : Bytes) (traces : List ScriptGroupTraces) (program : prover.Program)
    (e : Stop)
    → execute prover raw_tx traces program ≢ err e
unfolding execute
execute-error prover raw_tx traces program e failed =
    elim (Outcome-cases
      (to_guest {E = Stop} (record { transaction = raw_tx; vm_traces = traces }))) [
        | inl (g, packed) ↦ elim (Outcome-cases (prover.prove program g)) [
          | inl (proof, proved) ↦ cc
          | inr (inl (t, failed')) ↦ cc
          | inr (inr stuck) ↦ cc
        ]
        | inr (inl (e', failed')) ↦
            to_guest-error (record { transaction = raw_tx; vm_traces = traces }) e' failed'
        | inr (inr stuck) ↦ cc
      ]

-- The client once the transaction is asked for.
abbrev pub later : (json : Json) → HostExecutor json.Value → List ℕ → RpcClient json.Value
later json host tx_hash = record host.rpc_client {
  next_id = (get_transaction json host.rpc_client.next_id (chars (with_prefix tx_hash) ∷ [])).1;
}

module _ (json : Json) (crates : Crates json.HeaderView) (tracer : Tracer crates) (prover : Prover)
    (out_points_of : Bytes → Outcome Text (List OutPoint)) (is_cellbase : Transaction → Bool)
    (raw_bytes : Transaction → Bytes) where
  -- The run comes as far as the loop, and a group's program is missing.
  pub record Unprogrammed (host : HostExecutor json.Value) (tx_hash : List ℕ) : Type 0 where
    pub tx : Transaction
    pub base : VerifierGroupContext crates
    pub groups : List VerifierGroupMetadata
    pub reached :
        Reaches json crates tracer prover out_points_of is_cellbase raw_bytes host tx_hash tx base
          groups
    pub lacks : LacksProgram crates tracer base groups

  -- The run comes as far as the loop, and the tracer fails on a group.
  pub record Untraceable (host : HostExecutor json.Value) (tx_hash : List ℕ) (reason : Text)
      : Type 0 where
    pub tx : Transaction
    pub base : VerifierGroupContext crates
    pub groups : List VerifierGroupMetadata
    pub reached :
        Reaches json crates tracer prover out_points_of is_cellbase raw_bytes host tx_hash tx base
          groups
    pub fails : FailsToTrace crates tracer base groups reason

  stops-run :
      (host : HostExecutor json.Value) (tx_hash : List ℕ) (tx : Transaction)
      (base : VerifierGroupContext crates) (groups : List VerifierGroupMetadata)
      → Reaches json crates tracer prover out_points_of is_cellbase raw_bytes host tx_hash tx base
          groups
      → (e' e : Stop) → e' ≡ e
      → StopsAt crates tracer base groups e'
      → ((e ≡ returned_error program_elf_not_found) × Unprogrammed host tx_hash)
        ⊎ ((t : Text) × (e ≡ untraced crates tracer t) × Untraceable host tx_hash t)
  stops-run host tx_hash tx base groups reached e' e same (inl (kind, lacks)) = inl (
    sym same ∙ kind,
    record { tx = tx; base = base; groups = groups; lacks = lacks; reached = reached },
  )
  stops-run host tx_hash tx base groups reached e' e same (inr (t, kind, fails)) = inr (
    t,
    sym same ∙ kind,
    record { tx = tx; base = base; groups = groups; fails = fails; reached = reached },
  )

  -- Whenever a run returns an error or leaves the process, it returns that the fetch of the
  -- transaction failed, with that error's text; or it returns that a program is missing, and then
  -- the transaction was fetched, is no cellbase, was converted and got a verifier's context, and
  -- among its script groups there is one that is not the built-in Type ID script, whose syscalls
  -- were collected and whose code hash the table of programs does not have; or it leaves the
  -- process with 254 behind the tracer's error, and then it came as far and there is such a group
  -- on which the tracer failed with that error.
  pub run-errors :
      (host : HostExecutor json.Value) (tx_hash : List ℕ) (program : prover.Program) (e : Stop)
      → run json crates tracer prover out_points_of is_cellbase raw_bytes host tx_hash program
        ≡ err e
      → ((t : Text) × (exec host.rpc_client
              (get_transaction json host.rpc_client.next_id (chars (with_prefix tx_hash) ∷ [])).0
            ≡ err t)
          × (e ≡ returned_error (transaction_fetch t)))
        ⊎ (((e ≡ returned_error program_elf_not_found) × Unprogrammed host tx_hash)
            ⊎ ((t : Text) × (e ≡ untraced crates tracer t) × Untraceable host tx_hash t))
  unfolding run
  run-errors host tx_hash program e failed =
      let (call, next) =
        get_transaction json host.rpc_client.next_id (chars (with_prefix tx_hash) ∷ []) in
      elim (Outcome-cases (exec host.rpc_client call)) [
        | inl (tx, fetched) ↦ elim (Bool-cases (is_cellbase tx)) [
          | inl cellbase ↦ cc
          | inr spending ↦
              elim (Outcome-cases (
                tx_to_mock_tx json out_points_of is_cellbase
                  (record host.rpc_client { next_id = next }) tx)) [
                    | inl ((mock, last_id), converted) ↦
                        elim (Outcome-cases (from_mock_transaction_with_groups crates mock v2)) [
                          | inl ((base, groups), verified) ↦
                              elim (Outcome-cases (accumulate_traces crates tracer base groups)) [
                                | inl (traces, traced) ↦
                                    elim (Outcome-cases
                                      (execute prover (raw_bytes tx) traces program)) [
                                        | inl (execution, executed) ↦ cc
                                        | inr (inl (e', failed')) ↦ absurd (
                                            execute-error prover (raw_bytes tx) traces program e'
                                              failed')
                                        | inr (inr stuck) ↦ cc
                                      ]
                                | inr (inl (e', failed')) ↦
                                    let same : e' ≡ e = cc in
                                    let reached : Reaches json crates tracer prover out_points_of
                                        is_cellbase raw_bytes host tx_hash tx base groups =
                                      record {
                                        mock = mock;
                                        last_id = last_id;
                                        fetched = fetched;
                                        spending = spending;
                                        converted = converted;
                                        verified = verified;
                                      } in
                                    inr (
                                      stops-run host tx_hash tx base groups reached e' e same (
                                        accumulate_traces-error crates tracer base groups e'
                                          failed'))
                                | inr (inr stuck) ↦ cc
                              ]
                          | inr (inl (t, failed')) ↦ cc
                          | inr (inr stuck) ↦ cc
                        ]
                    | inr (inl (t, failed')) ↦ cc
                    | inr (inr stuck) ↦ cc
                  ]
        ]
        | inr (inl (t, failed')) ↦ inl (t, failed', cc)
        | inr (inr stuck) ↦ cc
      ]

  -- When the node gives the transaction, it is no cellbase, the node answers each request by
  -- itself, the counter has room for the calls, and a cell, a group or a header that the
  -- conversion needs is missing, the run panics.
  pub run-unresolved :
      (host : HostExecutor json.Value) (tx_hash : List ℕ) (program : prover.Program)
      (tx : Transaction) (ledger : Ledger json.HeaderView)
      {serve : JsonRpcRequest json.Value → JsonRpcResponse json.Value}
      {fetch : OutPoint → Outcome Text Cell} {fetch_header : Byte32 → Outcome Text json.HeaderView}
      (e : HostError)
      → IsNode json (later json host tx_hash) ledger out_points_of serve fetch fetch_header
      → exec host.rpc_client
          (get_transaction json host.rpc_client.next_id (chars (with_prefix tx_hash) ∷ [])).0
        ≡ ok tx
      → is_cellbase tx ≡ false
      → (later json host tx_hash).next_id
          + n_calls ledger.members (resolved_inputs is_cellbase tx) tx
        < word
      → Fails json
          (later json host tx_hash)
          ledger
          out_points_of
          fetch
          fetch_header
          (resolved_inputs is_cellbase tx)
          tx
          e
      → run json crates tracer prover out_points_of is_cellbase raw_bytes host tx_hash program
        ≡ panic
  unfolding run
  run-unresolved host tx_hash program tx ledger e node fetched spending room fails =
      rw
        (
          fetched,
          spending,
          tx_to_mock_tx-Fails json (later json host tx_hash) ledger out_points_of node is_cellbase
              tx e room fails,
        )
        refl
