-- ===== src/Host/Cli/Ends.antt =====
-- Why the process exits.
use mathlib.Core.Path.{subst}
use jolt_ncp.Base.{
  ℕ, ◌≡◌, inl, inr, List, [], ◌∷◌, Bool, none, some, Outcome, ok, err, Bytes, Outcome-cases,
  Option-cases,
}
use jolt_ncp.Chain.{OutPoint, Transaction}
use jolt_ncp.Host.Text.{Text, lit, msg, chars}
use jolt_ncp.Host.Errors.{HostError, display, rpc_client_creation}
use jolt_ncp.Host.Json.{Json}
use jolt_ncp.Host.Rpc.{get_transaction}
use jolt_ncp.Host.Batch.{Network, new, exec, default_rpc_timeout_seconds}
use jolt_ncp.Host.Crates.{Crates}
use jolt_ncp.Host.Executor.{
  Tracer, Prover, HostExecutor, HostConfig, new_executor, run, with_prefix,
}
use jolt_ncp.Host.Executor.Failures.{Unprogrammed, Untraceable, run-errors}
use jolt_ncp.Host.Cli.{HostArgs, exits, as_config, main}

-- The client is refused with the builder's error.
new_executor-error :
    {V : Type 0} (build : ℕ → Outcome Text (Network V)) (config : HostConfig) (e : HostError)
    → new_executor build config ≡ err e
    → (t : Text) × (build default_rpc_timeout_seconds ≡ err t) × (e ≡ rpc_client_creation t)
unfolding new
new_executor-error build config e failed =
    elim (Outcome-cases (build default_rpc_timeout_seconds)) [
      | inl (client, built) ↦ cc
      | inr (inl (t, refused)) ↦ (t, refused, cc)
      | inr (inr stuck) ↦ cc
    ]

module _ (json : Json) (crates : Crates json.HeaderView) (tracer : Tracer crates) (prover : Prover)
    (out_points_of : Bytes → Outcome Text (List OutPoint)) (is_cellbase : Transaction → Bool)
    (raw_bytes : Transaction → Bytes) where
  -- The reasons to exit, each with its code and its message.
  pub data Cause (build : ℕ → Outcome Text (Network json.Value)) (args : HostArgs)
      : ℕ → Text → Type 0 where
    no_tx_hash : args.tx_hash ≡ none → Cause build args 2 (msg "Error: --tx-hash is required")
    no_client :
        (t : Text)
        → build default_rpc_timeout_seconds ≡ err t
        → Cause build args 1
            (lit "Failed to create executor: " ∷ lit "RPC client creation failed: " ∷ t)
    no_transaction :
        (host : HostExecutor json.Value) (tx_hash : List ℕ) (t : Text)
        → new_executor build (as_config args) ≡ ok host
        → args.tx_hash ≡ some tx_hash
        → exec host.rpc_client
            (get_transaction json host.rpc_client.next_id (chars (with_prefix tx_hash) ∷ [])).0
          ≡ err t
        → Cause build args 1 (lit "Execution failed: " ∷ lit "Failed to fetch transaction: " ∷ t)
    no_program :
        (host : HostExecutor json.Value) (tx_hash : List ℕ)
        → new_executor build (as_config args) ≡ ok host
        → args.tx_hash ≡ some tx_hash
        → Unprogrammed json crates tracer prover out_points_of is_cellbase raw_bytes host tx_hash
        → Cause build args 1
            (lit "Execution failed: " ∷ lit "Failed to get program ELF for script" ∷ [])
    no_trace :
        (host : HostExecutor json.Value) (tx_hash : List ℕ) (t : Text)
        → new_executor build (as_config args) ≡ ok host
        → args.tx_hash ≡ some tx_hash
        → Untraceable json crates tracer prover out_points_of is_cellbase raw_bytes host tx_hash t
        → Cause build args 254 (lit "collect_vm_syscalls_for_group: " ∷ t)

  same_end :
      {build : ℕ → Outcome Text (Network json.Value)} {args : HostArgs} (k n : ℕ) (t text : Text)
      → Cause build args k t
      → exits k t ≡ exits n text
      → Cause build args n text
  same_end {build = build} {args = args} k n t text cause same =
      let code : k ≡ n = cc in
      let message : t ≡ text = cc in
      subst (λ m. Cause build args m text) code (subst (λ u. Cause build args k u) message cause)

  -- Whenever the program exits with a code and a message, it is 2 without a transaction's hash; or
  -- 1 with the error of the HTTP client's builder; or 1 with the error of the transaction's fetch;
  -- or 1 with the missing program, for a run that came to the script groups and has one to trace
  -- whose program is missing; or 254 with the tracer's error, for a run that came to the script
  -- groups and has one to trace on which the tracer fails with that error.
  pub main-Cause :
      (build : ℕ → Outcome Text (Network json.Value)) (program : prover.Program) (args : HostArgs)
      (n : ℕ) (text : Text)
      → main json crates tracer prover out_points_of is_cellbase raw_bytes build program args
        ≡ exits n text
      → Cause build args n text
  unfolding main display
  main-Cause build program args n text ended = elim (Option-cases args.tx_hash) [
    | inl absent ↦ same_end 2 n (msg "Error: --tx-hash is required") text (no_tx_hash absent) cc
    | inr (tx_hash, given) ↦ elim (Outcome-cases (new_executor build (as_config args))) [
      | inl (host, created) ↦
          elim (Outcome-cases (
            run json crates tracer prover out_points_of is_cellbase raw_bytes host tx_hash
              program)) [
                | inl (finished, done) ↦ cc
                | inr (inl (e, failed)) ↦
                    elim (run-errors json crates tracer prover out_points_of is_cellbase raw_bytes
                      host tx_hash program e failed) [
                        | inl (t, unfetched, kind) ↦
                            same_end 1 n
                              (lit "Execution failed: " ∷ lit "Failed to fetch transaction: " ∷ t)
                              text (no_transaction host tx_hash t created given unfetched) cc
                        | inr (inl (kind, lacks)) ↦
                            same_end 1 n
                              (lit "Execution failed: "
                                ∷ lit "Failed to get program ELF for script"
                                ∷ [])
                              text (no_program host tx_hash created given lacks) cc
                        | inr (inr (t, kind, fails)) ↦
                            same_end 254 n (lit "collect_vm_syscalls_for_group: " ∷ t) text
                              (no_trace host tx_hash t created given fails) cc
                      ]
                | inr (inr stuck) ↦ cc
              ]
      | inr (inl (e, failed)) ↦
          let (t, refused, kind) = new_executor-error build (as_config args) e failed in
          same_end 1 n (lit "Failed to create executor: " ∷ lit "RPC client creation failed: " ∷ t)
            text (no_client t refused) cc
      | inr (inr stuck) ↦ cc
    ]
  ]
