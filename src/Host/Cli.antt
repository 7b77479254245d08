-- ===== src/Host/Cli.antt =====
-- src/cli.rs, src/config.rs and src/main.rs: the arguments, the node that they name, and how the
-- process ends. clap's parser is left out: the arguments are those that it gives.
pub mod Ends
pub mod Address
pub mod Returns
pub mod Whole
mod Examples
mod ReturnExamples
mod WholeExamples
use jolt_ncp.Base.{
  ℕ, ◌+◌, List, [], ◌∷◌, ◌++◌, map, Bool, true, false, ◌&&◌, leb, ◌==◌, if◌then◌else◌, Option, none,
  some, Outcome, ok, err, panic, map_err, Bytes,
}
use jolt_ncp.Chain.{OutPoint, Transaction}
use jolt_ncp.Host.Text.{Text, lit, msg, codes}
use jolt_ncp.Host.Errors.{Stop, returned_error, exit_process, display}
use jolt_ncp.Host.Json.{Json}
use jolt_ncp.Host.Batch.{Network, default_rpc_url_mainnet, default_rpc_url_testnet}
use jolt_ncp.Host.Crates.{Crates}
use jolt_ncp.Host.Executor.{Tracer, Prover, HostConfig, HostExecutor, new_executor, run}

pub record HostArgs : Type 0 where
  pub tx_hash : Option (List ℕ)
  pub network : List ℕ
  pub rpc_url : Option (List ℕ)

-- `to_lowercase` on the letters of ASCII. Of the other characters only the Kelvin sign becomes one
-- letter of ASCII, a k, which is in neither of the names that the result is compared with.
abbrev pub lower : ℕ → ℕ
lower c = if leb b'A' c && leb c b'Z' then c + 32 else c

unfoldable pub to_lowercase : List ℕ → List ℕ
to_lowercase cs = map lower cs

-- `==` on `str`
unfoldable pub same_text : List ℕ → List ℕ → Bool
same_text [] [] = true
same_text [] (d ∷ ds) = false
same_text (c ∷ cs) [] = false
same_text (c ∷ cs) (d ∷ ds) = c == d && same_text cs ds

unfoldable pub default_rpc_url_for_network : List ℕ → List ℕ
default_rpc_url_for_network network =
    let name = to_lowercase network in
    if same_text name (codes "mainnet")
    then default_rpc_url_mainnet
    else if same_text name (codes "testnet")
    then default_rpc_url_testnet
    else default_rpc_url_mainnet

unfoldable pub effective_rpc_url : HostArgs → List ℕ
effective_rpc_url args = elim args.rpc_url [
  | some url ↦ url
  | none ↦ default_rpc_url_for_network args.network
]

abbrev pub as_config : HostArgs → HostConfig
as_config args = record { network = args.network; rpc_url = effective_rpc_url args }

-- How the process ends: `std::process::exit` behind a line on stderr, a return, or a panic.
pub data End : Type 0 where
  exits : ℕ → Text → End
  returns : End
  panics : End

abbrev pub ends_as : {A : Type 0} → Text → (A → End) → Outcome Stop A → End
ends_as what next (ok a) = next a
ends_as what next (err (returned_error e)) = exits 1 (what ++ display e)
ends_as what next (err (exit_process n text)) = exits n text
ends_as what next panic = panics

module _ (json : Json) (crates : Crates json.HeaderView) (tracer : Tracer crates) (prover : Prover)
    (out_points_of : Bytes → Outcome Text (List OutPoint)) (is_cellbase : Transaction → Bool)
    (raw_bytes : Transaction → Bytes) where
  -- `program` is the guest that `compile_entrypoint` brings.
  unfoldable pub main : (ℕ → Outcome Text (Network json.Value)) → prover.Program → HostArgs → End
  main build program args = elim args.tx_hash [
    | none ↦ exits 2 (msg "Error: --tx-hash is required")
    | some tx_hash ↦
        ends_as (msg "Failed to create executor: ")
          (λ executor.
            ends_as (msg "Execution failed: ") (λ _. returns)
              (run json crates tracer prover out_points_of is_cellbase raw_bytes executor tx_hash
                program))
          (map_err returned_error (new_executor build (as_config args)))
  ]
