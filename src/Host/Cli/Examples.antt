-- ===== src/Host/Cli/Examples.antt =====
-- A command line that names the test network in capitals, and a node that refuses.
use jolt_ncp.Base.{ℕ, ◌≡◌, ◌≢◌, refl, ◌⊎◌, [], ◌∷◌, some, none, false, Outcome, ok, err}
use jolt_ncp.Host.Text.{Text, lit, msg, codes}
use jolt_ncp.Host.Batch.{Network, exec, new, trim_slashes}
use jolt_ncp.Host.Rpc.{get_transaction}
use jolt_ncp.Host.Node.{Value, node_json}
use jolt_ncp.Host.Convert.Examples.{out_points_of}
use jolt_ncp.Host.Errors.{display}
use jolt_ncp.Host.Executor.{HostExecutor, new_executor, run, with_prefix}
use jolt_ncp.Host.Executor.RunExamples.{one_group, one_tracer, prover}
use jolt_ncp.Host.Cli.{
  HostArgs, exits, main, as_config, to_lowercase, same_text, default_rpc_url_for_network,
  effective_rpc_url,
}
use jolt_ncp.Host.Cli.Ends.{Cause, main-Cause}
use jolt_ncp.Host.Cli.Address.{new_executor-network}

abbrev args : HostArgs
args = record { tx_hash = some (70 ∷ []); network = codes "TestNet"; rpc_url = none }

abbrev refusing : Network Value
refusing = record { post = λ url r. err (msg "refused"); post_batch = λ url rs. ok [] }

abbrev build : ℕ → Outcome Text (Network Value)
build timeout = ok refusing

abbrev message : Text
message = lit "Execution failed: " ∷ lit "Failed to fetch transaction: " ∷ lit "refused" ∷ []

refused_run :
    main node_json one_group one_tracer prover out_points_of
      (λ t. false)
      (λ t. 9 ∷ [])
      build
      tt
      args
    ≡ exits 1 message
unfolding main run exec new display get_transaction with_prefix
refused_run = refl

main-Cause_example :
    Cause node_json one_group one_tracer prover out_points_of
      (λ t. false)
      (λ t. 9 ∷ [])
      build
      args
      1
      message
main-Cause_example =
    main-Cause node_json one_group one_tracer prover out_points_of (λ t. false) (λ t. 9 ∷ []) build
      tt args 1 message refused_run

abbrev test_host : HostExecutor Value
test_host = record {
  rpc_client = record {
    client = refusing;
    rpc_url = codes "https://testnet.ckb.dev/";
    next_id = 0;
  };
  network = codes "TestNet";
}

test_host_created : new_executor build (as_config args) ≡ ok test_host
unfolding new trim_slashes effective_rpc_url default_rpc_url_for_network to_lowercase same_text
test_host_created = refl

new_executor-network_example :
    ((to_lowercase args.network ≡ codes "testnet")
      × (test_host.rpc_client.rpc_url ≡ codes "https://testnet.ckb.dev/"))
    ⊎ ((to_lowercase args.network ≢ codes "testnet")
        × (test_host.rpc_client.rpc_url ≡ codes "https://mainnet.ckb.dev/"))
new_executor-network_example = new_executor-network build args test_host refl test_host_created
