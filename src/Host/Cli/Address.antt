-- ===== src/Host/Cli/Address.antt =====
-- The node that the client asks when no address is given.
use jolt_ncp.Base.{
  ℕ, ◌≡◌, ◌≢◌, refl, ap, sym, ◌∙◌, ◌⊎◌, inl, inr, List, [], ◌∷◌, ◌++◌, true, ◌==◌, none, Outcome,
  ok, Bool-cases, Outcome-cases, arith,
}
use jolt_ncp.Host.Text.{Text, codes}
use jolt_ncp.Host.Batch.{
  default_rpc_url_mainnet, default_rpc_url_testnet, Network, new, trim_slashes,
  default_rpc_timeout_seconds,
}
use jolt_ncp.Host.Executor.{HostConfig, HostExecutor, new_executor}
use jolt_ncp.Host.Cli.{
  HostArgs, to_lowercase, same_text, default_rpc_url_for_network, effective_rpc_url, as_config,
}

same_text-eq : (a b : List ℕ) → same_text a b ≡ true → a ≡ b
unfolding same_text
same_text-eq [] [] h = refl
same_text-eq [] (d ∷ ds) h = cc
same_text-eq (c ∷ cs) [] h = cc
same_text-eq (c ∷ cs) (d ∷ ds) h = elim (Bool-cases (c == d)) [
  | inl same ↦
      let letter : c ≡ d = ground (arith, same) in
      let rest : cs ≡ ds = same_text-eq cs ds (rw same at h) in cc
  | inr other ↦ cc
]

same_text_refl : (a : List ℕ) → same_text a a ≡ true
unfolding same_text
same_text_refl [] = refl
same_text_refl (c ∷ cs) = ground (arith, same_text_refl cs)

-- The node's address for a network's name.
default_rpc_url-network :
    (network : List ℕ)
    → ((to_lowercase network ≡ codes "testnet")
        × (default_rpc_url_for_network network ≡ default_rpc_url_testnet))
      ⊎ ((to_lowercase network ≢ codes "testnet")
          × (default_rpc_url_for_network network ≡ default_rpc_url_mainnet))
unfolding default_rpc_url_for_network
default_rpc_url-network network =
    elim (Bool-cases (same_text (to_lowercase network) (codes "testnet"))) [
      | inl test ↦
          let spelled = same_text-eq (to_lowercase network) (codes "testnet") test in
          inl (spelled, rw spelled (unfold same_text in refl))
      | inr other ↦ inr (
        (λ spelled. let same = same_text_refl (codes "testnet") in cc),
        elim (Bool-cases (same_text (to_lowercase network) (codes "mainnet"))) [
          | inl main ↦ rw main refl
          | inr neither ↦ rw (neither, other) refl
        ],
      )
    ]

client_url :
    {V : Type 0} (build : ℕ → Outcome Text (Network V)) (config : HostConfig)
    (host : HostExecutor V)
    → new_executor build config ≡ ok host
    → host.rpc_client.rpc_url ≡ trim_slashes config.rpc_url ++ b'/' ∷ []
unfolding new
client_url build config host created = elim (Outcome-cases (build default_rpc_timeout_seconds)) [
  | inl (client, built) ↦
      let made : HostExecutor _ = record {
        rpc_client = record {
          client = client;
          rpc_url = trim_slashes config.rpc_url ++ b'/' ∷ [];
          next_id = 0;
        };
        network = config.network;
      } in
      let same : made ≡ host = cc in ap (λ h. h.rpc_client.rpc_url) (sym same)
  | inr (inl (t, refused)) ↦ cc
  | inr (inr stuck) ↦ cc
]

-- Without an address among the arguments, a client that is created posts to the test network's
-- node exactly when the network's name is `testnet` in any case of letters, and to the main
-- network's otherwise.
pub new_executor-network :
    {V : Type 0} (build : ℕ → Outcome Text (Network V)) (args : HostArgs) (host : HostExecutor V)
    → args.rpc_url ≡ none
    → new_executor build (as_config args) ≡ ok host
    → ((to_lowercase args.network ≡ codes "testnet")
        × (host.rpc_client.rpc_url ≡ codes "https://testnet.ckb.dev/"))
      ⊎ ((to_lowercase args.network ≢ codes "testnet")
          × (host.rpc_client.rpc_url ≡ codes "https://mainnet.ckb.dev/"))
unfolding trim_slashes
new_executor-network build args host default created =
    let asked : effective_rpc_url args ≡ default_rpc_url_for_network args.network =
      unfold effective_rpc_url in rw default refl in
    let url = client_url build (as_config args) host created in
    elim (default_rpc_url-network args.network) [
      | inl (test, address) ↦
          inl (test, url ∙ ap (λ u. trim_slashes u ++ b'/' ∷ []) (asked ∙ address))
      | inr (other, address) ↦
          inr (other, url ∙ ap (λ u. trim_slashes u ++ b'/' ∷ []) (asked ∙ address))
    ]
