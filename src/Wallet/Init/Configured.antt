-- ===== src/Wallet/Init/Configured.antt =====
-- A wallet that `Wallet::new` returns has both sides set up as its configuration says.
use libbtcwallet.Base.{◌≡◌, refl, ap, some, [], ◌∷◌, codes, ok, done}
use libbtcwallet.Store.{IdExternals}
use libbtcwallet.Store.Kv.{KvStore, Codec}
use libbtcwallet.Store.Metadata
use libbtcwallet.Wallet.Init.{
  Network, bitcoin, testnet, testnet4, signet, regtest, SparkNetwork, mainnet, spark_regtest,
  WalletConfig, NodeConfig, gossip_source, spark_network, node_config, InitServices, Wallet, new,
}
use libbtcwallet.Wallet.Init.Started.{new-Started}

-- The networks that both sides know, with custody's name of each.
pub data Corresponds : Network → SparkNetwork → Type 0 where
  on_bitcoin : Corresponds bitcoin mainnet
  on_regtest : Corresponds regtest spark_regtest

Corresponds-spark_network :
    (n : Network) (net : SparkNetwork) → spark_network n ≡ some net → Corresponds n net
unfolding spark_network
Corresponds-spark_network bitcoin mainnet e = on_bitcoin
Corresponds-spark_network bitcoin spark_regtest e = cc
Corresponds-spark_network regtest mainnet e = cc
Corresponds-spark_network regtest spark_regtest e = on_regtest
Corresponds-spark_network testnet net e = cc
Corresponds-spark_network testnet4 net e = cc
Corresponds-spark_network signet net e = cc

-- The seed, the network, the chain and the LSP of the configuration, the LSP also as the peer that
-- needs no reserve, and the gossip of the main network.
abbrev pub for_node : WalletConfig → NodeConfig
for_node config = record {
  trusted_peers_no_reserve = config.lsp.node_id ∷ [];
  network = config.network;
  entropy_seed_bytes = config.seed;
  gossip_source_rgs = codes "https://rapidsync.lightningdevkit.org/snapshot";
  liquidity_source_lsps2 = config.lsp;
  chain_source = config.chain_source;
}

main_gossip :
    (n : Network) (net : SparkNetwork)
    → Corresponds n net
    → gossip_source n ≡ codes "https://rapidsync.lightningdevkit.org/snapshot"
unfolding gossip_source
main_gossip n net on_bitcoin = refl
main_gossip n net on_regtest = refl

node_config_lem :
    (config : WalletConfig) (net : SparkNetwork)
    → Corresponds config.network net
    → node_config config ≡ for_node config
unfolding node_config
node_config_lem config net c = rw (main_gossip config.network net c) refl

module _ {x : IdExternals} (codec : Codec x) {kv : KvStore} (s : InitServices kv) where
  pub record IsConfigured (config : WalletConfig) (w : s.World) (wallet : Wallet codec s)
      (w' : s.World) : Type 0 where
    pub net : SparkNetwork
    pub networks : Corresponds config.network net
    pub store : kv.State
    pub w1 : s.World
    pub opened :
        s.open_store w config.storage_config.path (codes "libbtcwallet.sqlite") ≡ (ok store, w1)
    pub w2 : s.World
    pub w3 : s.World
    pub w4 : s.World
    pub signer : s.Signer
    pub signed : s.from_master_seed w2 (s.sha256 config.seed) net ≡ (ok signer, w3)
    pub connected : s.new_spark w3 net signer ≡ (ok wallet.custodial, w4)
    pub w5 : s.World
    pub built : s.build_with_store w4 (for_node config) store ≡ (ok wallet.node, w5)
    pub started : s.start_with_runtime w5 wallet.node ≡ (ok tt, w')
    pub read : Metadata.new codec kv store ≡ done wallet.tx_metadata
    pub same_network : wallet.network ≡ config.network
    pub same_tunables : wallet.tunables ≡ config.tunables

  -- Where `Wallet::new` returns a wallet, the network is Bitcoin or Regtest, and custody's SDK, with
  -- the hash of the seed, and the node, with the seed, are set up for the same one. The node is built
  -- over the store that the metadata is read from, with the chain source and the LSP of the
  -- configuration, the LSP trusted as a peer without a reserve, and the gossip of the main network,
  -- and is started last. The wallet has the two sides, the metadata, and the configured network and
  -- tunables.
  pub new-IsConfigured :
      (config : WalletConfig) (w w' : s.World) (wallet : Wallet codec s)
      → new codec s config w ≡ (done wallet, w')
      → IsConfigured config w wallet w'
  new-IsConfigured config w w' wallet e =
      let st = new-Started codec s config w w' wallet e in
      let networks = Corresponds-spark_network config.network st.net st.supported in
      record {
        net = st.net;
        networks = networks;
        store = st.store;
        w1 = st.w1;
        opened = st.opened;
        w2 = st.w2;
        w3 = st.w3;
        w4 = st.w4;
        signer = st.signer;
        signed = st.signed;
        connected = rw (ap (λ (v : Wallet codec s). v.custodial) st.result) st.connected;
        w5 = st.w5;
        built =
            rw
              (
                ap (λ (v : Wallet codec s). v.node) st.result,
                ← node_config_lem config st.net networks,
              )
              st.built;
        started = rw (ap (λ (v : Wallet codec s). v.node) st.result) st.started;
        read = rw (ap (λ (v : Wallet codec s). v.tx_metadata) st.result) st.read;
        same_network = ap (λ (v : Wallet codec s). v.network) st.result;
        same_tunables = ap (λ (v : Wallet codec s). v.tunables) st.result;
      }
