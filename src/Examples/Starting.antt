-- ===== src/Examples/Starting.antt =====
-- The theorem on the start of a wallet.
use libbtcwallet.Store.Metadata.{load_keys}
use libbtcwallet.Base.{
  ◌>>=◌, ℕ, suc, ◌≡◌, refl, none, some, [], ◌∷◌, ◌++◌, Bytes, codes, ok, done, fail,
}
use libbtcwallet.Wallet.Balance.{default}
use libbtcwallet.Wallet.Init.{
  Network, bitcoin, testnet, WalletConfig, esplora, NodeConfig, InitServices, custodial_failure,
  Wallet, new, spark_network, node_config,
}
use libbtcwallet.Wallet.Init.Configured.{IsConfigured, new-IsConfigured}
use libbtcwallet.Examples.Toys.{memory}
use libbtcwallet.Examples.Coding.{coding}

-- The world counts the calls, all of which succeed; a node is its configuration.
abbrev starting : InitServices memory
starting = record {
  World = ℕ;
  IoError = Unit;
  join = λ p q. p ++ q;
  open_store = λ w p n. (ok [], suc w);
  File = Bytes;
  open_log = λ w p. (some p, suc w);
  sha256 = λ b. b;
  CustodialError = Unit;
  unsupported_network = tt;
  Signer = Bytes;
  from_master_seed = λ w b n. (ok b, suc w);
  SparkSdk = Bytes;
  new_spark = λ w n b. (ok b, suc w);
  BuildError = Unit;
  NodeError = Unit;
  Node = NodeConfig;
  build_with_store = λ w c st. (ok c, suc w);
  start_with_runtime = λ w n. (ok tt, suc w);
}

abbrev config : Network → WalletConfig
config network = record {
  storage_config = record { path = codes "/w/" };
  chain_source = esplora (codes "e");
  lsp = record { address = codes "a"; node_id = codes "i"; token = none };
  network = network;
  seed = 1 ∷ [];
  tunables = default;
}

-- The node is not built on a network that the custodian does not have.
testnet_refused : new coding starting (config testnet) 0 ≡ (fail (custodial_failure tt), 2)
unfolding new spark_network
testnet_refused = refl

abbrev first_wallet : Wallet coding starting
first_wallet = record {
  node = node_config (config bitcoin);
  custodial = 1 ∷ [];
  tunables = default;
  network = bitcoin;
  tx_metadata = record { tx_metadata = []; store = [] };
  logger = codes "/w/libbtcwallet.log";
}

bitcoin_started : new coding starting (config bitcoin) 0 ≡ (done first_wallet, 6)
unfolding new spark_network load_keys ◌>>=◌
bitcoin_started = refl

new-IsConfigured_example : IsConfigured coding starting (config bitcoin) 0 first_wallet 6
new-IsConfigured_example =
    new-IsConfigured coding starting (config bitcoin) 0 6 first_wallet bitcoin_started
