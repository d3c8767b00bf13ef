-- ===== src/Wallet/Init.antt =====
-- `Wallet::new` (libbtcwallet/src/lib.rs) up to the task that it spawns, with `SparkWallet::init`
-- (custodial_wallet.rs) and `LightningWallet::init` (lightning_wallet.rs) up to theirs.
pub mod Started
pub mod Configured
use libbtcwallet.Base.{
  ℕ, Option, none, some, List, [], ◌∷◌, Bytes, codes, Result, ok, err, Outcome, done, fail, panic,
}
use libbtcwallet.Store.{IdExternals}
use libbtcwallet.Store.Kv.{KvStore, Codec}
use libbtcwallet.Store.Metadata.{TxMetadataStore}
use libbtcwallet.Store.Metadata
use libbtcwallet.Wallet.Balance.{Tunables}

-- `bitcoin::Network`
pub data Network : Type 0 where
  bitcoin testnet testnet4 signet regtest : Network

pub data SparkNetwork : Type 0 where
  mainnet spark_regtest : SparkNetwork

pub data ChainSource : Type 0 where
  esplora : Bytes → ChainSource
  bitcoind_rpc : Bytes → ℕ → Bytes → Bytes → ChainSource

-- `StorageConfig::LocalSQLite`
pub record StorageConfig : Type 0 where
  pub path : Bytes

-- The address, the node id and the token of the LSP.
pub record Lsp : Type 0 where
  pub address : Bytes
  pub node_id : Bytes
  pub token : Option Bytes

pub record WalletConfig : Type 0 where
  pub storage_config : StorageConfig
  pub chain_source : ChainSource
  pub lsp : Lsp
  pub network : Network
  pub seed : Bytes
  pub tunables : Tunables

-- What the builder of the node is told.
pub record NodeConfig : Type 0 where
  pub trusted_peers_no_reserve : List Bytes
  pub network : Network
  pub entropy_seed_bytes : Bytes
  pub gossip_source_rgs : Bytes
  pub liquidity_source_lsps2 : Lsp
  pub chain_source : ChainSource

-- What is used of `ldk_node`, the Spark SDK, SHA-256 and the file system, over a world that every call
-- may change.
pub record InitServices (kv : KvStore) : Type 1 where
  pub World : Type 0
  pub IoError : Type 0
  -- `PathBuf::push`
  pub join : Bytes → Bytes → Bytes
  -- `SqliteStore::new(path, Some(name), None)`
  pub open_store : World → Bytes → Bytes → Result IoError kv.State × World
  pub File : Type 0
  -- `Logger::new`
  pub open_log : World → Bytes → Option File × World
  pub sha256 : Bytes → Bytes
  pub CustodialError : Type 0
  -- `Error::General("Unsupported network")`
  pub unsupported_network : CustodialError
  pub Signer : Type 0
  pub from_master_seed : World → Bytes → SparkNetwork → Result CustodialError Signer × World
  pub SparkSdk : Type 0
  pub new_spark : World → SparkNetwork → Signer → Result CustodialError SparkSdk × World
  pub BuildError : Type 0
  pub NodeError : Type 0
  pub Node : Type 0
  pub build_with_store : World → NodeConfig → kv.State → Result BuildError Node × World
  pub start_with_runtime : World → Node → Result NodeError (Unit {0}) × World

pub data InitFailure {kv : KvStore} (s : InitServices kv) : Type 0 where
  io_error : s.IoError → InitFailure s
  ldk_node_build_failure : s.BuildError → InitFailure s
  ldk_node_start_failure : s.NodeError → InitFailure s
  custodial_failure : s.CustodialError → InitFailure s

-- The `match` of `SparkWallet::init`
unfoldable pub spark_network : Network → Option SparkNetwork
spark_network bitcoin = some mainnet
spark_network regtest = some spark_regtest
spark_network testnet = none
spark_network testnet4 = none
spark_network signet = none

unfoldable pub gossip_source : Network → Bytes
gossip_source testnet = codes "https://rapidsync.lightningdevkit.org/testnet/snapshot"
gossip_source bitcoin = codes "https://rapidsync.lightningdevkit.org/snapshot"
gossip_source testnet4 = codes "https://rapidsync.lightningdevkit.org/snapshot"
gossip_source signet = codes "https://rapidsync.lightningdevkit.org/snapshot"
gossip_source regtest = codes "https://rapidsync.lightningdevkit.org/snapshot"

unfoldable pub node_config : WalletConfig → NodeConfig
unfolding gossip_source
node_config config = record {
  trusted_peers_no_reserve = config.lsp.node_id ∷ [];
  network = config.network;
  entropy_seed_bytes = config.seed;
  gossip_source_rgs = gossip_source config.network;
  liquidity_source_lsps2 = config.lsp;
  chain_source = config.chain_source;
}

-- `r?` with its `From`, in a world: the rest runs where the result is `Ok`.
unfoldable pub and_then {ℓ} :
    {W E A : Type 0} {B : Type ℓ} {F : Type 0}
    → (E → F)
    → Result E A × W
    → (A → W → Outcome F B × W)
    → Outcome F B × W
and_then from (ok a, w) rest = rest a w
and_then from (err e, w) rest = (fail (from e), w)

module _ {x : IdExternals} (codec : Codec x) {kv : KvStore} (s : InitServices kv) where
  -- `WalletImpl`, without its lock
  pub record Wallet : Type 0 where
    pub node : s.Node
    pub custodial : s.SparkSdk
    pub tunables : Tunables
    pub network : Network
    pub tx_metadata : TxMetadataStore x kv
    pub logger : s.File

  unfoldable pub spark_init :
      SparkNetwork → WalletConfig → s.World → Outcome (InitFailure s) s.SparkSdk × s.World
  unfolding and_then
  spark_init net config w =
      and_then custodial_failure (s.from_master_seed w (s.sha256 config.seed) net) λ signer w'.
        and_then custodial_failure (s.new_spark w' net signer) λ sdk w''. (done sdk, w'')

  unfoldable pub custodial_init :
      Option SparkNetwork → WalletConfig → s.World → Outcome (InitFailure s) s.SparkSdk × s.World
  unfolding spark_init
  custodial_init none config w = (fail (custodial_failure s.unsupported_network), w)
  custodial_init (some net) config w = spark_init net config w

  unfoldable pub lightning_init :
      WalletConfig → kv.State → s.World → Outcome (InitFailure s) s.Node × s.World
  unfolding and_then node_config
  lightning_init config store w =
      and_then ldk_node_build_failure (s.build_with_store w (node_config config) store) λ node w'.
        and_then ldk_node_start_failure (s.start_with_runtime w' node) λ _ w''. (done node, w'')

  -- The rest runs where the part before it returns; its errors are passed on.
  unfoldable pub once_done {ℓ} :
      {A : Type 0} {B : Type ℓ}
      → Outcome (InitFailure s) A × s.World
      → (A → s.World → Outcome (InitFailure s) B × s.World)
      → Outcome (InitFailure s) B × s.World
  once_done (done a, w) rest = rest a w
  once_done (fail e, w) rest = (fail e, w)
  once_done (panic, w) rest = (panic, w)

  -- `expect`
  unfoldable pub or_panic : {A : Type 0} → Option A × s.World → Outcome (InitFailure s) A × s.World
  or_panic (some a, w) = (done a, w)
  or_panic (none, w) = (panic, w)

  unfoldable pub load :
      s.World
      → Outcome (Unit {0}) (TxMetadataStore x kv)
      → Outcome (InitFailure s) (TxMetadataStore x kv) × s.World
  load w (done tx_metadata) = (done tx_metadata, w)
  load w (fail _) = (panic, w)
  load w panic = (panic, w)

  unfoldable pub new : WalletConfig → s.World → Outcome (InitFailure s) Wallet × s.World
  unfolding and_then once_done or_panic custodial_init lightning_init load Metadata.new
  new config w =
      let path = config.storage_config.path in
      and_then io_error (s.open_store w path (codes "libbtcwallet.sqlite")) λ store w1.
        once_done (or_panic (s.open_log w1 (s.join path (codes "libbtcwallet.log")))) λ logger w2.
          once_done (custodial_init (spark_network config.network) config w2) λ custodial w3.
            once_done (lightning_init config store w3) λ node w4.
              once_done (load w4 (Metadata.new codec kv store)) λ tx_metadata w5. (
                done (record {
                  node = node;
                  custodial = custodial;
                  tunables = config.tunables;
                  network = config.network;
                  tx_metadata = tx_metadata;
                  logger = logger;
                }),
                w5,
              )
