-- ===== src/Wallet/Init/Started.antt =====
-- What a wallet that `Wallet::new` returns was made with.
use libbtcwallet.Base.{
  ◌≡◌, refl, Option, none, some, codes, Result, ok, err, Outcome, done, fail, panic,
}
use libbtcwallet.Store.{IdExternals}
use libbtcwallet.Store.Kv.{KvStore, Codec}
use libbtcwallet.Store.Metadata.{TxMetadataStore}
use libbtcwallet.Store.Metadata
use libbtcwallet.Wallet.Init.{
  WalletConfig, SparkNetwork, spark_network, node_config, InitServices, InitFailure, Wallet,
  and_then, spark_init, custodial_init, lightning_init, once_done, or_panic, load, new,
}

module _ {x : IdExternals} (codec : Codec x) {kv : KvStore} (s : InitServices kv) where
  -- Every step succeeds, in this order: the store and the log are opened, the network is one of the
  -- custodian's, its SDK is set up, the node is built over the store and started, and the metadata in
  -- the store is read. The wallet has what the steps returned.
  pub record Started (config : WalletConfig) (w : s.World) (wallet : Wallet codec s) (w' : s.World)
      : Type 0 where
    pub store : kv.State
    pub w1 : s.World
    pub opened :
        s.open_store w config.storage_config.path (codes "libbtcwallet.sqlite") ≡ (ok store, w1)
    pub logger : s.File
    pub w2 : s.World
    pub logged :
        s.open_log w1 (s.join config.storage_config.path (codes "libbtcwallet.log"))
        ≡ (some logger, w2)
    pub net : SparkNetwork
    pub supported : spark_network config.network ≡ some net
    pub signer : s.Signer
    pub w3 : s.World
    pub signed : s.from_master_seed w2 (s.sha256 config.seed) net ≡ (ok signer, w3)
    pub sdk : s.SparkSdk
    pub w4 : s.World
    pub connected : s.new_spark w3 net signer ≡ (ok sdk, w4)
    pub node : s.Node
    pub w5 : s.World
    pub built : s.build_with_store w4 (node_config config) store ≡ (ok node, w5)
    pub started : s.start_with_runtime w5 node ≡ (ok tt, w')
    pub tx_metadata : TxMetadataStore x kv
    pub read : Metadata.new codec kv store ≡ done tx_metadata
    pub result : wallet ≡ record {
      node = node;
      custodial = sdk;
      tunables = config.tunables;
      network = config.network;
      tx_metadata = tx_metadata;
      logger = logger;
    }

  and_then_inv :
      {E A B : Type 0} (from : E → InitFailure s) (r : Result E A × s.World)
      (rest : A → s.World → Outcome (InitFailure s) B × s.World) {b : B} {w' : s.World}
      → and_then from r rest ≡ (done b, w')
      → (a : A) × (w : s.World) × (r ≡ (ok a, w)) × (rest a w ≡ (done b, w'))
  unfolding and_then
  and_then_inv from (ok a, w) rest e = (a, w, refl, e)
  and_then_inv from (err q, w) rest e = cc

  once_done_inv :
      {A B : Type 0} (r : Outcome (InitFailure s) A × s.World)
      (rest : A → s.World → Outcome (InitFailure s) B × s.World) {b : B} {w' : s.World}
      → once_done codec s r rest ≡ (done b, w')
      → (a : A) × (w : s.World) × (r ≡ (done a, w)) × (rest a w ≡ (done b, w'))
  unfolding once_done
  once_done_inv (done a, w) rest e = (a, w, refl, e)
  once_done_inv (fail q, w) rest e = cc
  once_done_inv (panic, w) rest e = cc

  or_panic_inv :
      {A : Type 0} (r : Option A × s.World) {a : A} {w' : s.World}
      → or_panic codec s r ≡ (done a, w')
      → r ≡ (some a, w')
  unfolding or_panic
  or_panic_inv (some a, w) e = cc
  or_panic_inv (none, w) e = cc

  load_inv :
      (w : s.World) (o : Outcome (Unit {0}) (TxMetadataStore x kv)) {t : TxMetadataStore x kv}
      {w' : s.World}
      → load codec s w o ≡ (done t, w')
      → (o ≡ done t) × (w ≡ w')
  unfolding load
  load_inv w (done t) e = (cc, cc)
  load_inv w (fail q) e = cc
  load_inv w panic e = cc

  custodial_init_inv :
      (o : Option SparkNetwork) (config : WalletConfig) (w : s.World) {sdk : s.SparkSdk}
      {w' : s.World}
      → custodial_init codec s o config w ≡ (done sdk, w')
      → (net : SparkNetwork) × (o ≡ some net) × (spark_init codec s net config w ≡ (done sdk, w'))
  unfolding custodial_init
  custodial_init_inv none config w e = cc
  custodial_init_inv (some net) config w e = (net, refl, e)

  spark_init_inv :
      (net : SparkNetwork) (config : WalletConfig) (w : s.World) {sdk : s.SparkSdk} {w' : s.World}
      → spark_init codec s net config w ≡ (done sdk, w')
      → (signer : s.Signer) × (v : s.World) × (s.from_master_seed w (s.sha256 config.seed) net
          ≡ (ok signer, v))
        × (s.new_spark v net signer ≡ (ok sdk, w'))
  unfolding spark_init
  spark_init_inv net config w {sdk} {w'} e =
      let (signer, v, signed, e') = and_then_inv _ (s.from_master_seed w _ net) _ e in
      let (sdk', v', connected, f) = and_then_inv _ (s.new_spark v net signer) _ e' in
      (signer, v, signed, cc)

  lightning_init_inv :
      (config : WalletConfig) (store : kv.State) (w : s.World) {node : s.Node} {w' : s.World}
      → lightning_init codec s config store w ≡ (done node, w')
      → (v : s.World) × (s.build_with_store w (node_config config) store ≡ (ok node, v))
        × (s.start_with_runtime v node ≡ (ok tt, w'))
  unfolding lightning_init
  lightning_init_inv config store w {node} {w'} e =
      let (node', v, built, e') =
        and_then_inv _ (s.build_with_store w (node_config config) store) _ e in
      let (u, v', started, f) = and_then_inv _ (s.start_with_runtime v node') _ e' in (v, cc, cc)

  abbrev done_at : Wallet codec s → s.World → Outcome (InitFailure s) (Wallet codec s) × s.World
  done_at wallet w = (done wallet, w)

  returned_inv :
      (a wallet : Wallet codec s) {v v' w' : s.World} (r : Result s.NodeError (Unit {0}) × s.World)
      → r ≡ (ok tt, v)
      → v ≡ v'
      → done_at a v' ≡ done_at wallet w'
      → (r ≡ (ok tt, w')) × (wallet ≡ a)
  returned_inv a wallet r p q e = (cc, cc)

  pub new-Started :
      (config : WalletConfig) (w w' : s.World) (wallet : Wallet codec s)
      → new codec s config w ≡ (done wallet, w')
      → Started config w wallet w'
  unfolding new
  new-Started config w w' wallet e =
      let (store, w1, opened, e1) = and_then_inv _ (s.open_store w _ _) _ e in
      let (logger, w2, logged, e2) = once_done_inv (or_panic codec s (s.open_log w1 _)) _ e1 in
      let (sdk, w4, custodial, e3) = once_done_inv (custodial_init codec s _ config w2) _ e2 in
      let (net, supported, spark) =
        custodial_init_inv (spark_network config.network) config w2 custodial in
      let (signer, w3, signed, connected) = spark_init_inv net config w2 spark in
      let (node, w6, lightning, e4) = once_done_inv (lightning_init codec s config store w4) _ e3 in
      let (w5, built, started) = lightning_init_inv config store w4 lightning in
      let (tx_metadata, w7, loaded, e5) = once_done_inv (load codec s w6 _) _ e4 in
      let (read, same) = load_inv w6 _ loaded in
      let (started', result) =
        returned_inv _ wallet (s.start_with_runtime w5 node) started same e5 in
      record {
        store = store;
        w1 = w1;
        opened = opened;
        logger = logger;
        w2 = w2;
        logged = or_panic_inv _ logged;
        net = net;
        supported = supported;
        signer = signer;
        w3 = w3;
        signed = signed;
        sdk = sdk;
        w4 = w4;
        connected = connected;
        node = node;
        w5 = w5;
        built = built;
        started = started';
        tx_metadata = tx_metadata;
        read = read;
        result = result;
      }
