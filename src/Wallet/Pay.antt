-- ===== src/Wallet/Pay.antt =====
-- `Wallet::pay` (libbtcwallet/src/lib.rs): custody over lightning, then our channels over lightning,
-- then both on chain.
pub mod Chains
pub mod Recorded
pub mod Funds
pub mod Order
pub mod Traced
use libbtcwallet.Base.{
  Bool, true, false, Option, none, some, List, [], ◌∷◌, leb, if◌then◌else◌, Result, ok, err, if_ok,
  Outcome, done, ◌>>=◌,
}
use libbtcwallet.Amount.{Amount, saturating_add}
use libbtcwallet.Instructions.External.{Externals}
use libbtcwallet.Instructions.{PaymentMethod, lightning_bolt11, lightning_bolt12, on_chain}
use libbtcwallet.Store.{
  IdExternals, Bytes32, PaymentId, lightning, custodial, PaymentType, outgoing_lightning_bolt11,
  outgoing_lightning_bolt12, outgoing_on_chain, TxMetadata, payment,
}
use libbtcwallet.Store.Kv.{KvStore, Codec}
use libbtcwallet.Store.Metadata.{TxMetadataStore, insert, upsert}
use libbtcwallet.Wallet.Services.{Services}
use libbtcwallet.Wallet.Lightning
use libbtcwallet.Wallet.Custodial
use libbtcwallet.Wallet.Errors.{WalletError, ldk_node_failure, custodial_failure}
use libbtcwallet.Wallet.Info.{PaymentInfo}

module _ {x : Externals} {ids : IdExternals} (s : Services x ids) (codec : Codec ids)
    (kv : KvStore) where
  -- `spawned` are the payments for which a rebalancing task was started.
  pub record PayState : Type 0 where
    pub world : s.World
    pub tx_metadata : TxMetadataStore ids kv
    pub last_custodial_err : Option (WalletError s)
    pub last_lightning_err : Option (WalletError s)
    pub spawned : List (PaymentId ids)

  -- Whether the attempt paid.
  abbrev pub Attempt : Type 0
  Attempt = Outcome (Unit {0}) (Bool × PayState)

  -- The closures that name the type of a payment, and the arms of the four loops.
  abbrev pub lightning_type : PaymentMethod x → Option PaymentType
  lightning_type (lightning_bolt11 invoice) = some (outgoing_lightning_bolt11 none)
  lightning_type (lightning_bolt12 offer) = some (outgoing_lightning_bolt12 none)
  lightning_type (on_chain amount address) = none

  abbrev pub on_chain_type : PaymentMethod x → Option PaymentType
  on_chain_type (lightning_bolt11 invoice) = none
  on_chain_type (lightning_bolt12 offer) = none
  on_chain_type (on_chain amount address) = some outgoing_on_chain

  abbrev pub metadata_now : s.World → PaymentType → TxMetadata ids
  metadata_now w ty = record { time = s.now w; ty = payment ty }

  module _ (amount custodial_balance available_ln : Amount) where
    -- what follows the call that pays
    unfoldable pub custodial_paid :
        PaymentType → PayState → Result s.CustodialError ids.CustodialPaymentId × s.World → Attempt
    custodial_paid ty st (ok id, w) = do
      tx_metadata ← insert codec kv st.tx_metadata (custodial id) (metadata_now w ty)
      done (true, record st { world = w; tx_metadata = tx_metadata })
    custodial_paid ty st (err e, w) =
        done (false, record st { world = w; last_custodial_err = some (custodial_failure e) })

    unfoldable pub custodial_funded :
        PaymentMethod x → PaymentType → PayState → s.World → Amount → Attempt
    custodial_funded method ty st w fee =
        if leb (saturating_add fee amount) custodial_balance
        then custodial_paid ty st (Custodial.pay s w method amount)
        else done (false, record st { world = w })

    -- the closure `pay_custodial`
    unfoldable pub pay_custodial : PaymentMethod x → PaymentType → PayState → Attempt
    pay_custodial method ty st =
        let (fee, w) = Custodial.estimate_fee s st.world method amount in
        if leb amount custodial_balance
        then if_ok fee (custodial_funded method ty st w) (done (false, record st { world = w }))
        else done (false, st)

    unfoldable pub lightning_paid :
        PaymentType → PayState → Result s.NodeError Bytes32 × s.World → Attempt
    lightning_paid ty st (ok id, w) = do
      tx_metadata ← upsert codec kv st.tx_metadata (lightning id) (metadata_now w ty)
      done (
        true,
        record st { world = w; tx_metadata = tx_metadata; spawned = lightning id ∷ st.spawned },
      )
    lightning_paid ty st (err e, w) =
        done (false, record st { world = w; last_lightning_err = some (ldk_node_failure e) })

    unfoldable pub lightning_funded :
        PaymentMethod x → PaymentType → PayState → s.World → Amount → Attempt
    lightning_funded method ty st w fee =
        if leb (saturating_add fee amount) available_ln
        then lightning_paid ty st (Lightning.pay s w method amount)
        else done (false, record st { world = w })

    -- the closure `pay_lightning`
    unfoldable pub pay_lightning : PaymentMethod x → PaymentType → PayState → Attempt
    pay_lightning method ty st =
        let (fee, w) = Lightning.estimate_fee s st.world method amount in
        if leb amount available_ln
        then if_ok fee (lightning_funded method ty st w) (done (false, record st { world = w }))
        else done (false, st)

  -- `if a.is_ok() { return Ok(()) }`, and go on
  unfoldable pub unless_paid : Attempt → (PayState → Attempt) → Attempt
  unless_paid a next = do (paid, st) ← a; if paid then done (true, st) else next st

  -- A loop over the methods; `none` is an arm that does nothing.
  module _ (arm : PaymentMethod x → Option PaymentType)
      (pay_by : PaymentMethod x → PaymentType → PayState → Attempt) where
    unfoldable pub try_arm : PaymentMethod x → Option PaymentType → PayState → Attempt
    try_arm method none st = done (false, st)
    try_arm method (some ty) st = pay_by method ty st

    unfoldable pub try_methods : List (PaymentMethod x) → PayState → Attempt
    try_methods [] st = done (false, st)
    try_methods (method ∷ methods) st =
        unless_paid (try_arm method (arm method) st) (try_methods methods)

  unfoldable pub last_error : PayState → WalletError s
  last_error st = elim st.last_lightning_err [
    | some e ↦ e
    | none ↦ elim st.last_custodial_err [
      | some e ↦ e
      | none ↦ ldk_node_failure s.insufficient_funds
    ]
  ]

  unfoldable pub try_all : PaymentInfo x → PayState → Attempt
  try_all info st =
      let balance = Custodial.get_balance s st.world in
      let available = (Lightning.get_balance s st.world).0 in
      let methods = info.instructions.methods in
      let by_custody = pay_custodial info.amount balance available in
      let by_channels = pay_lightning info.amount balance available in
      unless_paid (try_methods lightning_type by_custody methods st) λ st.
        unless_paid (try_methods lightning_type by_channels methods st) λ st.
          unless_paid (try_methods on_chain_type by_custody methods st)
            λ st. try_methods on_chain_type by_channels methods st

  abbrev pub before : s.World → TxMetadataStore ids kv → PayState
  before w tx_metadata = record {
    world = w;
    tx_metadata = tx_metadata;
    last_custodial_err = none;
    last_lightning_err = none;
    spawned = [];
  }

  unfoldable pub pay :
      PaymentInfo x
      → s.World
      → TxMetadataStore ids kv
      → Outcome (Unit {0}) (Result (WalletError s) (Unit {0}) × PayState)
  pay info w tx_metadata = do
    (paid, st) ← try_all info (before w tx_metadata)
    done (if paid then ok tt else err (last_error st), st)
