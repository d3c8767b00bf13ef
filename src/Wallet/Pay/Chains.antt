-- ===== src/Wallet/Pay/Chains.antt =====
-- What holds of each attempt of `Wallet::pay` holds of them all together.
use libbtcwallet.Base.{
  IfSome, Bool, true, false, Option, none, some, List, [], ◌∷◌, if◌then◌else◌, done, Returns,
  returns, Returns-bind,
}
use libbtcwallet.Instructions.External.{Externals}
use libbtcwallet.Instructions.{on_chain, lightning_bolt12, lightning_bolt11, PaymentMethod}
use libbtcwallet.Store.{
  outgoing_on_chain, outgoing_lightning_bolt12, outgoing_lightning_bolt11, IdExternals, PaymentType,
}
use libbtcwallet.Store.Kv.{KvStore, Codec}
use libbtcwallet.Wallet.Services.{Services}
use libbtcwallet.Wallet.Lightning
use libbtcwallet.Wallet.Custodial
use libbtcwallet.Wallet.Info.{PaymentInfo}
use libbtcwallet.Wallet.Pay.{
  Amount, PayState, Attempt, unless_paid, try_arm, try_methods, try_all, pay_custodial,
  pay_lightning, lightning_type, on_chain_type,
}

-- The type that a payment by a method is recorded with: no preimage is known yet.
pub data TypeOf {x : Externals} : PaymentMethod x → PaymentType → Type 0 where
  bolt11_type :
      {invoice : x.Bolt11Invoice}
      → TypeOf (lightning_bolt11 invoice) (outgoing_lightning_bolt11 none)
  bolt12_type : {offer : x.Offer} → TypeOf (lightning_bolt12 offer) (outgoing_lightning_bolt12 none)
  on_chain_type_of :
      {amount : Option Amount} {address : x.Address}
      → TypeOf (on_chain amount address) outgoing_on_chain

-- A relation between the state in front of attempts and what they return: a failure that changes
-- nothing has it, and it can be put behind a failure.
pub record Chain {x : Externals} {ids : IdExternals} (s : Services x ids) (codec : Codec ids)
    (kv : KvStore) (R : PayState s codec kv → Bool × PayState s codec kv → Type 0) : Type 0 where
  pub idle : (st : PayState s codec kv) → R st (false, st)
  pub after :
      (st st' : PayState s codec kv) (r : Bool × PayState s codec kv)
      → R st (false, st')
      → R st' r
      → R st r

module _ {x : Externals} {ids : IdExternals} (s : Services x ids) (codec : Codec ids) (kv : KvStore)
    (R : PayState s codec kv → Bool × PayState s codec kv → Type 0)
    (chain : Chain s codec kv R) where
  continue :
      (st : PayState s codec kv) (next : PayState s codec kv → Attempt s codec kv)
      (r : Bool × PayState s codec kv)
      → R st r
      → ((st' : PayState s codec kv) → Returns (R st') (next st'))
      → Returns (R st) (if r.0 then done (true, r.1) else next r.1)
  continue st next (true, st') h k = returns h
  continue st next (false, st') h k = behind (next st') (k st')
    where
      behind : (a : Attempt s codec kv) → Returns (R st') a → Returns (R st) a
      behind a (returns g) = returns (chain.after st st' _ h g)

  pub unless_paid-Returns :
      (st : PayState s codec kv) (a : Attempt s codec kv)
      (next : PayState s codec kv → Attempt s codec kv)
      → Returns (R st) a
      → ((st' : PayState s codec kv) → Returns (R st') (next st'))
      → Returns (R st) (unless_paid s codec kv a next)
  unfolding unless_paid
  unless_paid-Returns st a next h k = Returns-bind h λ r g. continue st next r g k

  abbrev Each : (PaymentMethod x → PaymentType → PayState s codec kv → Attempt s codec kv) → Type 0
  Each pay_by =
      (m : PaymentMethod x) (ty : PaymentType)
      → TypeOf m ty
      → (st : PayState s codec kv) → Returns (R st) (pay_by m ty st)

  module _ (arm : PaymentMethod x → Option PaymentType)
      (typed : (m : PaymentMethod x) → IfSome (TypeOf m) (arm m))
      (pay_by : PaymentMethod x → PaymentType → PayState s codec kv → Attempt s codec kv)
      (each : Each pay_by) where
    try_arm-Returns :
        (m : PaymentMethod x) (o : Option PaymentType) (st : PayState s codec kv)
        → IfSome (TypeOf m) o
        → Returns (R st) (try_arm s codec kv arm pay_by m o st)
    unfolding try_arm
    try_arm-Returns m none st t = returns (chain.idle st)
    try_arm-Returns m (some ty) st t = each m ty t st

    try_methods-Returns :
        (ms : List (PaymentMethod x)) (st : PayState s codec kv)
        → Returns (R st) (try_methods s codec kv arm pay_by ms st)
    unfolding try_methods
    try_methods-Returns [] st = returns (chain.idle st)
    try_methods-Returns (m ∷ ms) st =
        unless_paid-Returns st _ _ (try_arm-Returns m (arm m) st (typed m)) (try_methods-Returns ms)

  lightning_typed : (m : PaymentMethod x) → IfSome (TypeOf m) (lightning_type s codec kv m)
  lightning_typed (lightning_bolt11 invoice) = bolt11_type
  lightning_typed (lightning_bolt12 offer) = bolt12_type
  lightning_typed (on_chain amount address) = tt

  on_chain_typed : (m : PaymentMethod x) → IfSome (TypeOf m) (on_chain_type s codec kv m)
  on_chain_typed (lightning_bolt11 invoice) = tt
  on_chain_typed (lightning_bolt12 offer) = tt
  on_chain_typed (on_chain amount address) = on_chain_type_of

  -- The balances are read once, in front of all attempts.
  pub try_all-Returns :
      (info : PaymentInfo x) (st : PayState s codec kv)
      → Each (
          pay_custodial s codec kv info.amount
            (Custodial.get_balance s st.world)
            (Lightning.get_balance s st.world).0)
      → Each (
          pay_lightning s codec kv info.amount
            (Custodial.get_balance s st.world)
            (Lightning.get_balance s st.world).0)
      → Returns (R st) (try_all s codec kv info st)
  unfolding try_all
  try_all-Returns info st custody channels =
      let ms = info.instructions.methods in
      unless_paid-Returns st _ _
        (try_methods-Returns (lightning_type s codec kv) lightning_typed _ custody ms st)
        λ st₁.
          unless_paid-Returns st₁ _ _
            (try_methods-Returns (lightning_type s codec kv) lightning_typed _ channels ms st₁)
            λ st₂.
              unless_paid-Returns st₂ _ _
                (try_methods-Returns (on_chain_type s codec kv) on_chain_typed _ custody ms st₂)
                λ st₃.
                  try_methods-Returns (on_chain_type s codec kv) on_chain_typed _ channels ms st₃
