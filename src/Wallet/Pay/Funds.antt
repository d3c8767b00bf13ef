-- ===== src/Wallet/Pay/Funds.antt =====
-- The calls that `Wallet::pay` makes on the custodial wallet and on the lightning node.
use libbtcwallet.Base.{
  leb→le, ◌≡◌, refl, Bool, true, false, Result, ok, err, done, Returns, returns, Returns-bind,
  Returns-guarded, is_ok, leb, if◌then◌else◌, ◌≤◌,
}
use libbtcwallet.Amount.{Amount, saturating_add}
use libbtcwallet.Instructions.External.{Externals}
use libbtcwallet.Instructions.{PaymentMethod}
use libbtcwallet.Store.{IdExternals, PaymentType, Bytes32}
use libbtcwallet.Store.Kv.{KvStore, Codec}
use libbtcwallet.Store.Metadata.{TxMetadataStore}
use libbtcwallet.Wallet.Services.{Services}
use libbtcwallet.Wallet.Lightning
use libbtcwallet.Wallet.Custodial
use libbtcwallet.Wallet.Info.{PaymentInfo}
use libbtcwallet.Wallet.Errors.{WalletError}
use libbtcwallet.Wallet.Pay.{
  PayState, before, last_error, pay, pay_custodial, pay_lightning, custodial_paid, custodial_funded,
  lightning_paid, lightning_funded,
}
use libbtcwallet.Wallet.Pay.Recorded.{Writes, insert-Returns, upsert-Returns}
use libbtcwallet.Wallet.Pay.Chains.{Chain, try_all-Returns}

module _ {x : Externals} {ids : IdExternals} (s : Services x ids)
    (amount custodial_balance available_ln : Amount) where
  -- The call that pays is made in the world that its own fee estimate left, where that estimate
  -- succeeded and fee and amount fit the balance.
  abbrev pub PaidBy :
      {F I : Type 0}
      → (s.World → PaymentMethod x → Amount → Result F Amount × s.World)
      → (s.World → PaymentMethod x → Amount → Result F I × s.World)
      → Amount
      → s.World
      → PaymentMethod x
      → Result F I
      → s.World
      → Type 0
  PaidBy estimate send balance w m r v =
      (fee : Amount) × ((estimate w m amount).0 ≡ ok fee)
      × (amount ≤ balance)
      × (saturating_add fee amount ≤ balance)
      × (send (estimate w m amount).1 m amount ≡ (r, v))

  -- The worlds that calls lead to: any number of fee estimates and of payments that fail, and then one
  -- payment that succeeds, or none (`false`).
  pub data Calls (w : s.World) : Bool → s.World → Type 0 where
    no_call : Calls w false w
    custodial_fee :
        {v : s.World} (m : PaymentMethod x)
        → Calls w false v
        → Calls w false (Custodial.estimate_fee s v m amount).1
    channel_fee :
        {v : s.World} (m : PaymentMethod x)
        → Calls w false v
        → Calls w false (Lightning.estimate_fee s v m amount).1
    custodial_fails :
        {v v' : s.World} (m : PaymentMethod x) (e : s.CustodialError)
        → Calls w false v
        → PaidBy (Custodial.estimate_fee s) (Custodial.pay s) custodial_balance v m (err e) v'
        → Calls w false v'
    channels_fail :
        {v v' : s.World} (m : PaymentMethod x) (e : s.NodeError)
        → Calls w false v
        → PaidBy (Lightning.estimate_fee s) (Lightning.pay s) available_ln v m (err e) v'
        → Calls w false v'
    custodial_pays :
        {v v' : s.World} (m : PaymentMethod x) (id : ids.CustodialPaymentId)
        → Calls w false v
        → PaidBy (Custodial.estimate_fee s) (Custodial.pay s) custodial_balance v m (ok id) v'
        → Calls w true v'
    channels_pay :
        {v v' : s.World} (m : PaymentMethod x) (id : Bytes32)
        → Calls w false v
        → PaidBy (Lightning.estimate_fee s) (Lightning.pay s) available_ln v m (ok id) v'
        → Calls w true v'

  Calls-after : {u v w : s.World} {b : Bool} → Calls u false v → Calls v b w → Calls u b w
  Calls-after c no_call = c
  Calls-after c (custodial_fee m d) = custodial_fee m (Calls-after c d)
  Calls-after c (channel_fee m d) = channel_fee m (Calls-after c d)
  Calls-after c (custodial_fails m e d p) = custodial_fails m e (Calls-after c d) p
  Calls-after c (channels_fail m e d p) = channels_fail m e (Calls-after c d) p
  Calls-after c (custodial_pays m id d p) = custodial_pays m id (Calls-after c d) p
  Calls-after c (channels_pay m id d p) = channels_pay m id (Calls-after c d) p

module _ {x : Externals} {ids : IdExternals} (s : Services x ids) (codec : Codec ids) (kv : KvStore)
    (writes : Writes kv) (amount custodial_balance available_ln : Amount) where
  abbrev CalledBy : PayState s codec kv → Bool × PayState s codec kv → Type 0
  CalledBy st r = Calls s amount custodial_balance available_ln st.world r.0 r.1.world

  CalledBy-Chain : Chain s codec kv CalledBy
  CalledBy-Chain = record {
    idle = λ st. no_call;
    after = λ st st' r c d. Calls-after s amount custodial_balance available_ln c d;
  }

  custodial_paid-Calls :
      (m : PaymentMethod x) (ty : PaymentType) (st : PayState s codec kv)
      (r : Result s.CustodialError ids.CustodialPaymentId × s.World)
      → PaidBy s amount custodial_balance available_ln
          (Custodial.estimate_fee s)
          (Custodial.pay s)
          custodial_balance
          st.world
          m
          r.0
          r.1
      → Returns
          (CalledBy st)
          (custodial_paid s codec kv amount custodial_balance available_ln ty st r)
  unfolding custodial_paid
  custodial_paid-Calls m ty st (ok id, w) p =
      Returns-bind (insert-Returns codec kv writes st.tx_metadata _ _)
        λ _ _. returns (custodial_pays m id no_call p)
  custodial_paid-Calls m ty st (err e, w) p = returns (custodial_fails m e no_call p)

  lightning_paid-Calls :
      (m : PaymentMethod x) (ty : PaymentType) (st : PayState s codec kv)
      (r : Result s.NodeError Bytes32 × s.World)
      → PaidBy s amount custodial_balance available_ln
          (Lightning.estimate_fee s)
          (Lightning.pay s)
          available_ln
          st.world
          m
          r.0
          r.1
      → Returns
          (CalledBy st)
          (lightning_paid s codec kv amount custodial_balance available_ln ty st r)
  unfolding lightning_paid
  lightning_paid-Calls m ty st (ok id, w) p =
      Returns-bind (upsert-Returns codec kv writes st.tx_metadata _ _)
        λ _ _. returns (channels_pay m id no_call p)
  lightning_paid-Calls m ty st (err e, w) p = returns (channels_fail m e no_call p)

  pay_custodial-Calls :
      (m : PaymentMethod x) (ty : PaymentType) (st : PayState s codec kv)
      → Returns
          (CalledBy st)
          (pay_custodial s codec kv amount custodial_balance available_ln m ty st)
  unfolding pay_custodial custodial_funded
  pay_custodial-Calls m ty st =
      Returns-guarded (leb amount custodial_balance) (Custodial.estimate_fee s st.world m amount).0
        (λ fee. leb (saturating_add fee amount) custodial_balance)
        (λ fee enough e affordable.
          custodial_paid-Calls m ty st _ (fee, e, leb→le _ _ enough, leb→le _ _ affordable, refl))
        (returns (custodial_fee m no_call)) (returns no_call)

  pay_lightning-Calls :
      (m : PaymentMethod x) (ty : PaymentType) (st : PayState s codec kv)
      → Returns
          (CalledBy st)
          (pay_lightning s codec kv amount custodial_balance available_ln m ty st)
  unfolding pay_lightning lightning_funded
  pay_lightning-Calls m ty st =
      Returns-guarded (leb amount available_ln) (Lightning.estimate_fee s st.world m amount).0
        (λ fee. leb (saturating_add fee amount) available_ln)
        (λ fee enough e affordable.
          lightning_paid-Calls m ty st _ (fee, e, leb→le _ _ enough, leb→le _ _ affordable, refl))
        (returns (channel_fee m no_call)) (returns no_call)

module _ {x : Externals} {ids : IdExternals} (s : Services x ids) (codec : Codec ids) (kv : KvStore)
    (amount custodial_balance available_ln : Amount) (w : s.World) where
  answer :
      (r : Bool × PayState s codec kv)
      → Calls s amount custodial_balance available_ln w r.0 r.1.world
      → Returns {E = Unit {0}}
          (λ (q : Result (WalletError s) (Unit {0}) × PayState s codec kv).
            Calls s amount custodial_balance available_ln w (is_ok q.0) q.1.world)
          (done (if r.0 then ok tt else err (last_error s codec kv r.1), r.1))
  answer (true, st) c = returns c
  answer (false, st) c = returns c

-- When the key-value store takes every write, `pay` returns, and the calls it makes are fee estimates,
-- payments that fail, and at most one payment that succeeds, after which it makes none; it returns
-- `Ok` exactly when there is one. Each payment follows a successful estimate for the same method, and
-- both the amount and the amount with that fee were within the balance, read when `pay` began, of the
-- custodial wallet or of the channels, whichever pays.
pub pay-Calls :
    {x : Externals} {ids : IdExternals} (s : Services x ids) (codec : Codec ids) (kv : KvStore)
    (writes : Writes kv) (info : PaymentInfo x) (w : s.World) (m : TxMetadataStore ids kv)
    → Returns
        (λ r.
          Calls s info.amount
            (Custodial.get_balance s w)
            (Lightning.get_balance s w).0
            w
            (is_ok r.0)
            r.1.world)
        (pay s codec kv info w m)
unfolding pay
pay-Calls s codec kv writes info w m =
    let cb = Custodial.get_balance s w in
    let l = (Lightning.get_balance s w).0 in
    Returns-bind
      (try_all-Returns s codec kv (CalledBy s codec kv writes info.amount cb l)
        (CalledBy-Chain s codec kv writes info.amount cb l) info (before s codec kv w m)
        (λ m ty t. pay_custodial-Calls s codec kv writes info.amount cb l m ty)
        (λ m ty t. pay_lightning-Calls s codec kv writes info.amount cb l m ty))
      λ r c. answer s codec kv info.amount cb l w r c
