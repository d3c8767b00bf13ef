-- ===== src/Wallet/Pay/Traced.antt =====
-- What `Wallet::pay` records and returns, by the calls that it made.
use mathlib.Core.Path.{subst}
use libbtcwallet.Base.{
  sym, ◌≡◌, refl, Bool, true, false, Option, none, some, ◌∷◌, Result, ok, err, Returns, returns,
  Returns-bind, Returns-guarded, if◌then◌else◌, leb, put,
}
use libbtcwallet.Amount.{Amount, saturating_add}
use libbtcwallet.Instructions.External.{Externals}
use libbtcwallet.Instructions.{PaymentMethod}
use libbtcwallet.Store.{
  IdExternals, PaymentId, Bytes32, PaymentType, id_key, lightning, custodial, payment,
}
use libbtcwallet.Store.Kv.{KvStore, Codec}
use libbtcwallet.Store.Metadata.{TxMetadataStore}
use libbtcwallet.Wallet.Services.{Services}
use libbtcwallet.Wallet.Lightning
use libbtcwallet.Wallet.Custodial
use libbtcwallet.Wallet.Info.{PaymentInfo}
use libbtcwallet.Wallet.Errors.{WalletError, ldk_node_failure, custodial_failure}
use libbtcwallet.Wallet.Pay.{
  PayState, last_error, before, pay, pay_custodial, pay_lightning, custodial_paid, custodial_funded,
  lightning_paid, lightning_funded,
}
use libbtcwallet.Wallet.Pay.Chains.{TypeOf, Chain, try_all-Returns}
use libbtcwallet.Wallet.Pay.Recorded.{Writes, insert-Returns, upsert-Returns}

module _ {x : Externals} {ids : IdExternals} (s : Services x ids) (codec : Codec ids) (kv : KvStore)
    (amount : Amount) where
  abbrev custody_estimates : s.World → PaymentMethod x → s.World
  custody_estimates w m = (Custodial.estimate_fee s w m amount).1

  abbrev channels_estimate : s.World → PaymentMethod x → s.World
  channels_estimate w m = (Lightning.estimate_fee s w m amount).1

  -- The entry of a payment, under its id, with its type and the time after the call.
  abbrev Entered :
      TxMetadataStore ids kv
      → PaymentId ids
      → PaymentType
      → s.World
      → TxMetadataStore ids kv
      → Type 0
  Entered m id ty w m' =
      m'.tx_metadata
      ≡ put (id_key ids) m.tx_metadata id (record { time = s.now w; ty = payment ty })

  -- The attempts, the first one in front. An estimate changes the world of its side; a call that
  -- fails sets the last error of the side; a call that pays is the last one, and its payment is
  -- recorded under the id it returned, and one of our channels starts a rebalancing task.
  pub data Tried : PayState s codec kv → Bool → PayState s codec kv → Type 0 where
    nothing_left : {st : PayState s codec kv} → Tried st false st
    custody_estimated :
        {b : Bool} {st st' : PayState s codec kv} (m : PaymentMethod x)
        → Tried (record st { world = custody_estimates st.world m }) b st'
        → Tried st b st'
    channels_estimated :
        {b : Bool} {st st' : PayState s codec kv} (m : PaymentMethod x)
        → Tried (record st { world = channels_estimate st.world m }) b st'
        → Tried st b st'
    custody_failed :
        {b : Bool} {st st' : PayState s codec kv} (m : PaymentMethod x) (e : s.CustodialError)
        (w : s.World)
        → Custodial.pay s (custody_estimates st.world m) m amount ≡ (err e, w)
        → Tried (record st { world = w; last_custodial_err = some (custodial_failure e) }) b st'
        → Tried st b st'
    channels_failed :
        {b : Bool} {st st' : PayState s codec kv} (m : PaymentMethod x) (e : s.NodeError)
        (w : s.World)
        → Lightning.pay s (channels_estimate st.world m) m amount ≡ (err e, w)
        → Tried (record st { world = w; last_lightning_err = some (ldk_node_failure e) }) b st'
        → Tried st b st'
    custody_paid :
        {st : PayState s codec kv} (m : PaymentMethod x) (ty : PaymentType)
        (id : ids.CustodialPaymentId) (w : s.World) (tx_metadata : TxMetadataStore ids kv)
        → TypeOf m ty
        → Custodial.pay s (custody_estimates st.world m) m amount ≡ (ok id, w)
        → Entered st.tx_metadata (custodial id) ty w tx_metadata
        → Tried st true (record st { world = w; tx_metadata = tx_metadata })
    channels_paid :
        {st : PayState s codec kv} (m : PaymentMethod x) (ty : PaymentType) (id : Bytes32)
        (w : s.World) (tx_metadata : TxMetadataStore ids kv)
        → TypeOf m ty
        → Lightning.pay s (channels_estimate st.world m) m amount ≡ (ok id, w)
        → Entered st.tx_metadata (lightning id) ty w tx_metadata
        → Tried st true (record st {
          world = w;
          tx_metadata = tx_metadata;
          spawned = lightning id ∷ st.spawned;
        })

  Tried-after :
      {st st' st'' : PayState s codec kv} {b : Bool}
      → Tried st false st'
      → Tried st' b st''
      → Tried st b st''
  Tried-after nothing_left d = d
  Tried-after (custody_estimated m c) d = custody_estimated m (Tried-after c d)
  Tried-after (channels_estimated m c) d = channels_estimated m (Tried-after c d)
  Tried-after (custody_failed m e w p c) d = custody_failed m e w p (Tried-after c d)
  Tried-after (channels_failed m e w p c) d = channels_failed m e w p (Tried-after c d)

  abbrev TriedBy : PayState s codec kv → Bool × PayState s codec kv → Type 0
  TriedBy st r = Tried st r.0 r.1

  TriedBy-Chain : Chain s codec kv TriedBy
  TriedBy-Chain = record { idle = λ st. nothing_left; after = λ st st' r c d. Tried-after c d }

  module _ (writes : Writes kv) (custodial_balance available_ln : Amount) (m : PaymentMethod x)
      (ty : PaymentType) (of_type : TypeOf m ty) (st : PayState s codec kv) where
    custodial_paid-Tried :
        (r : Result s.CustodialError ids.CustodialPaymentId × s.World)
        → Custodial.pay s (custody_estimates st.world m) m amount ≡ r
        → Returns
            (TriedBy st)
            (custodial_paid s codec kv amount custodial_balance available_ln ty st r)
    unfolding custodial_paid
    custodial_paid-Tried (ok id, w) p =
        Returns-bind (insert-Returns codec kv writes st.tx_metadata (custodial id) _)
          λ m' e. returns (custody_paid m ty id w m' of_type p e)
    custodial_paid-Tried (err e, w) p = returns (custody_failed m e w p nothing_left)

    lightning_paid-Tried :
        (r : Result s.NodeError Bytes32 × s.World)
        → Lightning.pay s (channels_estimate st.world m) m amount ≡ r
        → Returns
            (TriedBy st)
            (lightning_paid s codec kv amount custodial_balance available_ln ty st r)
    unfolding lightning_paid
    lightning_paid-Tried (ok id, w) p =
        Returns-bind (upsert-Returns codec kv writes st.tx_metadata (lightning id) _)
          λ m' e. returns (channels_paid m ty id w m' of_type p e)
    lightning_paid-Tried (err e, w) p = returns (channels_failed m e w p nothing_left)

    pay_custodial-Tried :
        Returns
          (TriedBy st)
          (pay_custodial s codec kv amount custodial_balance available_ln m ty st)
    unfolding pay_custodial custodial_funded
    pay_custodial-Tried =
        Returns-guarded (leb amount custodial_balance)
          (Custodial.estimate_fee s st.world m amount).0
          (λ fee. leb (saturating_add fee amount) custodial_balance)
          (λ fee _ _ _. custodial_paid-Tried _ refl) (returns (custody_estimated m nothing_left))
          (returns nothing_left)

    pay_lightning-Tried :
        Returns
          (TriedBy st)
          (pay_lightning s codec kv amount custodial_balance available_ln m ty st)
    unfolding pay_lightning lightning_funded
    pay_lightning-Tried =
        Returns-guarded (leb amount available_ln) (Lightning.estimate_fee s st.world m amount).0
          (λ fee. leb (saturating_add fee amount) available_ln)
          (λ fee _ _ _. lightning_paid-Tried _ refl) (returns (channels_estimated m nothing_left))
          (returns nothing_left)

module _ {x : Externals} {ids : IdExternals} (s : Services x ids) (codec : Codec ids)
    (kv : KvStore) where
  -- What the caller is told: the last error of our channels goes before that of custody.
  pub data IsTold (st : PayState s codec kv)
      : Bool → Result (WalletError s) (Unit {0}) → Type 0 where
    paid : IsTold st true (ok tt)
    channels_error : (e : WalletError s) → st.last_lightning_err ≡ some e → IsTold st false (err e)
    custody_error :
        (e : WalletError s)
        → st.last_lightning_err ≡ none
        → st.last_custodial_err ≡ some e
        → IsTold st false (err e)
    no_funds :
        st.last_lightning_err ≡ none
        → st.last_custodial_err ≡ none
        → IsTold st false (err (ldk_node_failure s.insufficient_funds))

  by_last :
      {st : PayState s codec kv} (e : WalletError s)
      → last_error s codec kv st ≡ e
      → IsTold st false (err e)
      → IsTold st false (err (last_error s codec kv st))
  by_last {st} e f h = subst (λ e'. IsTold st false (err e')) (sym f) h

  last_error-IsTold : (st : PayState s codec kv) → IsTold st false (err (last_error s codec kv st))
  unfolding last_error
  last_error-IsTold st = by_errors st.last_lightning_err st.last_custodial_err refl refl
    where
      by_errors :
          (l c : Option (WalletError s))
          → st.last_lightning_err ≡ l
          → st.last_custodial_err ≡ c
          → IsTold st false (err (last_error s codec kv st))
      by_errors (some e) c f g = by_last e (rw f refl) (channels_error e f)
      by_errors none (some e) f g = by_last e (rw (f, g) refl) (custody_error e f g)
      by_errors none none f g =
          by_last (ldk_node_failure s.insufficient_funds) (rw (f, g) refl) (no_funds f g)

  told :
      (r : Bool × PayState s codec kv)
      → IsTold r.1 r.0 (if r.0 then ok tt else err (last_error s codec kv r.1))
  told (true, st) = paid
  told (false, st) = last_error-IsTold st

  -- When the key-value store takes every write, `pay` returns, after a sequence of attempts. A call
  -- that fails leaves its error as the last one of its side; a call that pays ends the sequence, and
  -- just one entry of the map is set then, under the id that the call returned, to a plain payment of
  -- the method's type with the time after the call; our channels then start a rebalancing task for
  -- the payment. Without such a call the store is as before and no task is started, and the result is
  -- the last error of our channels, else of custody, else insufficient funds; with one it is `Ok`.
  pub pay-Tried :
      (writes : Writes kv) (info : PaymentInfo x) (w : s.World) (m : TxMetadataStore ids kv)
      → Returns
          (λ r.
            (is_paid : Bool) × Tried s codec kv info.amount (before s codec kv w m) is_paid r.1
            × IsTold r.1 is_paid r.0)
          (pay s codec kv info w m)
  unfolding pay
  pay-Tried writes info w m =
      Returns-bind
        (try_all-Returns s codec kv (TriedBy s codec kv info.amount)
          (TriedBy-Chain s codec kv info.amount) info (before s codec kv w m)
          (λ m ty t st. pay_custodial-Tried s codec kv info.amount writes _ _ m ty t st)
          (λ m ty t st. pay_lightning-Tried s codec kv info.amount writes _ _ m ty t st))
        λ r c. returns (r.0, c, told r)
