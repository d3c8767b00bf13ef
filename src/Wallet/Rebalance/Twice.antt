-- ===== src/Wallet/Rebalance/Twice.antt =====
-- Two rebalances that are charged to the same transaction.
use libbtcwallet.Base.{ℕ, ◌≡◌, refl, false, some, ok, done, fail, panic, get, get-put, Returns-at}
use libbtcwallet.Amount.{Amount}
use libbtcwallet.Instructions.External.{Externals}
use libbtcwallet.Instructions.{lightning_bolt11}
use libbtcwallet.Store.{
  IdExternals, Bytes32, PaymentId, lightning, custodial, PaymentType, payment, id_key, same_id,
  same_id_self,
}
use libbtcwallet.Store.Kv.{KvStore, Codec}
use libbtcwallet.Store.Metadata.{
  TxMetadataStore, set_tx_caused_rebalance, mark_found, mark, triggering,
}
use libbtcwallet.Wallet.Services.{Services}
use libbtcwallet.Wallet.Lightning
use libbtcwallet.Wallet.Custodial
use libbtcwallet.Wallet.Balance.{Tunables, get_balance_amt}
use libbtcwallet.Wallet.Pay.Recorded.{Writes}
use libbtcwallet.Wallet.Rebalance.{rebalanced, received, await_receipt, do_custodial_rebalance}
use libbtcwallet.Wallet.Rebalance.Recording.{Accounted, accounted, do_custodial_rebalance-Accounted}
use libbtcwallet.Wallet.Rebalance.Waiting.{do_custodial_rebalance_panics}

module _ {x : Externals} {ids : IdExternals} (s : Services x ids) (codec : Codec ids) (kv : KvStore)
    (trigger : PaymentId ids) (time : ℕ) (ty : PaymentType) where
  stays_marked :
      (m m' : TxMetadataStore ids kv) (v : s.World) (a : ids.CustodialPaymentId) (b : Bytes32)
      → Accounted s codec kv trigger time ty m (rebalanced a b, v, m')
      → same_id ids (custodial a) trigger ≡ false
      → same_id ids (lightning b) trigger ≡ false
      → set_tx_caused_rebalance codec kv m' trigger ≡ fail tt
  unfolding set_tx_caused_rebalance mark_found mark triggering
  stays_marked m m' v a b (accounted _ _ e) ne_a ne_b =
      rw
        (
          e,
          get-put (id_key ids) _ (lightning b) trigger _,
          ne_b,
          get-put (id_key ids) _ (custodial a) trigger _,
          ne_a,
          get-put (id_key ids) m.tx_metadata trigger trigger _,
          same_id_self ids trigger,
        )
        refl

  -- After a rebalance that moved an amount, was charged to a plain payment, and whose halves have ids
  -- of their own, a second one that is charged to the same transaction panics, if there is again an
  -- amount to move and an invoice for it, custody pays that, and the payment arrives within the wait.
  pub second_rebalance_panics :
      (writes : Writes kv) (tunables : Tunables) (fuel fuel' : ℕ) (w v w' w1 w2 w3 : s.World)
      (m m' : TxMetadataStore ids kv) (a a' : ids.CustodialPaymentId) (b b' : Bytes32)
      (amt : Amount) (inv : x.Bolt11Invoice)
      → get (id_key ids) m.tx_metadata trigger ≡ some (record { time = time; ty = payment ty })
      → do_custodial_rebalance s codec kv trigger fuel tunables w m ≡ done (rebalanced a b, v, m')
      → same_id ids (custodial a) trigger ≡ false
      → same_id ids (lightning b) trigger ≡ false
      → get_balance_amt s tunables w' ≡ some amt
      → Lightning.get_bolt11_invoice s w' (some amt) ≡ (ok inv, w1)
      → Custodial.pay s w1 (lightning_bolt11 inv) amt ≡ (ok a', w2)
      → await_receipt s fuel' (s.payment_hash inv) w2 ≡ (received b', w3)
      → do_custodial_rebalance s codec kv trigger fuel' tunables w' m' ≡ panic
  second_rebalance_panics writes tunables fuel fuel' w v w' w1 w2 w3 m m' a a' b b' amt inv plain
        first ne_a ne_b e1 e2 e3 e4 =
      let after_first =
        Returns-at
          (do_custodial_rebalance-Accounted s codec kv trigger time ty m writes plain fuel tunables
            w)
          first in
      do_custodial_rebalance_panics s codec kv trigger tunables fuel' w' w1 w2 w3 m' amt inv a' b'
        e1 e2 e3 e4 (stays_marked m m' v a b after_first ne_a ne_b)
