-- ===== src/Wallet/Polling/Exhausted.antt =====
-- When no payment is left that a rebalance can be charged to.
use libbtcwallet.Base.{
  ℕ, ◌≡◌, ◌⊎◌, inl, inr, refl, true, false, some, List, [], ◌∷◌, All, ok, done, panic, ◌>>=◌, get,
}
use libbtcwallet.Amount.{Amount}
use libbtcwallet.Instructions.External.{Externals}
use libbtcwallet.Store.{
  IdExternals, custodial, PaymentType, payment_triggering_transfer_to_non_custodial, id_key,
}
use libbtcwallet.Store.Kv.{KvStore, Codec}
use libbtcwallet.Store.Metadata.{TxMetadataStore}
use libbtcwallet.Wallet.Services.{Services}
use libbtcwallet.Wallet.Custodial.{Payment, list_payments}
use libbtcwallet.Wallet.Balance.{Tunables, get_balance_amt}
use libbtcwallet.Wallet.Polling.{
  see_known, see_inbound, see_payments, pick, smallest, victim, charge, poll_listed, poll,
}
use libbtcwallet.Wallet.Polling.Victims.{at_start}

module _ {ids : IdExternals} (codec : Codec ids) (kv : KvStore) (m : TxMetadataStore ids kv) where
  -- Sent by us, or received and already charged for a rebalance.
  abbrev pub Spent : Payment ids → Type 0
  Spent p =
      (p.outbound ≡ true)
      ⊎ ((p.outbound ≡ false)
          × (time : ℕ) × (ty : PaymentType) × (get (id_key ids) m.tx_metadata (custodial p.id)
              ≡ some
                  (record { time = time; ty = payment_triggering_transfer_to_non_custodial ty })))

  see_payments-Spent :
      (now : ℕ) (ps : List (Payment ids))
      → All Spent ps
      → see_payments codec kv now ps (at_start codec kv m) ≡ done (at_start codec kv m)
  unfolding see_payments see_inbound see_known ◌>>=◌
  see_payments-Spent now [] h = refl
  see_payments-Spent now (p ∷ ps) (inl e, hs) = rw e (see_payments-Spent now ps hs)
  see_payments-Spent now (p ∷ ps) (inr (e, time, ty, f), hs) =
      rw (f, e) (see_payments-Spent now ps hs)

  -- If there is an amount to move, and all payments of custody are sent by us or already charged for
  -- a rebalance, a round of the polling task panics.
  pub poll_panics :
      {x : Externals} (s : Services x ids) (fuel : ℕ) (tunables : Tunables) (w w' : s.World)
      (ps : List (Payment ids)) (amt : Amount)
      → list_payments s w ≡ (ok ps, w')
      → All Spent ps
      → get_balance_amt s tunables w' ≡ some amt
      → poll codec kv s fuel tunables w m ≡ panic
  unfolding poll poll_listed charge victim pick smallest ◌>>=◌
  poll_panics s fuel tunables w w' ps amt listed spent moves =
      rw (listed, see_payments-Spent (s.now w') ps spent, moves)
