-- ===== src/Demo/Sent.antt =====
-- What the line `send` pays.
use libbtcwallet.Base.{
  ◌≡◌, none, some, All, ℕ, Bytes, parse_u64, Result, err, is_ok, Outcome, done, fail,
}
use libbtcwallet.Amount.{from_milli_sats}
use libbtcwallet.Instructions.External.{Externals, HrnResolver}
use libbtcwallet.Instructions.{PaymentInstructions, ParseError, amount}
use libbtcwallet.Store.{IdExternals}
use libbtcwallet.Store.Kv.{KvStore, Codec}
use libbtcwallet.Wallet.Services.{Services}
use libbtcwallet.Wallet.Lightning
use libbtcwallet.Wallet.Custodial
use libbtcwallet.Wallet.Errors.{WalletError}
use libbtcwallet.Wallet.Info.{set_amount}
use libbtcwallet.Wallet.Info.Close.{IsClose}
use libbtcwallet.Wallet.Parse.{parse_payment_instructions}
use libbtcwallet.Wallet.Pay.Funds.{Calls}
use libbtcwallet.Demo.{
  Session, Printed, payment_result, bad_amount, bad_payment_instructions, amount_mismatch,
}

module _ {x : Externals} {ids : IdExternals} (s : Services x ids) (codec : Codec ids) (kv : KvStore)
    (network : x.Network) (resolver : HrnResolver x) (text word : Bytes) (st : Session s kv) where
  abbrev Parsed : Outcome (ParseError x) (PaymentInstructions x) → Type 0
  Parsed o = parse_payment_instructions x network resolver text ≡ o

  -- The two sides and the store are as before where a word is refused. Else the amount is set, and
  -- the wallet asks for payments by calls of which at most one succeeds.
  pub data IsSent : Printed s kv × Session s kv → Type 0 where
    no_instructions : (e : ParseError x) → Parsed (fail e) → IsSent (bad_payment_instructions, st)
    no_amount :
        (i : PaymentInstructions x)
        → Parsed (done i)
        → parse_u64 word ≡ none
        → IsSent (bad_amount, st)
    mismatch :
        (i : PaymentInstructions x) (n : ℕ)
        → Parsed (done i)
        → parse_u64 word ≡ some n
        → set_amount i (from_milli_sats n) ≡ err tt
        → IsSent (amount_mismatch, st)
    paid :
        (i : PaymentInstructions x) (n : ℕ) (res : Result (WalletError s) (Unit {0}))
        (st' : Session s kv)
        → Parsed (done i)
        → parse_u64 word ≡ some n
        → All (λ m. IsClose (from_milli_sats n) (amount m)) i.methods
        → Calls s
            (from_milli_sats n)
            (Custodial.get_balance s st.world)
            (Lightning.get_balance s st.world).0
            st.world
            (is_ok res)
            st'.world
        → IsSent (payment_result res, st')
