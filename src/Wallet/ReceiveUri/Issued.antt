-- ===== src/Wallet/ReceiveUri/Issued.antt =====
-- The invoice that the wallet asks one of its sides for.
use libbtcwallet.Base.{
  leb, ℕ, ◌≡◌, ◌<◌, ◌≤◌, ◌*◌, arith, Option, none, some, Bytes, Lacks, Result, ok, err, inl, inr,
  Bool-cases,
}
use libbtcwallet.Amount.{Amount, from_sats, sats_rounding_up, max_msats, msats}
use libbtcwallet.Amount.Format.RoundTrip.{ReadsBtc}
use libbtcwallet.Instructions.External.{Externals}
use libbtcwallet.Instructions.{max_amount_difference}
use libbtcwallet.Store.{IdExternals}
use libbtcwallet.Wallet.Services.{Services}
use libbtcwallet.Wallet.Errors.{WalletError}
use libbtcwallet.Wallet.Balance.{Tunables}
use libbtcwallet.Wallet.Lightning
use libbtcwallet.Wallet.Custodial
use libbtcwallet.Wallet.ReceiveUri.{convert_err, choose_invoice, use_custodial}
use libbtcwallet.Wallet.ReceiveUri.Written.{Matching}
use libbtcwallet.Wallet.ReceiveUri.Parsed.{IsAddressText, IsInvoiceText}

-- An amount of at most 21 million bitcoin, which is not 0.
abbrev pub Askable : Option Amount → Type 0
Askable none = ⊥
Askable (some amt) = (0 < amt) × (amt ≤ max_msats)

unfoldable pub rounded : Option Amount → Option Amount
unfolding from_sats sats_rounding_up
rounded none = none
rounded (some amt) = some (from_sats (sats_rounding_up amt))

module _ {x : Externals} {ids : IdExternals} (s : Services x ids) (network : x.Network) where
  abbrev pub Issues : {E : Type 0} → Result E x.Bolt11Invoice × s.World → Option Amount → Type 0
  Issues (ok inv, w) asked = IsInvoiceText x network (s.invoice_to_string inv) inv asked
  Issues (err e, w) asked = Unit

  abbrev pub GivesAddress : Result s.NodeError x.Address × s.World → Type 0
  GivesAddress (ok a, w) = IsAddressText x network (s.address_to_string a) a
  GivesAddress (err e, w) = Unit

  -- The invoices and addresses that we are given are for our network, ask for the amount that was
  -- asked for, where it is not 0, and are read back from their capitals; a decimal number of bitcoin
  -- is read as such.
  pub record UriLaws : Type 0 where
    pub amount_read : ReadsBtc x.amount_from_str_in_btc
    pub no_name : (text : Bytes) → Lacks b'@' text → x.hrn_from_encoded text ≡ none
    pub address : (w : s.World) → GivesAddress (s.new_address w)
    pub custodial :
        (w : s.World) (n : ℕ) → 0 < n → Issues (s.create_lightning_invoice w n) (some (n * 1000))
    pub channel : (w : s.World) (m : ℕ) → Issues (s.receive w m) (some m)
    pub new_channel : (w : s.World) (m : ℕ) → Issues (s.receive_via_jit_channel w m) (some m)

  -- The wallet has an invoice for the amount.
  abbrev pub HasInvoice : Option Amount → Result (WalletError s) x.Bolt11Invoice × s.World → Type 0
  HasInvoice amount (ok inv, w) =
      (b : Option Amount) × IsInvoiceText x network (s.invoice_to_string inv) inv b
      × Matching (rounded amount) b
  HasInvoice amount (err e, w) = Unit

  issued :
      {E : Type 0} (f : E → WalletError s) (amount asked : Option Amount)
      (r : Result E x.Bolt11Invoice × s.World)
      → Issues r asked
      → Matching (rounded amount) asked
      → HasInvoice amount (convert_err f r.0, r.1)
  issued f amount asked (ok inv, w) h m = (asked, h, m)
  issued f amount asked (err e, w) h m = tt

  exact_amounts : (amt : Amount) → Askable (some amt) → Matching (rounded (some amt)) (some amt)
  unfolding rounded from_sats sats_rounding_up max_amount_difference
  exact_amounts amt (h, le) = (omega arith, omega arith, omega arith, omega arith)

  rounded_amounts :
      (amt : Amount)
      → Askable (some amt)
      → Matching (rounded (some amt)) (some (sats_rounding_up amt * 1000))
  unfolding rounded from_sats sats_rounding_up max_amount_difference
  rounded_amounts amt (h, le) = (omega arith, omega arith, omega arith, omega arith)

  some_sats : (amt : Amount) → Askable (some amt) → 0 < sats_rounding_up amt
  unfolding sats_rounding_up
  some_sats amt (h, le) = omega arith

  module _ (laws : UriLaws) where
    pub choose_invoice-HasInvoice :
        (t : Tunables) (amount : Option Amount) (w : s.World)
        → Askable amount
        → HasInvoice amount (choose_invoice s t amount w)
    unfolding choose_invoice Custodial.get_bolt11_invoice Lightning.get_bolt11_invoice msats rounded
        sats_rounding_up
    choose_invoice-HasInvoice t none w h = absurd h
    choose_invoice-HasInvoice t (some amt) w h = elim (Bool-cases (use_custodial s t w amt)) [
      | inl e ↦ rw e (
          issued _ (some amt) (some (sats_rounding_up amt * 1000))
            (s.create_lightning_invoice w (sats_rounding_up amt))
            (laws.custodial w _ (some_sats amt h)) (rounded_amounts amt h))
      | inr e ↦ rw e (elim (Bool-cases (leb amt (Lightning.estimate_receivable_balance s w))) [
        | inl o ↦ rw o (
            issued _ (some amt) (some amt) (s.receive w amt) (laws.channel w amt)
              (exact_amounts amt h))
        | inr o ↦ rw o (
            issued _ (some amt) (some amt) (s.receive_via_jit_channel w amt)
              (laws.new_channel w amt) (exact_amounts amt h))
      ])
    ]

pub Matching-self : (a b : Option Amount) → Matching a b → Matching b b
Matching-self a none h = tt
Matching-self none (some b) h = absurd h
Matching-self (some a) (some b) (_, le, _, _) = (le, le, omega arith, omega arith)
