-- ===== src/Wallet/ReceiveUri.antt =====
-- `Wallet::get_single_use_receive_uri` (libbtcwallet/src/lib.rs): an invoice from one side, with an
-- address of our own where it is worth it, as an uppercase BIP 321 URI.
pub mod Written
pub mod Parsed
pub mod Issued
pub mod RoundTrip
use libbtcwallet.Base.{
  Bool, ◌&&◌, Option, none, some, ◌++◌, Bytes, codes, leb, if◌then◌else◌, Result, ok, err,
  to_ascii_uppercase,
}
use libbtcwallet.Amount.{Amount, saturating_sub}
use libbtcwallet.Amount.Format.{btc_decimal_rounding_up_to_sats}
use libbtcwallet.Instructions.External.{Externals}
use libbtcwallet.Store.{IdExternals}
use libbtcwallet.Wallet.Services.{Services}
use libbtcwallet.Wallet.Errors.{WalletError, convert_err, ldk_node_failure, custodial_failure}
use libbtcwallet.Wallet.Lightning
use libbtcwallet.Wallet.Custodial
use libbtcwallet.Wallet.Lightning.{estimate_receivable_balance}
use libbtcwallet.Wallet.Balance.{Tunables}

-- what is written between the address and `LIGHTNING=`
unfoldable pub amount_param : Option Amount → Bytes
amount_param none = codes "?"
amount_param (some amt) = codes "?AMOUNT=" ++ (btc_decimal_rounding_up_to_sats amt ++ codes "&")

-- The writes into `uri`, and its `to_ascii_uppercase`.
unfoldable pub write_uri : Bytes → Bytes → Bytes
unfolding to_ascii_uppercase
write_uri body bolt11 =
    to_ascii_uppercase (codes "BITCOIN:" ++ (body ++ (codes "LIGHTNING=" ++ bolt11)))

module _ {x : Externals} {ids : IdExternals} (s : Services x ids) where
  abbrev pub custodial_invoice :
      Option Amount → s.World → Result (WalletError s) x.Bolt11Invoice × s.World
  custodial_invoice amount w =
      let (invoice, w') = Custodial.get_bolt11_invoice s w amount in
      (convert_err custodial_failure invoice, w')

  abbrev pub channel_invoice :
      Option Amount → s.World → Result (WalletError s) x.Bolt11Invoice × s.World
  channel_invoice amount w =
      let (invoice, w') = Lightning.get_bolt11_invoice s w amount in
      (convert_err ldk_node_failure invoice, w')

  unfoldable pub enable_onchain : Tunables → Option Amount → Bool
  enable_onchain t none = t.enable_amountless_receive_on_chain
  enable_onchain t (some amt) = leb t.onchain_receive_threshold amt

  unfoldable pub use_custodial : Tunables → s.World → Amount → Bool
  unfolding saturating_sub
  use_custodial t w amt =
      leb amt t.custodial_balance_limit
      && leb (saturating_sub (estimate_receivable_balance s w) t.rebalance_min) amt

  unfoldable pub choose_invoice :
      Tunables → Option Amount → s.World → Result (WalletError s) x.Bolt11Invoice × s.World
  unfolding use_custodial
  choose_invoice t none w = custodial_invoice none w
  choose_invoice t (some amt) w =
      if use_custodial t w amt then custodial_invoice (some amt) w else channel_invoice (some amt) w

  unfoldable pub with_address :
      Option Amount
      → x.Bolt11Invoice
      → Result s.NodeError x.Address × s.World
      → Result (WalletError s) Bytes × s.World
  unfolding write_uri amount_param
  with_address amount bolt11 (err e, w) = (err (ldk_node_failure e), w)
  with_address amount bolt11 (ok address, w) = (
    ok (
        write_uri (s.address_to_string address ++ amount_param amount)
          (s.invoice_to_string bolt11)),
    w,
  )

  unfoldable pub with_invoice :
      Tunables
      → Option Amount
      → Result (WalletError s) x.Bolt11Invoice × s.World
      → Result (WalletError s) Bytes × s.World
  unfolding enable_onchain with_address write_uri
  with_invoice t amount (err e, w) = (err e, w)
  with_invoice t amount (ok bolt11, w) =
      if enable_onchain t amount
      then with_address amount bolt11 (s.new_address w)
      else (ok (write_uri (codes "?") (s.invoice_to_string bolt11)), w)

  unfoldable pub get_single_use_receive_uri :
      Tunables → Option Amount → s.World → Result (WalletError s) Bytes × s.World
  unfolding choose_invoice with_invoice
  get_single_use_receive_uri t amount w = with_invoice t amount (choose_invoice t amount w)
