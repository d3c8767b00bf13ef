-- ===== src/Wallet/ReceiveUri/RoundTrip.antt =====
-- The URI that `get_single_use_receive_uri` returns, given to the parser of payment instructions.
use libbtcwallet.Base.{
  if_some, ◌≡◌, ◌≢◌, ◌<◌, ◌≤◌, ◌*◌, refl, arith, Bool, true, false, Option, none, some, List, [],
  ◌∷◌, ◌++◌, Bytes, codes, Lacks, All, All-map, All-append, Result, ok, err, done,
  to_ascii_uppercase, inl, inr, Bool-cases,
}
use mathlib.Core.Path.{subst}
use libbtcwallet.Amount.{Amount, sats_rounding_up, max_msats}
use libbtcwallet.Amount.Format.{btc_decimal_rounding_up_to_sats}
use libbtcwallet.Amount.Format.RoundTrip.{ReadsBtc-btc_decimal}
use libbtcwallet.Amount.Format.Numerals.{btc_decimal_numerals}
use libbtcwallet.Instructions.External.{Externals, HrnResolver}
use libbtcwallet.Instructions.{PaymentMethod, PaymentInstructions, lightning_bolt11, on_chain}
use libbtcwallet.Instructions.Parse.{
  parse_body, parse_payment_instructions, parse_resolved_instructions,
}
use libbtcwallet.Store.{IdExternals}
use libbtcwallet.Wallet.Services.{Services}
use libbtcwallet.Wallet.Errors.{WalletError}
use libbtcwallet.Wallet.Balance.{Tunables}
use libbtcwallet.Wallet.ReceiveUri.{
  amount_param, write_uri, choose_invoice, enable_onchain, with_invoice, with_address,
  get_single_use_receive_uri,
}
use libbtcwallet.Wallet.ReceiveUri.Written.{
  lightning_param, Matching, check_both, check_one, parse_lightning_query, parse_amount_query,
  parse_query,
}
use libbtcwallet.Wallet.ReceiveUri.Parsed.{
  IsPlain, IsAddressText, IsInvoiceText, lightning_uri, amount_uri, parse_body_lem, not_empty,
  upper,
}
use libbtcwallet.Wallet.ReceiveUri.Issued.{
  Askable, rounded, GivesAddress, UriLaws, HasInvoice, choose_invoice-HasInvoice, Matching-self,
}

abbrev no_at : (s t : Bytes) → Lacks b'@' s → Lacks b'@' t → Lacks b'@' (s ++ t)
no_at = All-append (λ b. b ≢ b'@')

rounded_sats : (amt : Amount) → amt ≤ max_msats → sats_rounding_up amt * 1000 ≤ max_msats
unfolding sats_rounding_up
rounded_sats amt le = omega arith

plain_lacks :
    (text : Bytes)
    → All IsPlain text
    → All (λ b. b < 128) text × Lacks b'?' text × Lacks b'&' text × Lacks b'@' text
plain_lacks [] h = (tt, tt, tt, tt)
plain_lacks (d ∷ text) ((a, q, n, t), h) =
    let (as_, qs, ns, ts) = plain_lacks text h in ((a, as_), (q, qs), (n, ns), (t, ts))

module _ {x : Externals} {ids : IdExternals} (s : Services x ids) (network : x.Network) where
  -- The methods that the wallet offers: its invoice, and an address of its own in front of it where
  -- receiving on chain is enabled.
  pub data Offered (t : Tunables) (amount : Option Amount) (w : s.World)
      : s.World → List (PaymentMethod x) → Type 0 where
    invoice_only :
        {w' : s.World} {inv : x.Bolt11Invoice}
        → choose_invoice s t amount w ≡ (ok inv, w')
        → enable_onchain s t amount ≡ false
        → Offered t amount w w' (lightning_bolt11 inv ∷ [])
    address_and_invoice :
        {w' w'' : s.World} {inv : x.Bolt11Invoice} {address : x.Address}
        → choose_invoice s t amount w ≡ (ok inv, w')
        → enable_onchain s t amount ≡ true
        → s.new_address w' ≡ (ok address, w'')
        → Offered t amount w w'' (on_chain (rounded amount) address ∷ lightning_bolt11 inv ∷ [])

  module _ (laws : UriLaws s network) (supports_pops : Bool) (resolver : HrnResolver x) where
    abbrev Parses : Bytes → List (PaymentMethod x) → Type 0
    Parses uri methods =
        (i : PaymentInstructions x) × (parse_payment_instructions x network supports_pops resolver
            uri
          ≡ done i)
        × (i.methods ≡ methods)

    nameless_read :
        (uri : Bytes) (methods : List (PaymentMethod x)) (i : PaymentInstructions x)
        → Lacks b'@' uri
        → parse_resolved_instructions x network supports_pops none none uri ≡ done i
        → i.methods ≡ methods
        → Parses uri methods
    unfolding parse_payment_instructions if_some
    nameless_read uri methods i l e m = (i, rw (laws.no_name uri l) e, m)

    lone_invoice_read :
        (inv : x.Bolt11Invoice) (b : Option Amount)
        → IsInvoiceText x network (s.invoice_to_string inv) inv b
        → Matching b b
        → Parses (write_uri (codes "?") (s.invoice_to_string inv)) (lightning_bolt11 inv ∷ [])
    unfolding parse_body
    lone_invoice_read inv b it m =
        let text = to_ascii_uppercase (s.invoice_to_string inv) in
        let (ascii, _, plain, nameless) =
          plain_lacks text (upper (s.invoice_to_string inv) it.plain) in
        rw (lightning_uri (s.invoice_to_string inv)) (
          nameless_read (codes "BITCOIN:" ++ ([] ++ b'?' ∷ lightning_param text)) _ _
            (All-append (λ b. b ≢ b'@') (codes "BITCOIN:?LIGHTNING=") text (omega arith) nameless)
            (parse_query x network supports_pops none none [] (lightning_param text) [] _ tt tt refl
              (parse_lightning_query x network supports_pops text inv it.read it.same plain [] refl
                (check_one x inv b it.asks m))
              refl)
            refl)

    address_and_invoice_read :
        (amount b : Option Amount) (address : x.Address) (inv : x.Bolt11Invoice)
        → Askable amount
        → IsAddressText x network (s.address_to_string address) address
        → IsInvoiceText x network (s.invoice_to_string inv) inv b
        → Matching (rounded amount) b
        → Parses
            (write_uri
              (s.address_to_string address ++ amount_param amount)
              (s.invoice_to_string inv))
            (on_chain (rounded amount) address ∷ lightning_bolt11 inv ∷ [])
    unfolding rounded
    address_and_invoice_read none b address inv h at it m = absurd h
    address_and_invoice_read (some amt) b address inv (_, le) at it m =
        let body = to_ascii_uppercase (s.address_to_string address) in
        let text = to_ascii_uppercase (s.invoice_to_string inv) in
        let value = btc_decimal_rounding_up_to_sats amt in
        let (ascii, query_free, _, nameless) =
          plain_lacks body (upper (s.address_to_string address) at.plain) in
        let (_, _, plain, nameless') =
          plain_lacks text (upper (s.invoice_to_string inv) it.plain) in
        rw (amount_uri (s.address_to_string address) (s.invoice_to_string inv) amt) (
          nameless_read _ _ _
            (no_at (codes "BITCOIN:") _ (omega arith) (
              no_at body _ nameless (
                no_at (codes "?AMOUNT=") _ (omega arith) (
                  no_at value _ (All-map (λ c h. omega arith) value (btc_decimal_numerals amt))
                    (no_at (codes "&LIGHTNING=") text (omega arith) nameless')))))
            (parse_query x network supports_pops none none body _ _ _ ascii query_free
              (parse_body_lem x network supports_pops body at.unchecked address
                (not_empty (s.address_to_string address) at.not_nil) at.read at.required)
              (parse_amount_query x network supports_pops text inv it.read it.same plain address
                value (sats_rounding_up amt)
                (All-map (λ c h. omega arith) value (btc_decimal_numerals amt))
                (ReadsBtc-btc_decimal x.amount_from_str_in_btc laws.amount_read amt
                  (rounded_sats amt le))
                (check_both x address inv (rounded (some amt)) b it.asks m))
              refl)
            refl)

    -- The URI, if there is one, is parsed as what the wallet offers.
    abbrev Payable :
        Tunables → Option Amount → s.World → Result (WalletError s) Bytes × s.World → Type 0
    Payable t amount w (ok uri, w') =
        (methods : List (PaymentMethod x)) × Parses uri methods × Offered t amount w w' methods
    Payable t amount w (err e, w') = Unit

    with_address-Payable :
        (t : Tunables) (amount b : Option Amount) (w w' : s.World) (inv : x.Bolt11Invoice)
        (r : Result s.NodeError x.Address × s.World)
        → Askable amount
        → choose_invoice s t amount w ≡ (ok inv, w')
        → enable_onchain s t amount ≡ true
        → s.new_address w' ≡ r
        → GivesAddress s network r
        → IsInvoiceText x network (s.invoice_to_string inv) inv b
        → Matching (rounded amount) b
        → Payable t amount w (with_address s amount inv r)
    unfolding with_address
    with_address-Payable t amount b w w' inv (err e, w'') h c o n at it m = tt
    with_address-Payable t amount b w w' inv (ok address, w'') h c o n at it m =
        (_, address_and_invoice_read amount b address inv h at it m, address_and_invoice c o n)

    with_invoice-Payable :
        (t : Tunables) (amount : Option Amount) (w : s.World)
        (c : Result (WalletError s) x.Bolt11Invoice × s.World)
        → Askable amount
        → choose_invoice s t amount w ≡ c
        → HasInvoice s network amount c
        → Payable t amount w (with_invoice s t amount c)
    unfolding with_invoice
    with_invoice-Payable t amount w (err e, w') h c has = tt
    with_invoice-Payable t amount w (ok inv, w') h c (b, it, m) =
        elim (Bool-cases (enable_onchain s t amount)) [
          | inl o ↦ rw o (
              with_address-Payable t amount b w w' inv (s.new_address w') h c o refl
                (laws.address w') it m)
          | inr o ↦
              rw o (
                _,
                lone_invoice_read inv b it (Matching-self (rounded amount) b m),
                invoice_only c o,
              )
        ]

    -- If the wallet returns a receive URI for an amount above 0 and of at most 21 million bitcoin, the
    -- parser of payment instructions accepts it, and the methods are those on offer: the invoice that
    -- the wallet chose, preceded, exactly where receiving on chain is enabled for the amount, by its
    -- new address with the amount rounded up to a satoshi. The invoices and addresses handed to us
    -- must be for our network, read back from their capitals, and the invoices ask for the amount that
    -- was asked for; the parser of amounts must read a whole number of bitcoin without leading zeros,
    -- alone or with up to eight digits behind a point, as such, and a text without `@` be no name.
    pub get_single_use_receive_uri-parse_payment_instructions :
        (t : Tunables) (amt : Amount) (w w' : s.World) (uri : Bytes)
        → 0 < amt
        → amt ≤ max_msats
        → get_single_use_receive_uri s t (some amt) w ≡ (ok uri, w')
        → (methods : List (PaymentMethod x)) × Parses uri methods
          × Offered t (some amt) w w' methods
    unfolding get_single_use_receive_uri
    get_single_use_receive_uri-parse_payment_instructions t amt w w' uri pos le e =
        subst (Payable t (some amt) w) e (
          with_invoice-Payable t (some amt) w _ (pos, le) refl
            (choose_invoice-HasInvoice s network laws t (some amt) w (pos, le)))
