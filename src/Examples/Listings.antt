-- ===== src/Examples/Listings.antt =====
-- The theorems on `list_transactions`, for one payment of each side.
use mathlib.Core.List.{Mem, mem-cons_self}
use libbtcwallet.Base.{false, ◌≡◌, refl, none, some, [], ◌∷◌, codes, true, All, HashMap, get, put}
use libbtcwallet.Store.{
  PaymentId, lightning, custodial, completed, incoming_lightning, payment,
  payment_triggering_transfer_to_non_custodial, transfer_to_non_custodial, TxMetadata, TxType,
  id_key,
}
use libbtcwallet.Wallet.Services.{PaymentDetails, bolt11}
use libbtcwallet.Wallet.Custodial.{Payment}
use libbtcwallet.Wallet.Listing.{
  of_custodial, list_all, add_lightnings, add_custodials, merge_transfers,
}
use libbtcwallet.Wallet.Listing.Sources.{IsShown}
use libbtcwallet.Wallet.Listing.Shown.{list_all-AllShown}
use libbtcwallet.Wallet.Listing.Found.{list_all_custodial, list_all_lightning}
use libbtcwallet.Examples.Toys.{ids, arrived}

abbrev in_custody : Payment ids
in_custody = record { id = 7 ∷ []; amount = 1000; fee = 0; status = completed; outbound = false }

abbrev in_channel : PaymentDetails
in_channel = record (arrived (bolt11 (codes "l") none)) { amount_msat = some 900_000 }

abbrev recorded : HashMap (PaymentId ids) (TxMetadata ids)
recorded =
    (custodial (7 ∷ []), record { time = 3; ty = payment incoming_lightning })
    ∷ (lightning (5 ∷ []), record { time = 2; ty = payment incoming_lightning })
    ∷ []

-- A payment in custody that triggered a rebalance, and the halves of that.
abbrev moved : TxType ids
moved = transfer_to_non_custodial (1 ∷ []) (5 ∷ []) (custodial (7 ∷ []))

abbrev rebalanced : HashMap (PaymentId ids) (TxMetadata ids)
rebalanced =
    (
      custodial (7 ∷ []),
      record { time = 3; ty = payment_triggering_transfer_to_non_custodial incoming_lightning },
    )
    ∷ (custodial (1 ∷ []), record { time = 4; ty = moved })
    ∷ (lightning (5 ∷ []), record { time = 4; ty = moved })
    ∷ []

abbrev send_half : Payment ids
send_half = record { id = 1 ∷ []; amount = 900; fee = 11; status = completed; outbound = true }

list_all-AllShown_example :
    All
      (IsShown ids rebalanced (in_custody ∷ send_half ∷ []) (in_channel ∷ []))
      (list_all ids rebalanced (in_custody ∷ send_half ∷ []) (in_channel ∷ []))
list_all-AllShown_example =
    list_all-AllShown ids rebalanced (in_custody ∷ send_half ∷ []) (in_channel ∷ [])

-- One transaction is listed, with the fee of the transfer.
lists_one :
    list_all ids rebalanced (in_custody ∷ send_half ∷ []) (in_channel ∷ [])
    ≡ record (of_custodial in_custody incoming_lightning 3) { fee = 11 } ∷ []
unfolding list_all add_lightnings get add_custodials merge_transfers put
lists_one = refl

custodial_plain :
    get (id_key ids) recorded (custodial in_custody.id)
    ≡ some (record { time = 3; ty = payment incoming_lightning })
unfolding get
custodial_plain = refl

lightning_plain :
    get (id_key ids) recorded (lightning in_channel.id)
    ≡ some (record { time = 2; ty = payment incoming_lightning })
unfolding get
lightning_plain = refl

list_all_custodial_example :
    Mem
      (record {
        status = completed;
        outbound = false;
        amount = 1000;
        fee = 0;
        payment_type = incoming_lightning;
        time_since_epoch = 3;
      })
      (list_all ids recorded (in_custody ∷ []) (in_channel ∷ []))
list_all_custodial_example =
    list_all_custodial ids recorded 3 incoming_lightning (in_custody ∷ []) (in_channel ∷ [])
      in_custody custodial_plain mem-cons_self

list_all_lightning_example :
    Mem
      (record {
        status = completed;
        outbound = false;
        amount = 900_000;
        fee = 0;
        payment_type = incoming_lightning;
        time_since_epoch = 2;
      })
      (list_all ids recorded (in_custody ∷ []) (in_channel ∷ []))
list_all_lightning_example =
    list_all_lightning ids recorded 2 incoming_lightning (in_custody ∷ []) (in_channel ∷ [])
      in_channel lightning_plain mem-cons_self
