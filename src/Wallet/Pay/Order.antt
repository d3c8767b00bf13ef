-- ===== src/Wallet/Pay/Order.antt =====
-- The order in which `Wallet::pay` tries the methods.
use mathlib.Core.Path.{fun_ext}
use libbtcwallet.Base.{
  Result, Outcome, ◌≡◌, refl, sym, ap, ◌∙◌, true, false, Option, none, some, List, [], ◌∷◌, ◌++◌,
  if◌then◌else◌, ok, err, done, fail, panic, ◌>>=◌,
}
use libbtcwallet.Amount.{Amount}
use libbtcwallet.Instructions.External.{Externals}
use libbtcwallet.Instructions.{on_chain, lightning_bolt12, lightning_bolt11, PaymentMethod}
use libbtcwallet.Store.{
  outgoing_on_chain, outgoing_lightning_bolt12, outgoing_lightning_bolt11, IdExternals, PaymentType,
}
use libbtcwallet.Store.Kv.{KvStore, Codec}
use libbtcwallet.Store.Metadata.{TxMetadataStore}
use libbtcwallet.Wallet.Services.{Services}
use libbtcwallet.Wallet.Lightning
use libbtcwallet.Wallet.Custodial
use libbtcwallet.Wallet.Info.{PaymentInfo}
use libbtcwallet.Wallet.Pay.{
  ldk_node_failure, WalletError, PayState, Attempt, before, last_error, lightning_type,
  on_chain_type, pay_custodial, pay_lightning, unless_paid, try_arm, try_methods, try_all, pay,
}

-- Who is asked to pay.
pub data Side : Type 0 where
  custody channels : Side

module _ {x : Externals} {ids : IdExternals} (s : Services x ids) (codec : Codec ids)
    (kv : KvStore) where
  abbrev Planned : Type 0
  Planned = Side × PaymentMethod x × PaymentType

  -- The lightning methods that a side is asked to pay, and the on-chain ones, in the order of the
  -- instructions, each with the type of the payment.
  abbrev pub over_lightning : Side → List (PaymentMethod x) → List Planned
  over_lightning side [] = []
  over_lightning side (lightning_bolt11 invoice ∷ ms) =
      (side, lightning_bolt11 invoice, outgoing_lightning_bolt11 none) ∷ over_lightning side ms
  over_lightning side (lightning_bolt12 offer ∷ ms) =
      (side, lightning_bolt12 offer, outgoing_lightning_bolt12 none) ∷ over_lightning side ms
  over_lightning side (on_chain a address ∷ ms) = over_lightning side ms

  abbrev pub over_chain : Side → List (PaymentMethod x) → List Planned
  over_chain side [] = []
  over_chain side (lightning_bolt11 invoice ∷ ms) = over_chain side ms
  over_chain side (lightning_bolt12 offer ∷ ms) = over_chain side ms
  over_chain side (on_chain a address ∷ ms) =
      (side, on_chain a address, outgoing_on_chain) ∷ over_chain side ms

  -- Custody over lightning, our channels over lightning, custody on chain, our channels on chain.
  abbrev pub plan : List (PaymentMethod x) → List Planned
  plan ms =
      over_lightning custody ms
      ++ (over_lightning channels ms ++ (over_chain custody ms ++ over_chain channels ms))

  -- The same lists, by the arms of the loops.
  abbrev planned_if : Side → PaymentMethod x → Option PaymentType → List Planned → List Planned
  planned_if side m none rest = rest
  planned_if side m (some ty) rest = (side, m, ty) ∷ rest

  abbrev planned :
      (PaymentMethod x → Option PaymentType) → Side → List (PaymentMethod x) → List Planned
  planned arm side [] = []
  planned arm side (m ∷ ms) = planned_if side m (arm m) (planned arm side ms)

  planned-lightning :
      (side : Side) (ms : List (PaymentMethod x))
      → planned (lightning_type s codec kv) side ms ≡ over_lightning side ms
  planned-lightning side [] = refl
  planned-lightning side (lightning_bolt11 invoice ∷ ms) = rw (planned-lightning side ms) refl
  planned-lightning side (lightning_bolt12 offer ∷ ms) = rw (planned-lightning side ms) refl
  planned-lightning side (on_chain a address ∷ ms) = planned-lightning side ms

  planned-on_chain :
      (side : Side) (ms : List (PaymentMethod x))
      → planned (on_chain_type s codec kv) side ms ≡ over_chain side ms
  planned-on_chain side [] = refl
  planned-on_chain side (lightning_bolt11 invoice ∷ ms) = planned-on_chain side ms
  planned-on_chain side (lightning_bolt12 offer ∷ ms) = planned-on_chain side ms
  planned-on_chain side (on_chain a address ∷ ms) = rw (planned-on_chain side ms) refl

  arms-plan :
      (ms : List (PaymentMethod x))
      → planned (lightning_type s codec kv) custody ms
          ++ (planned (lightning_type s codec kv) channels ms
              ++ (planned (on_chain_type s codec kv) custody ms
                  ++ planned (on_chain_type s codec kv) channels ms))
        ≡ plan ms
  arms-plan ms =
      rw
        (
          planned-lightning custody ms,
          planned-lightning channels ms,
          planned-on_chain custody ms,
          planned-on_chain channels ms,
        )
        refl

  -- The first of two attempts that pays; an error or a panic of the first ends them.
  abbrev pub first_paid :
      Attempt s codec kv → (PayState s codec kv → Attempt s codec kv) → Attempt s codec kv
  first_paid (done (true, st)) next = done (true, st)
  first_paid (done (false, st)) next = next st
  first_paid (fail e) next = fail e
  first_paid panic next = panic

  unless_paid_lem :
      (a : Attempt s codec kv) (next : PayState s codec kv → Attempt s codec kv)
      → unless_paid s codec kv a next ≡ first_paid a next
  unfolding unless_paid ◌>>=◌
  unless_paid_lem (done (true, st)) next = refl
  unless_paid_lem (done (false, st)) next = refl
  unless_paid_lem (fail e) next = refl
  unless_paid_lem panic next = refl

  -- What is returned of the last state: `Ok` if a method was paid, else the last error of our
  -- channels, else of custody, else insufficient funds.
  abbrev pub first_error : Option (WalletError s) → Option (WalletError s) → WalletError s
  first_error (some e) o = e
  first_error none (some e) = e
  first_error none none = ldk_node_failure s.insufficient_funds

  abbrev pub concluded :
      Attempt s codec kv
      → Outcome (Unit {0}) (Result (WalletError s) (Unit {0}) × PayState s codec kv)
  concluded (done (true, st)) = done (ok tt, st)
  concluded (done (false, st)) =
      done (err (first_error st.last_lightning_err st.last_custodial_err), st)
  concluded (fail e) = fail e
  concluded panic = panic

  last_error_lem :
      (st : PayState s codec kv)
      → last_error s codec kv st ≡ first_error st.last_lightning_err st.last_custodial_err
  unfolding last_error
  last_error_lem st = by_errors st.last_lightning_err st.last_custodial_err
    where
      by_errors :
          (l c : Option (WalletError s))
          → elim l [
            | some e ↦ e
            | none ↦ elim c [ some e ↦ e | none ↦ ldk_node_failure s.insufficient_funds ]
          ]
            ≡ first_error l c
      by_errors (some e) c = refl
      by_errors none (some e) = refl
      by_errors none none = refl

  concluded_lem :
      (a : Attempt s codec kv)
      → (a >>= λ r. done (if r.0 then ok tt else err (last_error s codec kv r.1), r.1))
        ≡ concluded a
  unfolding ◌>>=◌
  concluded_lem (done (true, st)) = refl
  concluded_lem (done (false, st)) = ap (λ e. done (err e, st)) (last_error_lem st)
  concluded_lem (fail e) = refl
  concluded_lem panic = refl

  module _ (amount balance available : Amount) where
    abbrev ask_side :
        Side → PaymentMethod x → PaymentType → PayState s codec kv → Attempt s codec kv
    ask_side custody = pay_custodial s codec kv amount balance available
    ask_side channels = pay_lightning s codec kv amount balance available

    -- One after the other, until one pays.
    abbrev pub until_paid : List Planned → PayState s codec kv → Attempt s codec kv
    until_paid [] st = done (false, st)
    until_paid ((side, m, ty) ∷ as_) st = first_paid (ask_side side m ty st) (until_paid as_)

    unless_paid_assoc :
        (a : Attempt s codec kv) (f g : PayState s codec kv → Attempt s codec kv)
        → unless_paid s codec kv (unless_paid s codec kv a f) g
          ≡ unless_paid s codec kv a (λ st. unless_paid s codec kv (f st) g)
    unfolding unless_paid ◌>>=◌
    unless_paid_assoc (done (true, st)) f g = refl
    unless_paid_assoc (done (false, st)) f g = refl
    unless_paid_assoc (fail e) f g = refl
    unless_paid_assoc panic f g = refl

    until_paid-append :
        (as_ bs : List Planned) (st : PayState s codec kv)
        → until_paid (as_ ++ bs) st ≡ unless_paid s codec kv (until_paid as_ st) (until_paid bs)
    unfolding unless_paid ◌>>=◌
    until_paid-append [] bs st = refl
    until_paid-append ((side, m, ty) ∷ as_) bs st =
        sym (unless_paid_lem (ask_side side m ty st) (until_paid (as_ ++ bs)))
        ∙ ap (unless_paid s codec kv (ask_side side m ty st)) (fun_ext (until_paid-append as_ bs))
        ∙ sym (unless_paid_assoc (ask_side side m ty st) (until_paid as_) (until_paid bs))
        ∙ ap (λ a. unless_paid s codec kv a (until_paid bs))
            (unless_paid_lem (ask_side side m ty st) (until_paid as_))

    planned_if-until_paid :
        (arm : PaymentMethod x → Option PaymentType) (side : Side) (m : PaymentMethod x)
        (o : Option PaymentType) (rest : List Planned) (st : PayState s codec kv)
        → unless_paid s codec kv (try_arm s codec kv arm (ask_side side) m o st) (until_paid rest)
          ≡ until_paid (planned_if side m o rest) st
    unfolding try_arm unless_paid ◌>>=◌
    planned_if-until_paid arm side m none rest st = refl
    planned_if-until_paid arm side m (some ty) rest st =
        unless_paid_lem (ask_side side m ty st) (until_paid rest)

    try_methods-planned :
        (arm : PaymentMethod x → Option PaymentType) (side : Side) (ms : List (PaymentMethod x))
        (st : PayState s codec kv)
        → try_methods s codec kv arm (ask_side side) ms st ≡ until_paid (planned arm side ms) st
    unfolding try_methods
    try_methods-planned arm side [] st = refl
    try_methods-planned arm side (m ∷ ms) st =
        ap (unless_paid s codec kv (try_arm s codec kv arm (ask_side side) m (arm m) st))
          (fun_ext (try_methods-planned arm side ms))
        ∙ planned_if-until_paid arm side m (arm m) (planned arm side ms) st

    -- Two loops in a row.
    loops_lem :
        (arm : PaymentMethod x → Option PaymentType) (side : Side) (ms : List (PaymentMethod x))
        (st : PayState s codec kv) (next : PayState s codec kv → Attempt s codec kv)
        (rest : List Planned)
        → ((st' : PayState s codec kv) → next st' ≡ until_paid rest st')
        → unless_paid s codec kv (try_methods s codec kv arm (ask_side side) ms st) next
          ≡ until_paid (planned arm side ms ++ rest) st
    loops_lem arm side ms st next rest h =
        rw (try_methods-planned arm side ms st, fun_ext h)
          (sym (until_paid-append (planned arm side ms) rest st))

  -- `pay` asks custody for the lightning methods, then our channels for them, then custody for the
  -- on-chain ones and then our channels, each in the order of the instructions, with the type of the
  -- method and the balances read in front, until one pays; it returns `Ok` if one did, and else the
  -- last error of our channels, else of custody, else insufficient funds.
  pub pay-until_paid :
      (info : PaymentInfo x) (w : s.World) (m : TxMetadataStore ids kv)
      → pay s codec kv info w m
        ≡ concluded (
            until_paid info.amount
              (Custodial.get_balance s w)
              (Lightning.get_balance s w).0
              (plan info.instructions.methods)
              (before s codec kv w m))
  unfolding pay try_all
  pay-until_paid info w m =
      let cb = Custodial.get_balance s w in
      let l = (Lightning.get_balance s w).0 in
      let ms = info.instructions.methods in
      concluded_lem _
      ∙ ap concluded (
          loops_lem info.amount cb l (lightning_type s codec kv) custody ms (before s codec kv w m)
            _ _
            λ st₁. loops_lem info.amount cb l (lightning_type s codec kv) channels ms st₁ _ _ λ st₂.
              loops_lem info.amount cb l (on_chain_type s codec kv) custody ms st₂ _ _ λ st₃.
                try_methods-planned info.amount cb l (on_chain_type s codec kv) channels ms st₃)
      ∙ ap (λ as_. concluded (until_paid info.amount cb l as_ (before s codec kv w m)))
          (arms-plan ms)
