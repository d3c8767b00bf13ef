-- ===== src/Instructions/Uri/Unpriced.antt =====
-- While the first loop reads a URI, its on-chain methods have no amount.
use libbtcwallet.Base.{
  ◌≡◌, refl, Bool, true, Option, none, some, List, [], ◌∷◌, ◌++◌, All, All-append, Bytes, Ensures,
  on_done, on_fail, Ensures-bind, Ensures-if, Ensures-at,
}
use libbtcwallet.Amount.{Amount}
use libbtcwallet.Instructions.External.{Externals}
use libbtcwallet.Instructions.{
  PaymentMethod, lightning_bolt11, lightning_bolt12, on_chain, amount, is_on_chain,
}
use libbtcwallet.Instructions.Uri.{
  UriState, instructions_from_bolt11, handle_bc, handle_lightning, handle_lno, handle_pop,
  handle_other, handle_key, handle_param, handle_params, split_once,
}

abbrev pub OnChainAsk : {x : Externals} → Option Amount → List (PaymentMethod x) → Type 0
OnChainAsk oc = All (λ m. is_on_chain m ≡ true → amount m ≡ oc)

abbrev Unpriced : {x : Externals} → UriState x → Type 0
Unpriced s = OnChainAsk none s.methods

module _ (x : Externals) (network : x.Network) (supports_pops : Bool) where
  push :
      (ms : List (PaymentMethod x)) (m : PaymentMethod x)
      → OnChainAsk none ms
      → (is_on_chain m ≡ true → amount m ≡ none)
      → OnChainAsk none (ms ++ m ∷ [])
  push ms m h k = All-append _ ms (m ∷ []) h (k, tt)

  push_bolt11 :
      (ms new : List (PaymentMethod x)) (invoice : x.Bolt11Invoice)
      → OnChainAsk none ms
      → new ≡ lightning_bolt11 invoice ∷ []
      → OnChainAsk none (ms ++ new)
  push_bolt11 ms new invoice h e = rw e (push ms (lightning_bolt11 invoice) h (λ k. cc))

  pub bolt11_methods :
      (invoice : x.Bolt11Invoice)
      → Ensures
          (λ r. r.1 ≡ lightning_bolt11 invoice ∷ [])
          (instructions_from_bolt11 x network supports_pops invoice)
  unfolding instructions_from_bolt11
  bolt11_methods invoice = Ensures-bind _ _ λ _ _. on_done refl

  module _ (s : UriState x) (old : Unpriced s) where
    handle_bc-Unpriced :
        (v : Option Bytes) → Ensures Unpriced (handle_bc x network supports_pops v s)
    unfolding handle_bc amount
    handle_bc-Unpriced none = on_fail
    handle_bc-Unpriced (some a) = Ensures-bind _ _ λ segwit _. Ensures-bind _ _ λ _ _.
        Ensures-bind _ _
          λ address _. on_done (push s.methods (on_chain none address) old (λ _. refl))

    handle_lightning-Unpriced :
        (v : Option Bytes) → Ensures Unpriced (handle_lightning x network supports_pops v s)
    unfolding handle_lightning
    handle_lightning-Unpriced none = on_fail
    handle_lightning-Unpriced (some a) = Ensures-bind _ _ λ invoice _. Ensures-bind _ _ λ r e.
        on_done (push_bolt11 s.methods r.1 invoice old (Ensures-at (bolt11_methods invoice) e))

    handle_lno-Unpriced :
        (v : Option Bytes) → Ensures Unpriced (handle_lno x network supports_pops v s)
    unfolding handle_lno
    handle_lno-Unpriced none = on_fail
    handle_lno-Unpriced (some a) = Ensures-bind _ _ λ offer _.
        Ensures-bind _ _ λ _ _. on_done (push s.methods (lightning_bolt12 offer) old (λ e. cc))

    handle_pop-Unpriced :
        (k : Bytes) (v : Option Bytes) → Ensures Unpriced (handle_pop x network supports_pops k v s)
    unfolding handle_pop
    handle_pop-Unpriced k v =
        Ensures-bind _ _
          λ _ _. Ensures-bind _ _ λ _ _. Ensures-bind _ _ λ _ _. Ensures-bind _ _ λ _ _. on_done old

    handle_other-Unpriced :
        (k : Bytes) → Ensures Unpriced (handle_other x network supports_pops k s)
    unfolding handle_other
    handle_other-Unpriced k = Ensures-bind _ _ λ _ _. Ensures-bind _ _ λ _ _. on_done old

    handle_key-Unpriced :
        (k : Bytes) (v : Option Bytes) → Ensures Unpriced (handle_key x network supports_pops k v s)
    unfolding handle_key
    handle_key-Unpriced k v =
        search
          (
            Ensures-if, handle_bc-Unpriced, handle_lightning-Unpriced, handle_lno-Unpriced,
            handle_pop-Unpriced, handle_other-Unpriced, on_done, old,
          )
          depth 12

  pub handle_params-Unpriced :
      (params : List Bytes) (s : UriState x)
      → Unpriced s
      → Ensures Unpriced (handle_params x network supports_pops params s)
  unfolding handle_params handle_param
  handle_params-Unpriced [] s old = on_done old
  handle_params-Unpriced (param ∷ params) s old = Ensures-bind _ _ λ t e.
      handle_params-Unpriced params t (
        Ensures-at (handle_key-Unpriced s old (split_once param b'=').0 (split_once param b'=').1)
          e)
