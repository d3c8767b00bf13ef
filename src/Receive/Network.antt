-- ===== src/Receive/Network.antt =====
-- What a parse of receive instructions returns is for the network that was asked for.
use libbtcwallet.Base.{
  ◌≡◌, refl, Bool, true, false, not, Option, none, some, List, [], ◌∷◌, All, All-append, Bytes,
  split, done, Ensures, on_done, on_fail, Ensures-bind, Ensures-if, Ensures-at, Ensures-if_ok,
  Ensures-if_some, reject_if,
}
use libbtcwallet.Instructions.Uri.{split_once}
use libbtcwallet.Receive.{
  ReceiveExternals, ReceiveMethod, private_key, bolt12_refund, ReceiveInstructions, nothing,
  handle_lnr, reject_required, receive_param, receive_params, receive_query, receive_uri,
  parse_receive_instructions,
}

reject_not : {E : Type 0} (b : Bool) (e : E) → reject_if (not b) e ≡ done tt → b ≡ true
reject_not true e h = refl
reject_not false e h = cc

module _ (x : ReceiveExternals) (network : x.Network) where
  -- The refund is for the network, or the key is that of a private key for it.
  abbrev pub IsFor : ReceiveMethod x → Type 0
  IsFor (private_key k) =
      (pk : x.PrivateKey) × (x.inner_key pk ≡ k) × (x.key_is_for pk network ≡ true)
  IsFor (bolt12_refund r) = x.refund_is_for r network ≡ true

  abbrev IsForAll : ReceiveInstructions x → Type 0
  IsForAll i = All IsFor i.methods

  receive_param-IsFor :
      (s param : Bytes) (i : ReceiveInstructions x)
      → IsForAll i
      → Ensures IsForAll (receive_param x network s param i)
  unfolding receive_param handle_lnr reject_required
  receive_param-IsFor s param i h =
      Ensures-if _ {m = handle_lnr x network s i}
        {n = reject_required x network (split_once param b'=').0 i}
        (Ensures-bind _ _ λ refund _. Ensures-bind _ _ λ _ e.
          on_done (All-append IsFor i.methods (bolt12_refund refund ∷ []) h (reject_not _ _ e, tt)))
        (Ensures-bind _ _ λ _ _. Ensures-bind _ _ λ _ _. on_done h)

  receive_params-IsFor :
      (s : Bytes) (ps : List Bytes) (i : ReceiveInstructions x)
      → IsForAll i
      → Ensures IsForAll (receive_params x network s ps i)
  unfolding receive_params
  receive_params-IsFor s [] i h = on_done h
  receive_params-IsFor s (p ∷ ps) i h =
      Ensures-bind _ _
        λ i' e. receive_params-IsFor s ps i' (Ensures-at (receive_param-IsFor s p i h) e)

  receive_query-IsFor :
      (s : Bytes) (o : Option Bytes) → Ensures IsForAll (receive_query x network s o)
  unfolding receive_query
  receive_query-IsFor s none = on_done tt
  receive_query-IsFor s (some text) = receive_params-IsFor s (split b'&' text) nothing tt

  receive_uri-IsFor : (s : Bytes) → Ensures IsForAll (receive_uri x network s)
  unfolding receive_uri
  receive_uri-IsFor s = Ensures-bind _ _ λ rest _.
      Ensures-bind _ _
        λ i e. Ensures-bind _ _ λ _ _. on_done (Ensures-at (receive_query-IsFor s _) e)

  parse-IsFor : (s : Bytes) → Ensures IsForAll (parse_receive_instructions x network s)
  unfolding parse_receive_instructions
  parse-IsFor [] = on_fail
  parse-IsFor (c ∷ s) = Ensures-bind _ _ λ bitcoin _.
      Ensures-if bitcoin (receive_uri-IsFor (c ∷ s)) (
        Ensures-if_some (x.from_wif (c ∷ s)) _ _
          (λ pk _. Ensures-bind _ _ λ _ e. on_done ((pk, refl, reject_not _ _ e), tt))
          (Ensures-if_ok (x.refund_from_str (c ∷ s)) _ _
            (λ refund _. Ensures-bind _ _ λ _ e. on_done (reject_not _ _ e, tt)) on_fail))

  -- Every method of parsed receive instructions is for the network that was asked for: a refund by
  -- its chain, and a key as that of a private key whose network matches.
  pub parse_receive_instructions-IsFor :
      (s : Bytes) (i : ReceiveInstructions x)
      → parse_receive_instructions x network s ≡ done i
      → All IsFor i.methods
  parse_receive_instructions-IsFor s i h = Ensures-at (parse-IsFor s) h
