-- ===== src/Receive/Lnr.antt =====
-- The `lnr` parameter of a `bitcoin:` URI (receive.rs): the refund parser is given the whole text.
use mathlib.Core.List.{cons-ne-nil}
use libbtcwallet.Base.{
  ◌∙◌, sym, ◌≡◌, ◌≢◌, refl, true, Option, none, some, List, [], ◌∷◌, Bytes, codes, split, done,
  fail, Ensures, on_done, on_fail, Ensures-bind, Ensures-if, Ensures-at, reject_if, err, is_empty,
  ◌>>=◌,
}
use libbtcwallet.Instructions.Uri.{split_once, has_prefix}
use libbtcwallet.Receive.{
  ReceiveExternals, ReceiveError, ReceiveInstructions, nothing, handle_lnr, reject_required,
  invalid_bolt12, receive_param, receive_params, receive_query, receive_uri,
  parse_receive_instructions,
}

not_empty : {E : Type 0} → has_prefix {E = E} [] (codes "bitcoin:") ≢ done true
unfolding has_prefix
not_empty h = cc

parse_uri :
    (x : ReceiveExternals) (network : x.Network) (s : Bytes)
    → has_prefix {E = ReceiveError x} s (codes "bitcoin:") ≡ done true
    → parse_receive_instructions x network s ≡ receive_uri x network s
unfolding parse_receive_instructions ◌>>=◌
parse_uri x network [] h = absurd (not_empty h)
parse_uri x network (c ∷ s) h = rw h

module _ (x : ReceiveExternals) (network : x.Network) (s : Bytes) (refused : x.Bolt12ParseError)
    (no_refund : x.refund_from_str s ≡ err refused) where
  abbrev IsEmpty : ReceiveInstructions x → Type 0
  IsEmpty i = i.methods ≡ []

  handle_lnr_fails :
      (i : ReceiveInstructions x) → handle_lnr x network s i ≡ fail (invalid_bolt12 refused)
  unfolding handle_lnr ◌>>=◌
  handle_lnr_fails i = rw no_refund

  receive_param-IsEmpty :
      (param : Bytes) (i : ReceiveInstructions x)
      → IsEmpty i
      → Ensures IsEmpty (receive_param x network s param i)
  unfolding receive_param reject_required
  receive_param-IsEmpty param i h = rw (handle_lnr_fails i) (
      Ensures-if _ {m = fail (invalid_bolt12 refused)}
        {n = reject_required x network (split_once param b'=').0 i} on_fail
        (Ensures-bind _ _ λ _ _. Ensures-bind _ _ λ _ _. on_done h))

  receive_params-IsEmpty :
      (ps : List Bytes) (i : ReceiveInstructions x)
      → IsEmpty i
      → Ensures IsEmpty (receive_params x network s ps i)
  unfolding receive_params
  receive_params-IsEmpty [] i h = on_done h
  receive_params-IsEmpty (p ∷ ps) i h =
      Ensures-bind _ _
        λ i' e. receive_params-IsEmpty ps i' (Ensures-at (receive_param-IsEmpty p i h) e)

  receive_query-IsEmpty : (o : Option Bytes) → Ensures IsEmpty (receive_query x network s o)
  unfolding receive_query
  receive_query-IsEmpty none = on_done refl
  receive_query-IsEmpty (some text) = receive_params-IsEmpty (split b'&' text) nothing refl

  empty_refused :
      {E : Type 0} {A : Type 0} (ms : List A) (e : E)
      → ms ≡ []
      → reject_if (is_empty ms) e ≢ done tt
  empty_refused [] e h k = cc
  empty_refused (m ∷ ms) e h k = absurd (cons-ne-nil m ms h)

  receive_uri_never : Ensures (λ _. ⊥) (receive_uri x network s)
  unfolding receive_uri
  receive_uri_never = Ensures-bind _ _ λ rest _. Ensures-bind _ _ λ i e.
      Ensures-bind _ _
        λ _ kept. absurd (empty_refused i.methods _ (Ensures-at (receive_query-IsEmpty _) e) kept)

  -- A text that begins with `bitcoin:` and is itself no refund is never parsed, whatever its `lnr`
  -- parameters hold.
  pub bitcoin_uri_never_received :
      (i : ReceiveInstructions x)
      → has_prefix {E = ReceiveError x} s (codes "bitcoin:") ≡ done true
      → parse_receive_instructions x network s ≢ done i
  bitcoin_uri_never_received i h e =
      Ensures-at receive_uri_never (sym (parse_uri x network s h) ∙ e)
