-- ===== src/Resolvers/Onion/Released.antt =====
-- Over any sequence of calls, what the onion message resolver queues is released, once and in order.
use Prim.Native.String.{String}
use libbtcwallet.Base.{◌≡◌, ap, sym, List, [], ◌∷◌, ◌++◌, append_assoc, append-nil, Result, ok, err}
use mathlib.Core.Path.{◌∙◌}
use libbtcwallet.Instructions.External.{Externals, HrnResolution}
use libbtcwallet.Resolvers.Onion.{
  OnionExternals, Node, Message, HrnResolverState, resolve_hrn, handle_dnssec_query,
  handle_dnssec_proof, release_pending_messages,
}
use libbtcwallet.Resolvers.Onion.Queue.{Queries, Leaves, resolve_hrn-Leaves}

module _ {x : Externals} (o : OnionExternals x) where
  -- A call of the resolver, with the nodes and the random payment id that it meets.
  pub data Call : Type 0 where
    resolve : List (Node o) → o.PaymentId → x.HumanReadableName → Call
    query : o.DnssecQuery → Call
    proof : o.DnssecProof → o.Context → Call
    release : Call

  -- The messages that a call releases, and the state that it leaves.
  unfoldable pub call : HrnResolverState o → Call → List (Message o) × HrnResolverState o
  unfolding resolve_hrn handle_dnssec_query handle_dnssec_proof release_pending_messages
  call s (resolve nodes payment_id hrn) = ([], (resolve_hrn o nodes payment_id s hrn).1)
  call s (query q) = ([], (handle_dnssec_query o s q).1)
  call s (proof msg context) = ([], handle_dnssec_proof o s msg context)
  call s release = release_pending_messages o s

  unfoldable pub run : HrnResolverState o → List Call → List (Message o) × HrnResolverState o
  unfolding call
  run s [] = ([], s)
  run s (c ∷ calls) =
      let (released, s') = call s c in let (more, s'') = run s' calls in (released ++ more, s'')

  -- Messages queued by a sequence of calls, a list for each call that resolves a name.
  pub data Queued : List Call → List (Message o) → Type 0 where
    none_queued : Queued [] []
    by_resolve :
        {nodes : List (Node o)} {payment_id : o.PaymentId} {hrn : x.HumanReadableName}
        {calls : List Call} {new more : List (Message o)}
        → Queries o nodes new
        → Queued calls more
        → Queued (resolve nodes payment_id hrn ∷ calls) (new ++ more)
    by_query :
        {q : o.DnssecQuery} {calls : List Call} {more : List (Message o)}
        → Queued calls more
        → Queued (query q ∷ calls) more
    by_proof :
        {msg : o.DnssecProof} {context : o.Context} {calls : List Call} {more : List (Message o)}
        → Queued calls more
        → Queued (proof msg context ∷ calls) more
    by_release :
        {calls : List Call} {more : List (Message o)}
        → Queued calls more
        → Queued (release ∷ calls) more

  left_queue :
      (nodes : List (Node o)) (s : HrnResolverState o)
      (r : Result String HrnResolution × HrnResolverState o)
      → Leaves o nodes s r
      → (new : List (Message o)) × Queries o nodes new
        × (r.1.message_queue ≡ s.message_queue ++ new)
  left_queue nodes s (ok r, s') h = absurd h
  left_queue nodes s (err e, s') h = h

  -- Over any sequence of calls, the messages that the onion message resolver queues are released
  -- once and in order, or still queued; each call for a name queues none, or one query for at most
  -- six nodes of the graph that announce both onion messages and DNS resolution.
  pub released_once :
      (s : HrnResolverState o) (calls : List Call)
      → (queued : List (Message o)) × Queued calls queued
        × (s.message_queue ++ queued ≡ (run s calls).0 ++ (run s calls).1.message_queue)
  unfolding run call handle_dnssec_query handle_dnssec_proof release_pending_messages
  released_once s [] = ([], none_queued, append-nil s.message_queue)
  released_once s (resolve nodes payment_id hrn ∷ calls) =
      let r = resolve_hrn o nodes payment_id s hrn in
      let (new, queries, left) =
        left_queue nodes s r (resolve_hrn-Leaves o nodes payment_id s hrn) in
      let (more, q, e) = released_once r.1 calls in
      (
        new ++ more,
        by_resolve queries q,
        sym (append_assoc s.message_queue new more) ∙ (ap (λ l. l ++ more) (sym left) ∙ e),
      )
  released_once s (query q ∷ calls) =
      let (more, queued, e) = released_once s calls in (more, by_query queued, e)
  released_once s (proof msg context ∷ calls) =
      let (more, q, e) = released_once (handle_dnssec_proof o s msg context) calls in
      (more, by_proof q, e)
  released_once s (release ∷ calls) =
      let (more, q, e) = released_once (release_pending_messages o s).1 calls in
      let (released, s') = run (release_pending_messages o s).1 calls in
      (
        more,
        by_release q,
        ap (λ l. s.message_queue ++ l) e
            ∙ sym (append_assoc s.message_queue released s'.message_queue),
      )
