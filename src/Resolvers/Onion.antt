-- ===== src/Resolvers/Onion.antt =====
-- bitcoin-payment-instructions/src/onion_message_resolver.rs: queries for a name are queued as onion
-- messages to nodes that resolve DNS names. The answers are not waited for yet.
pub mod Queue
pub mod Released
use Prim.Native.String.{String}
use libbtcwallet.Base.{
  ◌&&◌, Bool, Option, none, some, List, [], ◌∷◌, ◌++◌, Bytes, length, ltb, if_some, Result, err,
  is_empty, if◌then◌else◌, map,
}
use libbtcwallet.Instructions.External.{Externals, HrnResolution}

-- What is used of `lightning`: nodes of the network graph, the resolver of names, whose state a call
-- may change, and the random payment id.
pub record OnionExternals (x : Externals) : Type 1 where
  pub NodeId : Type 0
  pub PublicKey : Type 0
  pub as_pubkey : NodeId → Option PublicKey
  pub PaymentId : Type 0
  pub Resolver : Type 0
  pub DnssecQuery : Type 0
  pub Context : Type 0
  pub resolve_name :
      Resolver → PaymentId → x.HumanReadableName → Option (DnssecQuery × Context) × Resolver
  pub DnssecProof : Type 0
  -- the names and the URI that a proof resolves
  pub handle_dnssec_proof_for_uri :
      Resolver → DnssecProof → Context → Option (List x.HumanReadableName × Bytes) × Resolver

-- The features of a node's announcement that are read.
pub record Features : Type 0 where
  pub supports_dns_resolution : Bool
  pub supports_onion_messages : Bool

module _ {x : Externals} (o : OnionExternals x) where
  pub record Node : Type 0 where
    pub node_id : o.NodeId
    pub announcement_info : Option Features

  -- `DNSResolverMessage::DNSSECQuery` with `MessageSendInstructions::WithoutReplyPath` to a
  -- `Destination::Node`
  pub record Message : Type 0 where
    pub query : o.DnssecQuery
    pub destination : o.PublicKey

  -- `LDKOnionMessageDNSSECHrnResolver`, without the network graph
  pub record HrnResolverState : Type 0 where
    pub resolver : o.Resolver
    pub message_queue : List Message

  -- What the body of the loop over the nodes adds to `dns_resolvers`.
  unfoldable pub with_features : List o.PublicKey → o.NodeId → Features → List o.PublicKey
  unfolding if_some
  with_features dns_resolvers node_id features =
      if features.supports_dns_resolution && features.supports_onion_messages
      then if_some (o.as_pubkey node_id) (λ pubkey. dns_resolvers ++ pubkey ∷ []) dns_resolvers
      else dns_resolvers

  unfoldable pub consider : List o.PublicKey → Node → List o.PublicKey
  unfolding with_features if_some
  consider dns_resolvers node =
      if_some node.announcement_info (with_features dns_resolvers node.node_id) dns_resolvers

  -- The loop, which is left once there are more than five.
  unfoldable pub find_resolvers : List Node → List o.PublicKey → List o.PublicKey
  unfolding consider
  find_resolvers [] dns_resolvers = dns_resolvers
  find_resolvers (node ∷ nodes) dns_resolvers =
      let found = consider dns_resolvers node in
      let rest = find_resolvers nodes found in if ltb 5 (length found) then found else rest

  abbrev pub message_to : o.DnssecQuery → o.PublicKey → Message
  message_to query destination = record { query = query; destination = destination }

  unfoldable pub queue_queries :
      HrnResolverState
      → List o.PublicKey
      → Option (o.DnssecQuery × o.Context) × o.Resolver
      → Result String HrnResolution × HrnResolverState
  queue_queries s dns_resolvers (none, resolver) =
      (err "The provided HRN did not fit in a DNS request", record s { resolver = resolver })
  queue_queries s dns_resolvers (some (query, _context), resolver) = (
    err "unimplemented!",
    record {
      resolver = resolver;
      message_queue = s.message_queue ++ map (message_to query) dns_resolvers;
    },
  )

  -- `resolve_hrn`, with the nodes in the order in which they are looked at and a random payment id
  unfoldable pub resolve_hrn :
      List Node
      → o.PaymentId
      → HrnResolverState
      → x.HumanReadableName
      → Result String HrnResolution × HrnResolverState
  unfolding find_resolvers queue_queries
  resolve_hrn nodes payment_id s hrn =
      let dns_resolvers = find_resolvers nodes [] in
      if is_empty dns_resolvers
      then (err "Failed to find any DNS resolving nodes, check your network graph is synced", s)
      else queue_queries s dns_resolvers (o.resolve_name s.resolver payment_id hrn)

  -- No query is answered.
  unfoldable pub handle_dnssec_query :
      HrnResolverState → o.DnssecQuery → Option Message × HrnResolverState
  handle_dnssec_query s query = (none, s)

  -- The names that a proof resolves are not used yet.
  unfoldable pub handle_dnssec_proof :
      HrnResolverState → o.DnssecProof → o.Context → HrnResolverState
  handle_dnssec_proof s msg context =
      let (results, resolver) = o.handle_dnssec_proof_for_uri s.resolver msg context in
      record s { resolver = resolver }

  unfoldable pub release_pending_messages : HrnResolverState → List Message × HrnResolverState
  release_pending_messages s = (s.message_queue, record s { message_queue = [] })
