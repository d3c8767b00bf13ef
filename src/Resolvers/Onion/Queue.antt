-- ===== src/Resolvers/Onion/Queue.antt =====
-- The queue of the onion message resolver: what is asked, and that every message is released once.
use Prim.Native.String.{String}
use libbtcwallet.Base.{
  ◌≡◌, ◌≤◌, ◌+◌, refl, sym, arith, true, false, ◌&&◌, Bool, Option, none, some, List, [], ◌∷◌, ◌++◌,
  length, length-append, ltb, if_some, Result, ok, err, is_empty, if◌then◌else◌, map, All,
  All-append, Bool-cases, inl, inr, append-nil,
}
use libbtcwallet.Instructions.External.{Externals, HrnResolution}
use libbtcwallet.Resolvers.Onion.{
  OnionExternals, Features, Node, Message, HrnResolverState, with_features, consider,
  find_resolvers, message_to, queue_queries, resolve_hrn,
}

module _ {x : Externals} (o : OnionExternals x) where
  -- A node of the graph with the key, which announces both features.
  pub data Announced : List (Node o) → o.PublicKey → Type 0 where
    here :
        {node : Node o} {nodes : List (Node o)} {key : o.PublicKey} {features : Features}
        → node.announcement_info ≡ some features
        → features.supports_dns_resolution ≡ true
        → features.supports_onion_messages ≡ true
        → o.as_pubkey node.node_id ≡ some key
        → Announced (node ∷ nodes) key
    there :
        {node : Node o} {nodes : List (Node o)} {key : o.PublicKey}
        → Announced nodes key
        → Announced (node ∷ nodes) key

  -- What one node adds.
  data Considered (node : Node o) (found : List o.PublicKey) : List o.PublicKey → Type 0 where
    passed : Considered node found found
    added :
        {key : o.PublicKey}
        → ((nodes : List (Node o)) → Announced (node ∷ nodes) key)
        → Considered node found (found ++ key ∷ [])

  key-Considered :
      (node : Node o) (found : List o.PublicKey) (features : Features) (key : Option o.PublicKey)
      → node.announcement_info ≡ some features
      → features.supports_dns_resolution ≡ true
      → features.supports_onion_messages ≡ true
      → o.as_pubkey node.node_id ≡ key
      → Considered node found (if_some key (λ pubkey. found ++ pubkey ∷ []) found)
  unfolding if_some
  key-Considered node found features none e d m k = passed
  key-Considered node found features (some key) e d m k = added (λ nodes. here e d m k)

  features-Considered :
      (node : Node o) (found : List o.PublicKey) (features : Features) (dns om : Bool)
      → node.announcement_info ≡ some features
      → features.supports_dns_resolution ≡ dns
      → features.supports_onion_messages ≡ om
      → Considered node found (
          if dns && om
          then if_some (o.as_pubkey node.node_id) (λ pubkey. found ++ pubkey ∷ []) found
          else found)
  features-Considered node found features false om e d m = passed
  features-Considered node found features true false e d m = passed
  features-Considered node found features true true e d m =
      key-Considered node found features (o.as_pubkey node.node_id) e d m refl

  info-Considered :
      (node : Node o) (found : List o.PublicKey) (info : Option Features)
      → node.announcement_info ≡ info
      → Considered node found (if_some info (with_features o found node.node_id) found)
  unfolding if_some with_features
  info-Considered node found none e = passed
  info-Considered node found (some features) e =
      features-Considered node found features features.supports_dns_resolution
        features.supports_onion_messages e refl refl

  consider-Considered :
      (node : Node o) (found : List o.PublicKey) → Considered node found (consider o found node)
  unfolding consider
  consider-Considered node found = info-Considered node found node.announcement_info refl

  Considered-All :
      (P : o.PublicKey → Type 0) (node : Node o) (nodes : List (Node o)) (found : List o.PublicKey)
      {found' : List o.PublicKey}
      → ((key : o.PublicKey) → Announced (node ∷ nodes) key → P key)
      → All P found
      → Considered node found found'
      → All P found' × (length found' ≤ length found + 1)
  Considered-All P node nodes found h all passed = (all, omega arith)
  Considered-All P node nodes found h all (added {key = key} a) = (
    All-append P found (key ∷ []) all (h key (a nodes), tt),
    omega (arith, length-append found (key ∷ [])),
  )

  find_resolvers_lem :
      (P : o.PublicKey → Type 0) (nodes : List (Node o)) (found : List o.PublicKey)
      → ((key : o.PublicKey) → Announced nodes key → P key)
      → All P found
      → length found ≤ 5
      → All P (find_resolvers o nodes found) × (length (find_resolvers o nodes found) ≤ 6)
  unfolding find_resolvers
  find_resolvers_lem P [] found h all le = (all, omega arith)
  find_resolvers_lem P (node ∷ nodes) found h all le =
      let (all', le') = Considered-All P node nodes found h all (consider-Considered node found) in
      elim (Bool-cases (ltb 5 (length (consider o found node)))) [
        | inl e ↦ rw e (all', omega arith)
        | inr e ↦ rw e (
            find_resolvers_lem P nodes (consider o found node) (λ key a. h key (there a)) all'
              (ground arith))
      ]

  -- The messages that a call of the resolver queues: none, or one query for at most six nodes of the
  -- graph, each of which announces both features.
  pub data Queries (nodes : List (Node o)) : List (Message o) → Type 0 where
    nothing : Queries nodes []
    one_query :
        (query : o.DnssecQuery) (keys : List o.PublicKey)
        → length keys ≤ 6
        → All (Announced nodes) keys
        → Queries nodes (map (message_to o query) keys)

  -- How a call of the resolver leaves the queue, in which `new` is what was added.
  abbrev pub Leaves :
      List (Node o) → HrnResolverState o → Result String HrnResolution × HrnResolverState o → Type 0
  Leaves nodes s (ok r, s') = ⊥
  Leaves nodes s (err e, s') =
      (new : List (Message o)) × Queries nodes new × (s'.message_queue ≡ s.message_queue ++ new)

  queue_queries-Leaves :
      (nodes : List (Node o)) (s : HrnResolverState o) (keys : List o.PublicKey)
      (r : Option (o.DnssecQuery × o.Context) × o.Resolver)
      → length keys ≤ 6
      → All (Announced nodes) keys
      → Leaves nodes s (queue_queries o s keys r)
  unfolding queue_queries
  queue_queries-Leaves nodes s keys (none, resolver) le all =
      ([], nothing, sym (append-nil s.message_queue))
  queue_queries-Leaves nodes s keys (some (query, context), resolver) le all =
      (map (message_to o query) keys, one_query query keys le all, refl)

  pub resolve_hrn-Leaves :
      (nodes : List (Node o)) (payment_id : o.PaymentId) (s : HrnResolverState o)
      (hrn : x.HumanReadableName)
      → Leaves nodes s (resolve_hrn o nodes payment_id s hrn)
  unfolding resolve_hrn
  resolve_hrn-Leaves nodes payment_id s hrn =
      let keys = find_resolvers o nodes [] in
      let (all, le) = find_resolvers_lem (Announced nodes) nodes [] (λ key a. a) tt (omega arith) in
      elim (Bool-cases (is_empty keys)) [
        | inl e ↦ rw e ([], nothing, sym (append-nil s.message_queue))
        | inr e ↦
            rw e
              (queue_queries-Leaves nodes s keys (o.resolve_name s.resolver payment_id hrn) le all)
      ]
