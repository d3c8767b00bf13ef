-- ===== src/Resolvers/Http/Ends.antt =====
-- The lookup of a name ends, if the proof builder asks for finitely many queries.
use Prim.Native.String.{String}
use libbtcwallet.Base.{
  ◌<◌, ℕ, zero, suc, ◌≡◌, refl, ◌+◌, ◌≤◌, arith, Option, none, some, List, [], ◌∷◌, Bytes, length,
  Outcome, done, fail, panic, if_some,
}
use libbtcwallet.Instructions.External.{Externals, HrnResolution}
use libbtcwallet.Resolvers.Http.{
  DnsExternals, push_all, unless_failed, ask, ask_all, read_built, dns_name_text, resolve_dns,
}
use libbtcwallet.Resolvers.Http.Answered.{ask-Answered}

abbrev Ends : {A : Type 0} → Option A → Type 0
Ends {A} o = (a : A) × (o ≡ some a)

length-push_all :
    (queries pending : List Bytes)
    → length (push_all queries pending) ≡ length queries + length pending
length-push_all [] pending = omega arith
length-push_all (query ∷ queries) pending = omega (arith, length-push_all queries (query ∷ pending))

module _ {x : Externals} (h : DnsExternals x) where
  -- A bound on the queries that a builder may still ask for.
  pub record QueryBound (bound : h.ProofBuilder → ℕ) : Type 0 where
    pub spends :
        (b b' : h.ProofBuilder) (answer : Bytes) (queries : List Bytes)
        → h.process_response b answer ≡ (some queries, b')
        → length queries + bound b' ≤ bound b

  module _ (bound : h.ProofBuilder → ℕ) (limited : QueryBound bound) where
    unless_failed-Ends :
        (fuel : ℕ) (w : h.World) (b : h.ProofBuilder) (query : Bytes) (pending : List Bytes)
        (r : Outcome String (h.ProofBuilder × List Bytes) × h.World)
        → ask h w b query ≡ r
        → length (query ∷ pending) + bound b ≤ suc fuel
        → ((w' : h.World) (b' : h.ProofBuilder) (pending' : List Bytes)
            → length pending' + bound b' ≤ fuel
            → Ends (ask_all h fuel w' b' pending'))
        → Ends (unless_failed h (λ next w'. ask_all h fuel w' next.0 (push_all next.1 pending)) r)
    unfolding unless_failed
    unless_failed-Ends fuel w b query pending (fail e, w') q le ih = (_, refl)
    unless_failed-Ends fuel w b query pending (panic, w') q le ih = (_, refl)
    unless_failed-Ends fuel w b query pending (done (b', queries), w') q le ih =
        let a = ask-Answered h q in
        ih w' b' (push_all queries pending) (
          omega (
            arith,
            length-push_all queries pending,
            limited.spends b b' a.body queries a.processed,
          ))

    ask_all-Ends :
        (fuel : ℕ) (w : h.World) (b : h.ProofBuilder) (pending : List Bytes)
        → length pending + bound b ≤ fuel
        → Ends (ask_all h fuel w b pending)
    unfolding ask_all
    ask_all-Ends fuel w b [] le = (_, refl)
    ask_all-Ends zero w b (query ∷ pending) le = absurd (omega arith)
    ask_all-Ends (suc fuel) w b (query ∷ pending) le =
        unless_failed-Ends fuel w b query pending (ask h w b query) refl le (ask_all-Ends fuel)

    read_built-Ends :
        (name : h.Name) (o : Option (Outcome String h.ProofBuilder × h.World))
        → Ends o
        → Ends (read_built h name o)
    unfolding read_built
    read_built-Ends name none (a, e) = cc
    read_built-Ends name (some (built, w)) e = (_, refl)

    named-Ends :
        (o : Option h.Name) (fuel : ℕ) (w : h.World)
        (otherwise : Outcome String HrnResolution × h.World)
        → ((name : h.Name) → bound (h.new_builder name).0 < fuel)
        → Ends (
            if_some o
              (λ name.
                read_built h name
                  (ask_all h fuel w (h.new_builder name).0 ((h.new_builder name).1 ∷ [])))
              (some otherwise))
    unfolding if_some
    named-Ends none fuel w otherwise enough = (_, refl)
    named-Ends (some name) fuel w otherwise enough =
        read_built-Ends name _ (ask_all-Ends fuel w _ _ (omega (arith, enough name)))

    -- If the queries that a proof builder still asks for are bounded, and each answer lowers the
    -- bound by the number of queries that it leads to, the lookup of a name ends within any number
    -- of rounds above the bound of a new builder.
    pub resolve_dns-Ends :
        (fuel : ℕ) (w : h.World) (hrn : x.HumanReadableName)
        → ((name : h.Name) → bound (h.new_builder name).0 < fuel)
        → Ends (resolve_dns h fuel w hrn)
    unfolding resolve_dns
    resolve_dns-Ends fuel w hrn enough =
        named-Ends (h.name_from_str (dns_name_text h hrn)) fuel w _ enough
