-- ===== src/Resolvers/Http/Answered.antt =====
-- When all DNS queries for a name are answered.
use Prim.Native.String.{String}
use libbtcwallet.Base.{
  ℕ, zero, suc, ◌≡◌, ◌≢◌, refl, ap, ◌++◌, Option, none, some, List, [], ◌∷◌, Bytes, length, Outcome,
  if_some, done, fail, panic, ◌>>=◌, >>=-eq-done,
}
use mathlib.Core.Path.{◌∙◌}
use libbtcwallet.Instructions.External.{Externals}
use libbtcwallet.Resolvers.Http.{
  DnsExternals, doh_endpoint, push_all, query_to_url, fetch, response_of, body_of, queries_of, ask,
  ask_all, unless_failed,
}

module _ {x : Externals} (h : DnsExternals x) where
  -- A query is answered, which gives the builder more to go on and further queries.
  pub record Answered (w : h.World) (b : h.ProofBuilder) (query : Bytes) (w' : h.World)
      (b' : h.ProofBuilder) (queries : List Bytes) : Type 0 where
    pub base64_len : ℕ
    pub fits : h.encoded_len (length query) ≡ some base64_len
    pub request : h.Request
    pub built : h.build (doh_endpoint ++ h.base64 query) ≡ some request
    pub response : h.Response
    pub between : h.World
    pub executed : h.execute w request ≡ (some response, between)
    pub body : Bytes
    pub read : h.bytes between response ≡ (some body, w')
    pub processed : h.process_response b body ≡ (some queries, b')

  -- All pending queries, and those that their answers lead to, are answered, the latest first.
  pub data AllAnswered
      : h.World → h.ProofBuilder → List Bytes → h.World → h.ProofBuilder → Type 0 where
    nothing_pending : {w : h.World} {b : h.ProofBuilder} → AllAnswered w b [] w b
    answered :
        {w w' w'' : h.World} {b b' b'' : h.ProofBuilder} {query : Bytes}
        {queries pending : List Bytes}
        → Answered w b query w' b' queries
        → AllAnswered w' b' (push_all queries pending) w'' b''
        → AllAnswered w b (query ∷ pending) w'' b''

  -- The texts of the TXT records.
  Answered-ask :
      {w w' : h.World} {b b' : h.ProofBuilder} {query : Bytes} {queries : List Bytes}
      → Answered w b query w' b' queries
      → ask h w b query ≡ (done (b', queries), w')
  unfolding ask query_to_url fetch response_of body_of queries_of if_some ◌>>=◌
  Answered-ask a = rw (a.fits, a.built, a.executed, a.read, a.processed) refl

  pub AllAnswered-ask_all :
      {w w' : h.World} {b b' : h.ProofBuilder} {pending : List Bytes}
      → AllAnswered w b pending w' b'
      → (fuel : ℕ) × (ask_all h fuel w b pending ≡ some (done b', w'))
  unfolding ask_all unless_failed
  AllAnswered-ask_all nothing_pending = (0, refl)
  AllAnswered-ask_all (answered a all) =
      let (fuel, e) = AllAnswered-ask_all all in (suc fuel, rw (Answered-ask a) e)

  pub if_some_inv :
      {A B : Type 0} (o : Option A) (f : A → B) (e z : B)
      → e ≢ z
      → if_some o f e ≡ z
      → (a : A) × (o ≡ some a) × (f a ≡ z)
  unfolding if_some
  if_some_inv none f e z n q = absurd (n q)
  if_some_inv (some a) f e z n q = (a, refl, q)

  body_inv :
      (r : Option Bytes × h.World) {body : Bytes} {w' : h.World}
      → body_of h r ≡ (done body, w')
      → r ≡ (some body, w')
  unfolding body_of
  body_inv (none, w) e = cc
  body_inv (some b, w) e = cc

  response_inv :
      (r : Option h.Response × h.World) {body : Bytes} {w' : h.World}
      → response_of h r ≡ (done body, w')
      → (response : h.Response) × (between : h.World) × (r ≡ (some response, between))
        × (h.bytes between response ≡ (some body, w'))
  unfolding response_of
  response_inv (none, w) e = cc
  response_inv (some response, between) e =
      (response, between, refl, body_inv (h.bytes between response) e)

  queries_inv :
      (r : Option (List Bytes) × h.ProofBuilder) {b' : h.ProofBuilder} {queries : List Bytes}
      → queries_of h r ≡ done (b', queries)
      → r ≡ (some queries, b')
  unfolding queries_of
  queries_inv (none, b) e = cc
  queries_inv (some queries, b) e = cc

  url_inv :
      (o : Option ℕ) (w : h.World) (url : Bytes) {body : Bytes} {w' : h.World}
      → fetch h w (if_some o (λ n. done url) panic) ≡ (done body, w')
      → (n : ℕ) × (o ≡ some n) × (fetch h w (done url) ≡ (done body, w'))
  unfolding if_some fetch
  url_inv none w url e = cc
  url_inv (some n) w url e = (n, refl, e)

  pub ask-Answered :
      {w w' : h.World} {b b' : h.ProofBuilder} {query : Bytes} {queries : List Bytes}
      → ask h w b query ≡ (done (b', queries), w')
      → Answered w b query w' b' queries
  unfolding ask query_to_url fetch
  ask-Answered {w} {w'} {b} {b'} {query} {queries} e =
      let url = doh_endpoint ++ h.base64 query in
      let fetched = fetch h w (query_to_url h query) in
      let (body, is_body, processed) =
        >>=-eq-done fetched.0 (λ body. queries_of h (h.process_response b body))
          (ap (λ p. p.0) e) in
      let both : fetched ≡ (done body, w') =
        ap (λ o. (o, fetched.1)) is_body ∙ ap (λ v. (done body, v)) (ap (λ p. p.1) e) in
      let (n, fits, f) = url_inv (h.encoded_len (length query)) w url both in
      let (request, built, r) = if_some_inv (h.build url) _ _ _ (λ q. cc) f in
      let (response, between, executed, read) = response_inv (h.execute w request) r in
      record {
        base64_len = n;
        fits = fits;
        request = request;
        built = built;
        response = response;
        between = between;
        executed = executed;
        body = body;
        read = read;
        processed = queries_inv (h.process_response b body) processed;
      }

  abbrev pub Reaches :
      h.World
      → h.ProofBuilder
      → List Bytes
      → Option (Outcome String h.ProofBuilder × h.World)
      → Type 0
  Reaches w b pending (some (done b', w')) = AllAnswered w b pending w' b'
  Reaches w b pending (some (fail e, w')) = Unit
  Reaches w b pending (some (panic, w')) = Unit
  Reaches w b pending none = Unit

  one_more-Reaches :
      (w w' : h.World) (b b' : h.ProofBuilder) (query : Bytes) (queries pending : List Bytes)
      (o : Option (Outcome String h.ProofBuilder × h.World))
      → Answered w b query w' b' queries
      → Reaches w' b' (push_all queries pending) o
      → Reaches w b (query ∷ pending) o
  one_more-Reaches w w' b b' query queries pending none a rest = tt
  one_more-Reaches w w' b b' query queries pending (some (done b'', w'')) a rest = answered a rest
  one_more-Reaches w w' b b' query queries pending (some (fail e, w'')) a rest = tt
  one_more-Reaches w w' b b' query queries pending (some (panic, w'')) a rest = tt

  unless_failed-Reaches :
      (w : h.World) (b : h.ProofBuilder) (query : Bytes) (pending : List Bytes)
      (rest : h.ProofBuilder × List Bytes
        → h.World
        → Option (Outcome String h.ProofBuilder × h.World))
      (r : Outcome String (h.ProofBuilder × List Bytes) × h.World)
      → ((next : h.ProofBuilder × List Bytes) (w' : h.World)
          → Reaches w' next.0 (push_all next.1 pending) (rest next w'))
      → ask h w b query ≡ r
      → Reaches w b (query ∷ pending) (unless_failed h rest r)
  unfolding unless_failed
  unless_failed-Reaches w b query pending rest (fail e, w') ih q = tt
  unless_failed-Reaches w b query pending rest (panic, w') ih q = tt
  unless_failed-Reaches w b query pending rest (done (b', queries), w') ih q =
      one_more-Reaches w w' b b' query queries pending (rest (b', queries) w') (ask-Answered q)
        (ih (b', queries) w')

  pub ask_all-Reaches :
      (fuel : ℕ) (w : h.World) (b : h.ProofBuilder) (pending : List Bytes)
      → Reaches w b pending (ask_all h fuel w b pending)
  unfolding ask_all
  ask_all-Reaches fuel w b [] = nothing_pending
  ask_all-Reaches zero w b (query ∷ pending) = tt
  ask_all-Reaches (suc fuel) w b (query ∷ pending) =
      unless_failed-Reaches w b query pending _ (ask h w b query)
        (λ next w'. ask_all-Reaches fuel w' next.0 (push_all next.1 pending)) refl
