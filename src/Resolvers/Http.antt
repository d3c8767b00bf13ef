-- ===== src/Resolvers/Http.antt =====
-- bitcoin-payment-instructions/src/http_resolver.rs: a name is looked up by DNS queries over HTTPS,
-- from which a DNSSEC proof is built, and the TXT record that the proof shows is the result.
pub mod Answered
pub mod Resolved
pub mod Ends
use Prim.Native.String.{String}
use libbtcwallet.Base.{
  if_some, ℕ, zero, suc, ◌++◌, Option, none, some, List, [], ◌∷◌, Bytes, codes, length, Outcome,
  done, fail, panic, ◌>>=◌, ok_or, is_utf8, if◌then◌else◌,
}
use libbtcwallet.Instructions.External.{Externals, HrnResolution}

-- What is used of `dnssec_prover`, `reqwest` and `base64`. A `QueryBuf` is its bytes, and the network
-- is a world that a request may change.
pub record DnsExternals (x : Externals) : Type 1 where
  pub user : x.HumanReadableName → Bytes
  pub domain : x.HumanReadableName → Bytes
  -- `base64::encoded_len(n, true)`, and the engine `STANDARD_NO_PAD`
  pub encoded_len : ℕ → Option ℕ
  pub base64 : Bytes → Bytes
  -- building a GET request, running it, and reading the body of the response
  pub World : Type 0
  pub Request : Type 0
  pub Response : Type 0
  pub build : Bytes → Option Request
  pub execute : World → Request → Option Response × World
  pub bytes : World → Response → Option Bytes × World
  pub Name : Type 0
  pub name_from_str : Bytes → Option Name
  pub ProofBuilder : Type 0
  -- `ProofBuilder::new(&name, TXT_TYPE)`
  pub new_builder : Name → ProofBuilder × Bytes
  -- the further queries, with the builder that the call leaves
  pub process_response : ProofBuilder → Bytes → Option (List Bytes) × ProofBuilder
  pub finish_proof : ProofBuilder → Option (Bytes × ℕ)
  pub Rr : Type 0
  pub parse_rr_stream : Bytes → Option (List Rr)
  pub VerifiedRrStream : Type 0
  pub verify_rr_stream : List Rr → Option VerifiedRrStream
  pub resolve_name : VerifiedRrStream → Name → List Rr
  -- the data of an `RR::Txt`
  pub txt_data : Rr → Option Bytes

abbrev pub doh_endpoint : Bytes
doh_endpoint = codes "https://dns.google/dns-query?dns="

abbrev pub request_failed : String
request_failed = "DNS Request to dns.google failed"

-- `Vec::push` for each query, on a stack with its top in front
abbrev pub push_all : List Bytes → List Bytes → List Bytes
push_all [] pending = pending
push_all (query ∷ queries) pending = push_all queries (query ∷ pending)

module _ {x : Externals} (h : DnsExternals x) where
  -- It panics where the length of the encoding overflows.
  unfoldable pub query_to_url : Bytes → Outcome String Bytes
  unfolding if_some
  query_to_url query =
      if_some (h.encoded_len (length query)) (λ base64_len. done (doh_endpoint ++ h.base64 query))
        panic

  -- One request, from its URL to the body of its response.
  unfoldable pub body_of : Option Bytes × h.World → Outcome String Bytes × h.World
  body_of (body, w) = (ok_or request_failed body, w)

  unfoldable pub response_of : Option h.Response × h.World → Outcome String Bytes × h.World
  unfolding body_of
  response_of (none, w) = (fail request_failed, w)
  response_of (some resp, w) = body_of (h.bytes w resp)

  unfoldable pub fetch : h.World → Outcome String Bytes → Outcome String Bytes × h.World
  unfolding response_of if_some
  fetch w (done request_url) =
      if_some (h.build request_url) (λ req. response_of (h.execute w req)) (fail request_failed, w)
  fetch w (fail e) = (fail e, w)
  fetch w panic = (panic, w)

  unfoldable pub queries_of :
      Option (List Bytes) × h.ProofBuilder → Outcome String (h.ProofBuilder × List Bytes)
  queries_of (none, b) = fail "DNS resolution failed"
  queries_of (some queries, b) = done (b, queries)

  -- The body of the loop: the builder with the response to a query, and the further queries.
  unfoldable pub ask :
      h.World → h.ProofBuilder → Bytes → Outcome String (h.ProofBuilder × List Bytes) × h.World
  unfolding query_to_url fetch queries_of ◌>>=◌
  ask w b query =
      let (answer, w') = fetch w (query_to_url query) in
      (answer >>= (λ body. queries_of (h.process_response b body)), w')

  -- The rest of the loop, where a query was answered; `?` and the `return` leave it.
  unfoldable pub unless_failed :
      (h.ProofBuilder × List Bytes → h.World → Option (Outcome String h.ProofBuilder × h.World))
      → Outcome String (h.ProofBuilder × List Bytes) × h.World
      → Option (Outcome String h.ProofBuilder × h.World)
  unless_failed rest (done next, w) = rest next w
  unless_failed rest (fail e, w) = some (fail e, w)
  unless_failed rest (panic, w) = some (panic, w)

  -- `while let Some(query) = pending_queries.pop()`, and nothing where the fuel does not suffice.
  unfoldable pub ask_all :
      ℕ → h.World → h.ProofBuilder → List Bytes → Option (Outcome String h.ProofBuilder × h.World)
  unfolding ask unless_failed
  ask_all fuel w b [] = some (done b, w)
  ask_all zero w b (query ∷ pending) = none
  ask_all (suc fuel) w b (query ∷ pending) =
      unless_failed (λ next w'. ask_all fuel w' next.0 (push_all next.1 pending)) (ask w b query)

  -- `match rr { … }`, with the `result` so far and the rest of the loop
  unfoldable pub take_txt :
      Option Bytes
      → Option Bytes
      → (Option Bytes → Outcome String (Option Bytes))
      → Outcome String (Option Bytes)
  take_txt none result rest = rest result
  take_txt (some data_) none rest = rest (some data_)
  take_txt (some data_) (some _) rest =
      fail "Multiple TXT records existed for the HRN, which is invalid"

  -- `for rr in resolved_rrs`
  unfoldable pub select_txt : List h.Rr → Option Bytes → Outcome String (Option Bytes)
  unfolding take_txt
  select_txt [] result = done result
  select_txt (rr ∷ rrs) result = take_txt (h.txt_data rr) result (select_txt rrs)

  unfoldable pub text_of : Bytes → Option Bytes → Outcome String HrnResolution
  unfolding is_utf8
  text_of proof (some res) =
      if is_utf8 res
      then done (record { proof = some proof; result = res })
      else fail "TXT record contained an invalid string"
  text_of proof none = fail "No validated TXT record found"

  -- From the proof to the result.
  unfoldable pub read_proof : h.Name → h.ProofBuilder → Outcome String HrnResolution
  unfolding select_txt text_of ◌>>=◌
  read_proof dns_name proof_builder = do
    (proof, _ttl) ← ok_or "Too many queries required to build proof" (h.finish_proof proof_builder)
    rrs ← ok_or "DNS Proof Builder somehow generated an invalid proof" (h.parse_rr_stream proof)
    verified_rrs ← ok_or "DNSSEC signatures were invalid" (h.verify_rr_stream rrs)
    result ← select_txt (h.resolve_name verified_rrs dns_name) none
    text_of proof result

  unfoldable pub read_built :
      h.Name
      → Option (Outcome String h.ProofBuilder × h.World)
      → Option (Outcome String HrnResolution × h.World)
  unfolding read_proof ◌>>=◌
  read_built dns_name none = none
  read_built dns_name (some (built, w)) = some (built >>= read_proof dns_name, w)

  unfoldable pub dns_name_text : x.HumanReadableName → Bytes
  dns_name_text hrn = h.user hrn ++ (codes ".user._bitcoin-payment." ++ (h.domain hrn ++ codes "."))

  -- `resolve_dns`, which `resolve_hrn` is.
  unfoldable pub resolve_dns :
      ℕ → h.World → x.HumanReadableName → Option (Outcome String HrnResolution × h.World)
  unfolding dns_name_text ask_all read_built if_some
  resolve_dns fuel w hrn =
      if_some (h.name_from_str (dns_name_text hrn))
        (λ dns_name.
          let (proof_builder, initial_query) = h.new_builder dns_name in
          read_built dns_name (ask_all fuel w proof_builder (initial_query ∷ [])))
        (some (fail "The provided HRN was too long to fit in a DNS name", w))
