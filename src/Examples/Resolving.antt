-- ===== src/Examples/Resolving.antt =====
-- The theorems on the resolvers of names.
use Prim.Native.String.{String}
use libbtcwallet.Instructions.Uri.{has_prefix, split_once}
use libbtcwallet.Base.{
  if_some, ◌>>=◌, slice_from, ◌≤◌, ◌+◌, length, ℕ, zero, suc, ◌≡◌, refl, ◌↔◌, ◌++◌, arith, true,
  false, Option, none, some, List, [], ◌∷◌, Bytes, codes, Outcome, done, ok,
}
use mathlib.Core.Path.{subst}
use libbtcwallet.Instructions.External.{HrnResolver, HrnResolution}
use libbtcwallet.Instructions.{PaymentInstructions, on_chain}
use libbtcwallet.Instructions.Parse
use libbtcwallet.Instructions.Parse.{parse_resolved_instructions}
use libbtcwallet.Resolvers.Http.{DnsExternals, resolve_dns}
use libbtcwallet.Resolvers.Http.Resolved.{Resolved, resolve_dns_iff}
use libbtcwallet.Resolvers.Http.Ends.{QueryBound, resolve_dns-Ends}
use libbtcwallet.Resolvers.Onion.{OnionExternals, Node, Message, HrnResolverState}
use libbtcwallet.Resolvers.Onion.Released.{Call, resolve, release, run, Queued, released_once}
use libbtcwallet.Wallet.Parse.{
  HttpHrnResolver, parse_payment_instructions, parse_payment_instructions-Resolved,
}
use libbtcwallet.Examples.Toys.{parsers}

abbrev next_builder : ℕ → Option (List Bytes) × ℕ
next_builder zero = (some [], 0)
next_builder (suc n) = (some (codes "r" ∷ []), n)

-- The world counts the requests. A name takes two queries, and its proof is its only TXT record.
abbrev dns : DnsExternals parsers
dns = record {
  user = λ n. n;
  domain = λ n. n;
  encoded_len = some;
  base64 = λ b. b;
  World = ℕ;
  Request = Bytes;
  Response = Bytes;
  build = some;
  execute = λ w r. (some r, suc w);
  bytes = λ w r. (some r, w);
  Name = Bytes;
  name_from_str = some;
  ProofBuilder = ℕ;
  new_builder = λ n. (1, codes "q");
  process_response = λ b a. next_builder b;
  finish_proof = λ b. some (codes "bitcoin:b", 60);
  Rr = Bytes;
  parse_rr_stream = λ p. some (p ∷ []);
  VerifiedRrStream = List Bytes;
  verify_rr_stream = some;
  resolve_name = λ v n. v;
  txt_data = some;
}

abbrev proved : HrnResolution
proved = record { proof = some (codes "bitcoin:b"); result = codes "bitcoin:b" }

resolved_by_dns : resolve_dns dns 2 0 (codes "a@b") ≡ some (done proved, 2)
unfolding resolve_dns
resolved_by_dns = refl

resolve_dns_iff_example :
    ((fuel : ℕ) × (resolve_dns dns fuel 0 (codes "a@b") ≡ some (done proved, 2)))
    ↔ Resolved dns 0 (codes "a@b") 2 proved
resolve_dns_iff_example = resolve_dns_iff dns 0 2 (codes "a@b") proved

abbrev Within : ℕ → Option (List Bytes) × ℕ → Type 0
Within b (none, b') = Unit
Within b (some queries, b') = length queries + b' ≤ b

next_builder-Within : (b : ℕ) → Within b (next_builder b)
next_builder-Within zero = omega arith
next_builder-Within (suc n) = omega arith

two_queries : QueryBound dns (λ b. b)
two_queries = record {
  spends = λ b b' answer queries e. subst (Within b) e (next_builder-Within b);
}

resolve_dns-Ends_example :
    (a : Outcome String HrnResolution × ℕ) × (resolve_dns dns 2 0 (codes "a@b") ≡ some a)
resolve_dns-Ends_example =
    resolve_dns-Ends dns (λ b. b) two_queries 2 0 (codes "a@b") (λ name. omega arith)

-- The name is looked up from the start.
abbrev dns_resolver : HrnResolver parsers
dns_resolver = record { resolve_hrn = λ hrn. ok proved }

resolved_again : (hrn : Bytes) → resolve_dns dns 2 0 hrn ≡ some (done proved, 2)
unfolding resolve_dns
resolved_again hrn = refl

over_https : HttpHrnResolver dns dns_resolver
over_https = record {
  resolves = λ hrn r e.
      let same : proved ≡ r = cc in
      (0, 2, 2, subst (λ q. resolve_dns dns 2 0 hrn ≡ some (done q, 2)) same (resolved_again hrn));
}

abbrev instructions : PaymentInstructions parsers
instructions = record {
  recipient_description = none;
  methods = on_chain none (codes "b") ∷ [];
  pop_callback = none;
  hrn = some (codes "@");
  hrn_proof = some (codes "bitcoin:b");
}

name_parsed : parse_payment_instructions parsers true dns_resolver (codes "@") ≡ done instructions
unfolding parse_payment_instructions Parse.parse_payment_instructions if_some ◌>>=◌
    parse_resolved_instructions has_prefix Parse.parse_bitcoin_uri slice_from Parse.parse_body
    split_once Parse.parse_params
name_parsed = refl

parse_payment_instructions-Resolved_example :
    (w : ℕ) × (w' : ℕ) × (r : HrnResolution) × Resolved dns w (codes "@") w' r
    × (parse_resolved_instructions parsers true true (some (codes "@")) r.proof r.result
        ≡ done instructions)
    × (instructions.hrn ≡ some (codes "@"))
    × (instructions.hrn_proof ≡ r.proof)
parse_payment_instructions-Resolved_example =
    parse_payment_instructions-Resolved parsers true dns dns_resolver over_https (codes "@")
      (codes "@") instructions refl name_parsed

-- Two nodes, one of which announces both features.
abbrev onion : OnionExternals parsers
onion = record {
  NodeId = ℕ;
  PublicKey = ℕ;
  as_pubkey = some;
  PaymentId = ℕ;
  Resolver = Unit;
  DnssecQuery = Bytes;
  Context = Unit;
  resolve_name = λ s i n. (some (n, tt), s);
  DnssecProof = Unit;
  handle_dnssec_proof_for_uri = λ s p c. (none, s);
}

abbrev nodes : List (Node onion)
nodes =
    record {
      node_id = 1;
      announcement_info =
          some (record { supports_dns_resolution = true; supports_onion_messages = false });
    }
    ∷ record {
      node_id = 2;
      announcement_info =
          some (record { supports_dns_resolution = true; supports_onion_messages = true });
    }
    ∷ []

abbrev empty_queue : HrnResolverState onion
empty_queue = record { resolver = tt; message_queue = [] }

abbrev calls : List (Call onion)
calls = resolve nodes 5 (codes "@") ∷ release ∷ resolve nodes 6 (codes "@") ∷ []

one_released : (run onion empty_queue calls).0 ≡ record { query = codes "@"; destination = 2 } ∷ []
unfolding run
one_released = refl

released_once_example :
    (queued : List (Message onion)) × Queued onion calls queued
    × (queued ≡ (run onion empty_queue calls).0 ++ (run onion empty_queue calls).1.message_queue)
released_once_example = released_once onion empty_queue calls
