-- ===== src/Resolvers/Http/Resolved.antt =====
-- When the lookup of a name over HTTPS succeeds.
use Prim.Native.String.{String}
use libbtcwallet.Base.{
  ℕ, ◌≡◌, ◌≢◌, refl, ap, sym, ◌↔◌, Bool, true, false, Option, none, some, List, [], ◌∷◌, Bytes,
  Outcome, if_some, done, fail, panic, ◌>>=◌, >>=-eq-done, ok_or, is_utf8, if◌then◌else◌,
}
use mathlib.Core.Path.{subst, ◌∙◌}
use libbtcwallet.Instructions.External.{Externals, HrnResolution}
use libbtcwallet.Resolvers.Http.{
  DnsExternals, take_txt, select_txt, text_of, read_proof, read_built, dns_name_text, resolve_dns,
}
use libbtcwallet.Resolvers.Http.Answered.{
  AllAnswered, AllAnswered-ask_all, if_some_inv, Reaches, ask_all-Reaches,
}

module _ {x : Externals} (h : DnsExternals x) where
  abbrev pub with_text : Option Bytes → List Bytes → List Bytes
  with_text none more = more
  with_text (some text) more = text ∷ more

  abbrev pub texts : List h.Rr → List Bytes
  texts [] = []
  texts (rr ∷ rrs) = with_text (h.txt_data rr) (texts rrs)

  -- What the loop over the records makes of their texts.
  abbrev picked : Option Bytes → List Bytes → Outcome String (Option Bytes)
  picked result [] = done result
  picked none (text ∷ []) = done (some text)
  picked none (text ∷ other ∷ more) =
      fail "Multiple TXT records existed for the HRN, which is invalid"
  picked (some result) (text ∷ more) =
      fail "Multiple TXT records existed for the HRN, which is invalid"

  take_txt_lem :
      (data_ result : Option Bytes) (more : List Bytes)
      (rest : Option Bytes → Outcome String (Option Bytes))
      → ((r : Option Bytes) → rest r ≡ picked r more)
      → take_txt h data_ result rest ≡ picked result (with_text data_ more)
  unfolding take_txt
  take_txt_lem none result more rest e = e result
  take_txt_lem (some data_) none [] rest e = e (some data_)
  take_txt_lem (some data_) none (text ∷ more) rest e = e (some data_)
  take_txt_lem (some data_) (some result) more rest e = refl

  select_txt_lem :
      (rrs : List h.Rr) (result : Option Bytes)
      → select_txt h rrs result ≡ picked result (texts rrs)
  unfolding select_txt
  select_txt_lem [] result = refl
  select_txt_lem (rr ∷ rrs) result =
      take_txt_lem (h.txt_data rr) result (texts rrs) (select_txt h rrs) (select_txt_lem rrs)

  if_inv :
      {A : Type 0} (c : Bool) (a e z : A) → e ≢ z → (if c then a else e) ≡ z → (c ≡ true) × (a ≡ z)
  if_inv true a e z n q = (refl, q)
  if_inv false a e z n q = absurd (n q)

  picked_inv :
      (l : List Bytes) (proof : Bytes) {r : HrnResolution}
      → (picked none l >>= text_of h proof) ≡ done r
      → (text : Bytes) × (l ≡ text ∷ [])
        × (is_utf8 text ≡ true)
        × (r ≡ record { proof = some proof; result = text })
  unfolding text_of ◌>>=◌
  picked_inv [] proof e = cc
  picked_inv (text ∷ other ∷ more) proof e = cc
  picked_inv (text ∷ []) proof e =
      let (v, same) = if_inv (is_utf8 text) _ _ _ (λ q. cc) e in (text, refl, v, cc)

  ok_or_inv : {A : Type 0} (e : String) (o : Option A) {a : A} → ok_or e o ≡ done a → o ≡ some a
  ok_or_inv e none q = cc
  ok_or_inv e (some a) q = cc

  -- The part of a resolution behind the queries.
  pub record Proved (name : h.Name) (builder : h.ProofBuilder) (r : HrnResolution) : Type 0 where
    pub proof : Bytes
    pub ttl : ℕ
    pub finished : h.finish_proof builder ≡ some (proof, ttl)
    pub rrs : List h.Rr
    pub parsed : h.parse_rr_stream proof ≡ some rrs
    pub verified_rrs : h.VerifiedRrStream
    pub verified : h.verify_rr_stream rrs ≡ some verified_rrs
    pub text : Bytes
    pub only : texts (h.resolve_name verified_rrs name) ≡ text ∷ []
    pub valid : is_utf8 text ≡ true
    pub result : r ≡ record { proof = some proof; result = text }

  read_proof-Proved :
      (name : h.Name) (builder : h.ProofBuilder) {r : HrnResolution}
      → read_proof h name builder ≡ done r
      → Proved name builder r
  unfolding read_proof
  read_proof-Proved name builder e =
      let (fin, finished, e1) = >>=-eq-done _ _ e in
      let (rrs, parsed, e2) = >>=-eq-done _ _ e1 in
      let (verified_rrs, verified, e3) = >>=-eq-done _ _ e2 in
      let rest =
        ap (λ o. o >>= text_of h fin.0)
          (sym (select_txt_lem (h.resolve_name verified_rrs name) none))
        ∙ e3 in
      let (text, only, valid, result) =
        picked_inv (texts (h.resolve_name verified_rrs name)) fin.0 rest in
      record {
        proof = fin.0;
        ttl = fin.1;
        finished = ok_or_inv _ (h.finish_proof builder) finished;
        rrs = rrs;
        parsed = ok_or_inv _ (h.parse_rr_stream fin.0) parsed;
        verified_rrs = verified_rrs;
        verified = ok_or_inv _ (h.verify_rr_stream rrs) verified;
        text = text;
        only = only;
        valid = valid;
        result = result;
      }

  Proved-read_proof :
      (name : h.Name) (builder : h.ProofBuilder) {r : HrnResolution}
      → Proved name builder r
      → read_proof h name builder ≡ done r
  unfolding read_proof text_of ◌>>=◌
  Proved-read_proof name builder p =
      rw
        (
          p.finished,
          p.parsed,
          p.verified,
          select_txt_lem (h.resolve_name p.verified_rrs name) none,
          p.only,
          p.valid,
          p.result,
        )
        refl

  -- The queries are answered, the proof built from the answers holds for exactly one TXT record of
  -- the name, and that is valid UTF-8.
  pub record Resolved (w : h.World) (hrn : x.HumanReadableName) (w' : h.World) (r : HrnResolution)
      : Type 0 where
    pub name : h.Name
    pub fits : h.name_from_str (dns_name_text h hrn) ≡ some name
    pub builder : h.ProofBuilder
    pub answers : AllAnswered h w (h.new_builder name).0 ((h.new_builder name).1 ∷ []) w' builder
    pub proved : Proved name builder r

  Resolved-resolve_dns :
      {w w' : h.World} {hrn : x.HumanReadableName} {r : HrnResolution}
      → Resolved w hrn w' r
      → (fuel : ℕ) × (resolve_dns h fuel w hrn ≡ some (done r, w'))
  unfolding resolve_dns read_built if_some ◌>>=◌
  Resolved-resolve_dns p =
      let (fuel, e) = AllAnswered-ask_all h p.answers in
      (fuel, rw (p.fits, e, Proved-read_proof p.name p.builder p.proved) refl)

  read_built_inv :
      (w : h.World) (name : h.Name) (o : Option (Outcome String h.ProofBuilder × h.World))
      {r : HrnResolution} {w' : h.World}
      → Reaches h w (h.new_builder name).0 ((h.new_builder name).1 ∷ []) o
      → read_built h name o ≡ some (done r, w')
      → (builder : h.ProofBuilder) × AllAnswered h w
          (h.new_builder name).0
          ((h.new_builder name).1 ∷ [])
          w'
          builder
        × Proved name builder r
  unfolding read_built ◌>>=◌
  read_built_inv w name none reach e = cc
  read_built_inv w name (some (fail q, v)) reach e = cc
  read_built_inv w name (some (panic, v)) reach e = cc
  read_built_inv w name (some (done builder, v)) {r} {w'} reach e =
      let proved : read_proof h name builder ≡ done r = cc in
      let same : v ≡ w' = cc in
      (
        builder,
        subst (λ u. AllAnswered h w (h.new_builder name).0 ((h.new_builder name).1 ∷ []) u builder)
            same reach,
        read_proof-Proved name builder proved,
      )

  -- The lookup of a name over HTTPS succeeds, for some number of rounds, exactly when every query,
  -- and every query that an answer leads to, is answered, the latest first; the proof that is
  -- built parses and is verified; it shows exactly one TXT record for the name; and its text is
  -- valid UTF-8. The result is that text with that proof.
  pub resolve_dns_iff :
      (w w' : h.World) (hrn : x.HumanReadableName) (r : HrnResolution)
      → ((fuel : ℕ) × (resolve_dns h fuel w hrn ≡ some (done r, w'))) ↔ Resolved w hrn w' r
  unfolding resolve_dns
  resolve_dns_iff w w' hrn r = (
    λ (fuel, e).
        let (name, fits, built) =
          if_some_inv h (h.name_from_str (dns_name_text h hrn)) _ _ _ (λ q. cc) e in
        let (builder, answers, proved) =
          read_built_inv w name _
            (ask_all-Reaches h fuel w (h.new_builder name).0 ((h.new_builder name).1 ∷ [])) built in
        record { name = name; fits = fits; builder = builder; answers = answers; proved = proved },
    Resolved-resolve_dns,
  )
