-- ===== src/Instructions/Percent/Decimal.antt =====
-- `un_percent_encode` against percent-encoding: it decodes just the escapes with two decimal digits.
use libbtcwallet.Base.{
  Ensures-map, ℕ, ◌≡◌, ◌≢◌, ◌↔◌, ◌⊎◌, ◌*◌, ◌+◌, ◌-◌, refl, sym, ap, ◌∙◌, arith, true, false,
  Bool-cases, inl, inr, ◌==◌, [], ◌∷◌, ◌++◌, append_assoc, append-nil, Bytes, is_utf8, Ensures,
  on_done, on_fail, Ensures-branch, Ensures-at, Ensures-bind, done, fail, ◌>>=◌,
}
use mathlib.Core.Path.{subst}
use libbtcwallet.Amount.Format.Loop.{IsDigit}
use libbtcwallet.Instructions.External.{Externals}
use libbtcwallet.Instructions.{invalid_instructions}
use libbtcwallet.Instructions.Percent.{
  percent_error, not_decimal, decode_loop, from_utf8, un_percent_encode,
}

-- A text and what it stands for, where an escape is `%` with two decimal digits.
pub data Decodes : Bytes → Bytes → Type 0 where
  ended : Decodes [] []
  literal : {b : ℕ} {s u : Bytes} → b ≢ b'%' → Decodes s u → Decodes (b ∷ s) (b ∷ u)
  escaped :
      {high low : ℕ} {s u : Bytes}
      → IsDigit high
      → IsDigit low
      → Decodes s u
      → Decodes (b'%' ∷ high ∷ low ∷ s) (((high - b'0') * 16 + (low - b'0')) ∷ u)

module _ (x : Externals) where
  abbrev Decoded : Bytes → Bytes → Bytes → Type 0
  Decoded s res t = (u : Bytes) × Decodes s u × (t ≡ res ++ u)

  Decoded-literal :
      (b : ℕ) (s res t : Bytes) → b ≢ b'%' → Decoded s (res ++ b ∷ []) t → Decoded (b ∷ s) res t
  Decoded-literal b s res t n (u, d, e) = (b ∷ u, literal n d, e ∙ append_assoc res (b ∷ []) u)

  Decoded-escaped :
      (b high low : ℕ) (s res t : Bytes)
      → (b == b'%') ≡ true
      → not_decimal x high low ≡ false
      → Decoded s (res ++ ((high - b'0') * 16 + (low - b'0')) ∷ []) t
      → Decoded (b ∷ high ∷ low ∷ s) res t
  unfolding not_decimal
  Decoded-escaped b high low s res t p q (u, d, e) =
      let percent : b'%' ≡ b = ground arith in
      let value = (high - b'0') * 16 + (low - b'0') in
      (
        value ∷ u,
        subst (λ c. Decodes (c ∷ high ∷ low ∷ s) (value ∷ u)) percent
            (escaped (ground arith) (ground arith) d),
        e ∙ append_assoc res (value ∷ []) u,
      )

  decode_loop-Decoded : (s res : Bytes) → Ensures (Decoded s res) (decode_loop x s res)
  unfolding decode_loop
  decode_loop-Decoded [] res = on_done ([], ended, sym (append-nil res))
  decode_loop-Decoded (b ∷ []) res =
      Ensures-branch (b == b'%') (λ p. on_fail)
        (λ p. on_done (b ∷ [], literal (ground arith) ended, refl))
  decode_loop-Decoded (b ∷ high ∷ []) res =
      Ensures-branch (b == b'%') (λ p. on_fail)
        (λ p.
          Ensures-map (λ t. Decoded-literal b (high ∷ []) res t (ground arith))
            (decode_loop-Decoded (high ∷ []) (res ++ b ∷ [])))
  decode_loop-Decoded (b ∷ high ∷ low ∷ s) res =
      Ensures-branch (b == b'%')
        (λ p.
          Ensures-branch (not_decimal x high low) (λ q. on_fail)
            (λ q.
              Ensures-map (λ t. Decoded-escaped b high low s res t p q) (decode_loop-Decoded s _)))
        (λ p.
          Ensures-map (λ t. Decoded-literal b (high ∷ low ∷ s) res t (ground arith))
            (decode_loop-Decoded (high ∷ low ∷ s) (res ++ b ∷ [])))

  decode_literal :
      (b : ℕ) (s res : Bytes)
      → b ≢ b'%'
      → decode_loop x (b ∷ s) res ≡ decode_loop x s (res ++ b ∷ [])
  unfolding decode_loop
  decode_literal b [] res n = let other : (b == b'%') ≡ false = ground arith in rw other refl
  decode_literal b (h ∷ []) res n = let other : (b == b'%') ≡ false = ground arith in rw other refl
  decode_literal b (h ∷ l ∷ s) res n =
      let other : (b == b'%') ≡ false = ground arith in rw other refl

  decode_escaped :
      (high low : ℕ) (s res : Bytes)
      → IsDigit high
      → IsDigit low
      → decode_loop x (b'%' ∷ high ∷ low ∷ s) res
        ≡ decode_loop x s (res ++ ((high - b'0') * 16 + (low - b'0')) ∷ [])
  unfolding decode_loop not_decimal
  decode_escaped high low s res h l = ground arith

  not_decimal_lem :
      (high low : ℕ) → (¬ IsDigit high) ⊎ (¬ IsDigit low) → not_decimal x high low ≡ true
  unfolding not_decimal
  not_decimal_lem high low bad = elim (Bool-cases (not_decimal x high low)) [
    | inl e ↦ e
    | inr e ↦
        let digits : IsDigit high × IsDigit low =
          ((ground arith, ground arith), (ground arith, ground arith)) in
        elim bad [ inl h ↦ absurd (h digits.0) | inr l ↦ absurd (l digits.1) ]
  ]

  -- What is decoded in front of the rest.
  decode_front :
      (s u rest res : Bytes)
      → Decodes s u
      → decode_loop x (s ++ rest) res ≡ decode_loop x rest (res ++ u)
  decode_front s u rest res ended = ap (decode_loop x rest) (sym (append-nil res))
  decode_front s u rest res (literal {b = b} {s = s'} {u = u'} n d) =
      decode_literal b (s' ++ rest) res n
      ∙ decode_front s' u' rest (res ++ b ∷ []) d
      ∙ ap (decode_loop x rest) (append_assoc res (b ∷ []) u')
  decode_front s u rest res (escaped {high = high} {low = low} {s = s'} {u = u'} h l d) =
      let value = (high - b'0') * 16 + (low - b'0') in
      decode_escaped high low (s' ++ rest) res h l
      ∙ decode_front s' u' rest (res ++ value ∷ []) d
      ∙ ap (decode_loop x rest) (append_assoc res (value ∷ []) u')

  Decodes-decode_loop : (s u : Bytes) → Decodes s u → decode_loop x s [] ≡ done u
  unfolding decode_loop
  Decodes-decode_loop s u d =
      ap (λ t. decode_loop x t []) (sym (append-nil s)) ∙ decode_front s u [] [] d

  decoded_valid :
      (s : Bytes) → Ensures (λ t. Decodes s t × (is_utf8 t ≡ true)) (un_percent_encode x s)
  unfolding un_percent_encode from_utf8
  decoded_valid s = Ensures-bind (decode_loop x s []) _ λ u decoded.
      let (v, d, same) = Ensures-at (decode_loop-Decoded s []) decoded in
      Ensures-branch (is_utf8 u) (λ valid. on_done (subst (Decodes s) (sym same) d, valid))
        (λ invalid. on_fail)

  -- `un_percent_encode` returns a text exactly if each `%` of its argument begins an escape with
  -- two decimal digits, and what these stand for, with all other bytes kept, is valid UTF-8; that
  -- is the text.
  pub un_percent_encode_iff :
      (s t : Bytes) → (un_percent_encode x s ≡ done t) ↔ (Decodes s t × (is_utf8 t ≡ true))
  unfolding un_percent_encode from_utf8 ◌>>=◌
  un_percent_encode_iff s t =
      (Ensures-at (decoded_valid s), λ (d, valid). rw (Decodes-decode_loop s t d, valid) refl)

  -- Whatever follows, and if the bytes in front are decoded, an escape in which one of the two
  -- digits is none of 0 to 9, as `%2F` or `%3A`, is an error.
  pub un_percent_encode-fail :
      (s u rest : Bytes) (high low : ℕ)
      → Decodes s u
      → (¬ IsDigit high) ⊎ (¬ IsDigit low)
      → un_percent_encode x (s ++ b'%' ∷ high ∷ low ∷ rest)
        ≡ fail (invalid_instructions percent_error)
  unfolding un_percent_encode decode_loop ◌>>=◌
  un_percent_encode-fail s u rest high low d bad =
      rw (decode_front s u (b'%' ∷ high ∷ low ∷ rest) [] d, not_decimal_lem high low bad) refl
