-- ===== src/Base/Utf8.antt =====
-- Well-formed UTF-8, as `String::from_utf8` checks it.
use Prim.Native.Nat.{ℕ, zero, suc}
use mathlib.Core.Path.{◌≡◌, refl}
use mathlib.Core.Bool.{Bool, true, false, ◌&&◌}
use mathlib.Core.List.{List, [], ◌∷◌}
use mathlib.Core.Option.{Option, none, some}
use libbtcwallet.Base.Tests.{ltb, leb, if◌then◌else◌}

-- What follows a first byte: so many continuation bytes, and the range of the first of them.
pub record Expected : Type 0 where
  pub count : ℕ
  pub low : ℕ
  pub high : ℕ

abbrev expect : ℕ → ℕ → ℕ → Option Expected
expect count low high = some (record { count = count; low = low; high = high })

-- No overlong form, no surrogate, and nothing above U+10FFFF.
unfoldable pub after_first : ℕ → Option Expected
after_first c =
    if ltb c 128
    then expect 0 0 0
    else if ltb c 194
    then none
    else if ltb c 224
    then expect 1 128 191
    else if ltb c 225
    then expect 2 160 191
    else if ltb c 237
    then expect 2 128 191
    else if ltb c 238
    then expect 2 128 159
    else if ltb c 240
    then expect 2 128 191
    else if ltb c 241
    then expect 3 144 191
    else if ltb c 244
    then expect 3 128 191
    else if ltb c 245
    then expect 3 128 143
    else none

unfoldable pub continues : ℕ → ℕ → ℕ → List ℕ → Bool
unfolding after_first
continues zero low high [] = true
continues zero low high (c ∷ s) = elim (after_first c) [
  | none ↦ false
  | some e ↦ continues e.count e.low e.high s
]
continues (suc n) low high [] = false
continues (suc n) low high (c ∷ s) = leb low c && leb c high && continues n 128 191 s

unfoldable pub is_utf8 : List ℕ → Bool
unfolding continues
is_utf8 = continues 0 0 0

is_utf8_accent : is_utf8 (97 ∷ 195 ∷ 169 ∷ 226 ∷ 130 ∷ 191 ∷ []) ≡ true
unfolding is_utf8
is_utf8_accent = refl

is_utf8_surrogate : is_utf8 (237 ∷ 160 ∷ 128 ∷ []) ≡ false
unfolding is_utf8
is_utf8_surrogate = refl
