-- ===== src/Base/Text.antt =====
-- Rust's `&str` as its UTF-8 bytes, with the methods of `str` that the program calls.
use Prim.Native.Nat.{ℕ, zero, suc, ◌+◌, ◌-◌, ◌*◌, ◌^◌, ◌<◌}
use Prim.Native.Char.{code}
use Prim.Native.String.{String}
use mathlib.Core.Path.{◌≡◌, refl}
use mathlib.Core.Logic.{◌≢◌}
use mathlib.Core.Bool.{Bool, true, false, not, ◌&&◌}
use mathlib.Core.List.{List, [], ◌∷◌, map}
use mathlib.Core.Option.{Option, none, some}
use native.Mathlib.Omega.{arith}
use libbtcwallet.Base.Tests.{ltb, leb, ◌==◌, if◌then◌else◌}
use libbtcwallet.Base.Lists.{take, drop, All}
use libbtcwallet.Base.Outcomes.{Outcome, done, panic}

abbrev pub Bytes : Type 0
Bytes = List ℕ

-- The bytes of an ASCII literal.
abbrev pub codes : String → Bytes
codes String.[] = []
codes (String.◌∷◌ c s) = code c ∷ codes s

abbrev pub beq : Bytes → Bytes → Bool
beq [] [] = true
beq [] (d ∷ t) = false
beq (c ∷ s) [] = false
beq (c ∷ s) (d ∷ t) = (c == d) && beq s t

pub beq_eq : (s t : Bytes) → beq s t ≡ true → s ≡ t
beq_eq [] [] h = refl
beq_eq [] (d ∷ t) h = cc
beq_eq (c ∷ s) [] h = cc
beq_eq (c ∷ s) (d ∷ t) h = ground (arith, beq_eq s t)

pub beq_refl : (s : Bytes) → beq s s ≡ true
beq_refl [] = refl
beq_refl (c ∷ s) = ground (arith, beq_refl s)

-- `u8::to_ascii_lowercase`, `u8::to_ascii_uppercase`
unfoldable pub to_lower : ℕ → ℕ
to_lower c = if leb b'A' c && leb c b'Z' then c + 32 else c

unfoldable pub to_upper : ℕ → ℕ
to_upper c = if leb b'a' c && leb c b'z' then c - 32 else c

unfoldable pub to_ascii_uppercase : Bytes → Bytes
unfolding to_upper
to_ascii_uppercase = map to_upper

unfoldable pub eq_ignore_ascii_case : Bytes → Bytes → Bool
unfolding to_lower
eq_ignore_ascii_case s t = beq (map to_lower s) (map to_lower t)

-- `str::is_char_boundary`: not in front of a continuation byte.
unfoldable pub is_char_boundary : Bytes → ℕ → Bool
is_char_boundary [] zero = true
is_char_boundary [] (suc i) = false
is_char_boundary (c ∷ s) zero = not (leb 128 c && ltb c 192)
is_char_boundary (c ∷ s) (suc i) = is_char_boundary s i

-- `&s[..i]` and `&s[i..]`, which panic off a boundary.
unfoldable pub slice_to {ℓ} : {E : Type ℓ} → Bytes → ℕ → Outcome E Bytes
unfolding is_char_boundary
slice_to s i = if is_char_boundary s i then done (take i s) else panic

unfoldable pub slice_from {ℓ} : {E : Type ℓ} → Bytes → ℕ → Outcome E Bytes
unfolding is_char_boundary
slice_from s i = if is_char_boundary s i then done (drop i s) else panic

-- `s.split(c)` at an ASCII character: at least one part.
module _ (c : ℕ) where
  unfoldable pub push_byte : ℕ → List Bytes → List Bytes
  push_byte b [] = (b ∷ []) ∷ []
  push_byte b (p ∷ ps) = (b ∷ p) ∷ ps

  unfoldable pub split : Bytes → List Bytes
  unfolding push_byte
  split [] = [] ∷ []
  split (b ∷ s) = let rest = split s in if b == c then [] ∷ rest else push_byte b rest

-- `s.split_once(c)`
unfoldable pub find_split : ℕ → Bytes → Option (Bytes × Bytes)
find_split c [] = none
find_split c (b ∷ s) =
    let rest = find_split c s in
    if b == c then some ([], s) else elim rest [ none ↦ none | some (p, q) ↦ some (b ∷ p, q) ]

abbrev pub Lacks : ℕ → Bytes → Type 0
Lacks c = All (λ b. b ≢ c)

abbrev pub IsAscii : Bytes → Type 0
IsAscii = All (λ b. b < 128)

-- `u64::from_str`: digits, with a `+` in front or not, of a number that fits.
unfoldable pub parse_digits : ℕ → Bytes → Option ℕ
parse_digits n [] = some n
parse_digits n (b ∷ s) =
    let n' = n * 10 + (b - b'0') in
    let rest = parse_digits n' s in
    if leb b'0' b && leb b b'9' && ltb n' (2 ^ 64) then rest else none

abbrev pub some_digits : Bytes → Option ℕ
unfolding parse_digits
some_digits [] = none
some_digits (b ∷ s) = parse_digits 0 (b ∷ s)

unfoldable pub parse_u64 : Bytes → Option ℕ
unfolding some_digits
parse_u64 [] = none
parse_u64 (b ∷ s) = if b == b'+' then some_digits s else some_digits (b ∷ s)
