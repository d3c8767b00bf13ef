-- ===== src/Base/Splits.antt =====
-- Laws of `split` and `split_once`, and of predicates on every byte.
use Prim.Native.Nat.{ℕ}
use mathlib.Core.Path.{◌≡◌, refl}
use mathlib.Core.Logic.{inl, inr}
use mathlib.Core.List.{List, [], ◌∷◌, ◌++◌}
use mathlib.Core.Option.{Option, none, some}
use native.Mathlib.Omega.{arith}
use libbtcwallet.Base.Tests.{◌==◌, Bool-cases}
use libbtcwallet.Base.Lists.{All}
use libbtcwallet.Base.Text.{Bytes, split, push_byte, find_split, Lacks}

pub All-map {ℓ κ μ} :
    {A : Type ℓ} {P : A → Type κ} {Q : A → Type μ} (f : (x : A) → P x → Q x) (xs : List A)
    → All P xs
    → All Q xs
All-map f [] h = tt
All-map f (x ∷ xs) (px, hx) = (f x px, All-map f xs hx)

pub All-zip {ℓ κ μ} :
    {A : Type ℓ} (P : A → Type κ) (Q : A → Type μ) (xs : List A)
    → All P xs
    → All Q xs
    → All (λ x. P x × Q x) xs
All-zip P Q [] _ _ = tt
All-zip P Q (x ∷ xs) (p, ps) (q, qs) = ((p, q), All-zip P Q xs ps qs)

module _ (c : ℕ) where
  pub find_split-Lacks : (s : Bytes) → Lacks c s → find_split c s ≡ none
  unfolding find_split
  find_split-Lacks [] h = refl
  find_split-Lacks (b ∷ s) h = ground (arith, find_split-Lacks s)

  pub find_split-append :
      (s rest : Bytes) → Lacks c s → find_split c (s ++ c ∷ rest) ≡ some (s, rest)
  unfolding find_split
  find_split-append [] rest h = ground arith
  find_split-append (b ∷ s) rest h = ground (arith, find_split-append s rest)

  pub split-Lacks : (s : Bytes) → Lacks c s → split c s ≡ s ∷ []
  unfolding split
  split-Lacks [] h = refl
  split-Lacks (b ∷ s) h = ground (arith, split-Lacks s)

  pub split-append : (s rest : Bytes) → Lacks c s → split c (s ++ c ∷ rest) ≡ s ∷ split c rest
  unfolding split
  split-append [] rest h = ground arith
  split-append (b ∷ s) rest h = ground (arith, split-append s rest)

  -- The parts are made of the bytes of the text.
  push_byte-All {κ} :
      (P : ℕ → Type κ) (b : ℕ) (ps : List Bytes)
      → P b
      → All (All P) ps
      → All (All P) (push_byte c b ps)
  unfolding push_byte
  push_byte-All P b [] hb h = ((hb, tt), tt)
  push_byte-All P b (p ∷ ps) hb h = ((hb, h.0), h.1)

  pub split-All {κ} : (P : ℕ → Type κ) (s : Bytes) → All P s → All (All P) (split c s)
  unfolding split
  split-All P [] h = (tt, tt)
  split-All P (b ∷ s) (hb, hs) = elim (Bool-cases (b == c)) [
    | inl e ↦ rw e (tt, split-All P s hs)
    | inr e ↦ rw e (push_byte-All P b (split c s) hb (split-All P s hs))
  ]

abbrev Both {κ} : (ℕ → Type κ) → Option (Bytes × Bytes) → Type κ
Both P none = Unit
Both P (some (p, q)) = All P p × All P q

Both-push {κ} :
    (P : ℕ → Type κ) (b : ℕ) (o : Option (Bytes × Bytes))
    → P b
    → Both P o
    → Both P (elim o [ none ↦ none | some (p, q) ↦ some (b ∷ p, q) ])
Both-push P b none hb h = tt
Both-push P b (some (p, q)) hb h = ((hb, h.0), h.1)

find_split-Both {κ} : (P : ℕ → Type κ) (c : ℕ) (s : Bytes) → All P s → Both P (find_split c s)
unfolding find_split
find_split-Both P c [] h = tt
find_split-Both P c (b ∷ s) (hb, hs) = elim (Bool-cases (b == c)) [
  | inl e ↦ rw e (tt, hs)
  | inr e ↦ rw e (Both-push P b (find_split c s) hb (find_split-Both P c s hs))
]

pub find_split-All {κ} :
    (P : ℕ → Type κ) (c : ℕ) (s p q : Bytes)
    → All P s
    → find_split c s ≡ some (p, q)
    → All P p × All P q
find_split-All P c s p q h e = rw e at (find_split-Both P c s h)
