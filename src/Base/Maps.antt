-- ===== src/Base/Maps.antt =====
-- Rust's `HashMap` as an association list over a key type with a decided equality.
use mathlib.Core.Path.{◌≡◌, refl, sym, subst}
use mathlib.Core.Logic.{◌↔◌}
use mathlib.Core.Bool.{Bool, true}
use mathlib.Core.List.{List, [], ◌∷◌}
use mathlib.Core.Option.{Option, none, some}
use native.Mathlib.Omega.{arith}
use libbtcwallet.Base.Lists.{All, IfSome}
use mathlib.Core.Logic.{inl, inr}
use libbtcwallet.Base.Tests.{Bool-cases, if◌then◌else◌}

-- Keys are compared by the `Eq` of their type.
pub record Key {ℓ} (K : Type ℓ) : Type ℓ where
  pub same : K → K → Bool
  pub same_iff : (a b : K) → (same a b ≡ true) ↔ (a ≡ b)

abbrev pub HashMap {ℓ κ} : Type ℓ → Type κ → Type (ℓ ⊔ κ)
HashMap K V = List (K × V)

module _ {ℓ κ} {K : Type ℓ} {V : Type κ} (key : Key K) where
  unfoldable pub get : HashMap K V → K → Option V
  get [] k = none
  get ((j, v) ∷ m) k = if key.same j k then some v else get m k

  -- `m.insert(k, v)`: the value of a present key is replaced.
  unfoldable pub put : HashMap K V → K → V → HashMap K V
  put [] k v = (k, v) ∷ []
  put ((j, w) ∷ m) k v = if key.same j k then (j, v) ∷ m else (j, w) ∷ put m k v

  pub get-put :
      (m : HashMap K V) (k j : K) (v : V)
      → get (put m k v) j ≡ (if key.same k j then some v else get m j)
  unfolding get put
  get-put [] k j v = refl
  get-put ((i, w) ∷ m) k j v =
      ground (arith, key.same_iff k j, key.same_iff i k, key.same_iff i j, get-put m k j v)

-- What holds of every entry, and of one that is looked up.
module _ {K V : Type 0} (key : Key K) (P : K × V → Type 0) where
  pub put-All : (m : HashMap K V) (k : K) (v : V) → P (k, v) → All P m → All P (put key m k v)
  unfolding put
  put-All [] k v h hs = (h, tt)
  put-All ((j, w) ∷ m) k v h (g, hs) = elim (Bool-cases (key.same j k)) [
    | inl e ↦ rw e (subst (λ i. P (i, v)) (sym ((key.same_iff j k).0 e)) h, hs)
    | inr e ↦ rw e (g, put-All m k v h hs)
  ]

  pub get-All : (m : HashMap K V) (k : K) → All P m → IfSome (λ v. P (k, v)) (get key m k)
  unfolding get
  get-All [] k hs = tt
  get-All ((j, w) ∷ m) k (g, hs) = elim (Bool-cases (key.same j k)) [
    | inl e ↦ rw e (subst (λ i. P (i, w)) ((key.same_iff j k).0 e) g)
    | inr e ↦ rw e (get-All m k hs)
  ]
