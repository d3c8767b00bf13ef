-- ===== src/Base/Keyed.antt =====
-- A map whose keys differ has each of its entries under its key.
use mathlib.Core.Path.{◌≡◌, refl, ◌∙◌}
use mathlib.Core.Logic.{◌⊎◌, inl, inr}
use mathlib.Core.Bool.{true, false}
use mathlib.Core.List.{[], ◌∷◌}
use mathlib.Core.Option.{none, some}
use native.Mathlib.Omega.{arith}
use libbtcwallet.Base.Lists.{All}
use libbtcwallet.Base.Splits.{All-map}
use libbtcwallet.Base.Tests.{Bool-cases, if◌then◌else◌}
use libbtcwallet.Base.Maps.{Key, HashMap, get, put, get-put}

module _ {K V : Type 0} (key : Key K) where
  abbrev pub IsKeyed : HashMap K V → Type 0
  IsKeyed [] = Unit
  IsKeyed ((j, v) ∷ m) = (get key m j ≡ none) × IsKeyed m

  pub put-IsKeyed : (m : HashMap K V) (k : K) (v : V) → IsKeyed m → IsKeyed (put key m k v)
  unfolding get put
  put-IsKeyed [] k v h = (refl, tt)
  put-IsKeyed ((j, w) ∷ m) k v (new, h) = elim (Bool-cases (key.same j k)) [
    | inl e ↦ rw e (new, h)
    | inr e ↦
        let other : key.same k j ≡ false = ground (arith, key.same_iff j k, key.same_iff k j, e) in
        rw e (get-put key m k j v ∙ rw other new, put-IsKeyed m k v h)
  ]

  pub entries-get : (m : HashMap K V) → IsKeyed m → All (λ e. get key m e.0 ≡ some e.1) m
  unfolding get
  entries-get [] h = tt
  entries-get ((j, w) ∷ m) (new, h) = (
    rw ((key.same_iff j j).1 refl) refl,
    All-map (λ e f. kept e f (Bool-cases (key.same j e.0))) m (entries-get m h),
  )
    where
      kept :
          (e : K × V)
          → get key m e.0 ≡ some e.1
          → (key.same j e.0 ≡ true) ⊎ (key.same j e.0 ≡ false)
          → (if key.same j e.0 then some w else get key m e.0) ≡ some e.1
      kept (i, u) f (inl s) =
          let none_there : get key m i ≡ none = rw (← (key.same_iff j i).0 s) new in cc
      kept (i, u) f (inr s) = rw s f
