-- ===== src/Base/Post.antt =====
-- What holds of the value that an outcome carries, with one rule for a bind, and the outcomes that are
-- no panic, or that return.
use mathlib.Core.Path.{◌≡◌, refl, subst}
use mathlib.Core.Logic.{◌≢◌}
use mathlib.Core.Bool.{Bool, true, false}
use mathlib.Core.Option.{Option, none, some}
use libbtcwallet.Base.Tests.{if◌then◌else◌}
use libbtcwallet.Base.Outcomes.{
  Result, ok, err, Outcome, done, fail, panic, ◌>>=◌, map_err, ok_or, reject_if, if_ok, if_some,
}

pub data Ensures {ℓ κ μ} {E : Type ℓ} {A : Type κ} (P : A → Type μ)
    : Outcome E A → Type (ℓ ⊔ κ ⊔ μ) where
  on_done : {a : A} → P a → Ensures P (done a)
  on_fail : {e : E} → Ensures P (fail e)
  on_panic : Ensures P panic

-- The outcome is no panic.
pub data NoPanic {ℓ κ} {E : Type ℓ} {A : Type κ} : Outcome E A → Type (ℓ ⊔ κ) where
  no_panic_done : {a : A} → NoPanic (done a)
  no_panic_fail : {e : E} → NoPanic (fail e)

module _ {ℓ κ μ} {E : Type ℓ} {A : Type κ} where
  abbrev AtDone : (A → Type μ) → Outcome E A → Type μ
  AtDone P (done a) = P a
  AtDone P (fail e) = Unit
  AtDone P panic = Unit

  at_done : {P : A → Type μ} {o : Outcome E A} → Ensures P o → AtDone P o
  at_done (on_done h) = h
  at_done on_fail = tt
  at_done on_panic = tt

  pub Ensures-at : {P : A → Type μ} {o : Outcome E A} {a : A} → Ensures P o → o ≡ done a → P a
  Ensures-at {P = P} h e = subst (AtDone P) e (at_done h)

module _ {ℓ κ μ} {E : Type ℓ} {A : Type κ} {B : Type μ} where
  pub Ensures-bind {ν} :
      {P : B → Type ν} (m : Outcome E A) (f : A → Outcome E B)
      → ((a : A) → m ≡ done a → Ensures P (f a))
      → Ensures P (m >>= f)
  unfolding ◌>>=◌
  Ensures-bind (done a) f h = h a refl
  Ensures-bind (fail e) f h = on_fail
  Ensures-bind panic f h = on_panic

  pub NoPanic-bind :
      {m : Outcome E A} {f : A → Outcome E B}
      → NoPanic m
      → ((a : A) → m ≡ done a → NoPanic (f a))
      → NoPanic (m >>= f)
  unfolding ◌>>=◌
  NoPanic-bind (no_panic_done {a = a}) h = h a refl
  NoPanic-bind no_panic_fail h = no_panic_fail

module _ {ℓ κ} {E : Type ℓ} {A : Type κ} where
  pub NoPanic-if :
      (b : Bool) {m n : Outcome E A}
      → (b ≡ true → NoPanic m)
      → (b ≡ false → NoPanic n)
      → NoPanic (if b then m else n)
  NoPanic-if true h k = h refl
  NoPanic-if false h k = k refl

  pub Ensures-if {μ} :
      {P : A → Type μ} (b : Bool) {m n : Outcome E A}
      → Ensures P m
      → Ensures P n
      → Ensures P (if b then m else n)
  Ensures-if true h k = h
  Ensures-if false h k = k

  pub Ensures-map {μ ν} :
      {P : A → Type μ} {Q : A → Type ν} {o : Outcome E A}
      → ((a : A) → P a → Q a)
      → Ensures P o
      → Ensures Q o
  Ensures-map f (on_done h) = on_done (f _ h)
  Ensures-map f on_fail = on_fail
  Ensures-map f on_panic = on_panic

  -- The same, where the branches need the test.
  pub Ensures-branch {μ} :
      {P : A → Type μ} (b : Bool) {m n : Outcome E A}
      → (b ≡ true → Ensures P m)
      → (b ≡ false → Ensures P n)
      → Ensures P (if b then m else n)
  Ensures-branch true h k = h refl
  Ensures-branch false h k = k refl

  pub NoPanic-ok_or : (e : E) (o : Option A) → NoPanic (ok_or e o)
  NoPanic-ok_or e none = no_panic_fail
  NoPanic-ok_or e (some a) = no_panic_done

  pub NoPanic-map_err {μ} : {F : Type μ} (f : F → E) (r : Result F A) → NoPanic (map_err f r)
  NoPanic-map_err f (ok a) = no_panic_done
  NoPanic-map_err f (err e) = no_panic_fail

  pub NoPanic-ne : {o : Outcome E A} → NoPanic o → o ≢ panic
  NoPanic-ne no_panic_done h = cc
  NoPanic-ne no_panic_fail h = cc

pub NoPanic-reject_if {ℓ} : {E : Type ℓ} (b : Bool) (e : E) → NoPanic (reject_if b e)
NoPanic-reject_if true e = no_panic_fail
NoPanic-reject_if false e = no_panic_done

module _ {ℓ κ μ} {E : Type ℓ} {A : Type κ} {F : Type μ} where
  pub Ensures-if_ok {ν ξ} :
      {B : Type ν} {P : A → Type ξ} (r : Result F B) (f : B → Outcome E A) (e : Outcome E A)
      → ((b : B) → r ≡ ok b → Ensures P (f b))
      → Ensures P e
      → Ensures P (if_ok r f e)
  unfolding if_ok
  Ensures-if_ok (ok b) f e h k = h b refl
  Ensures-if_ok (err _) f e h k = k

  pub NoPanic-if_ok {ν} :
      {B : Type ν} (r : Result F B) (f : B → Outcome E A) (e : Outcome E A)
      → ((b : B) → NoPanic (f b))
      → NoPanic e
      → NoPanic (if_ok r f e)
  unfolding if_ok
  NoPanic-if_ok (ok b) f e h k = h b
  NoPanic-if_ok (err _) f e h k = k

pub Ensures-if_some {ℓ κ ν ξ} :
    {E : Type ℓ} {A : Type κ} {B : Type ν} {P : A → Type ξ} (o : Option B) (f : B → Outcome E A)
    (e : Outcome E A)
    → ((b : B) → o ≡ some b → Ensures P (f b))
    → Ensures P e
    → Ensures P (if_some o f e)
unfolding if_some
Ensures-if_some (some b) f e h k = h b refl
Ensures-if_some none f e h k = k

pub NoPanic-if_some {ℓ κ ν} :
    {E : Type ℓ} {A : Type κ} {B : Type ν} (o : Option B) (f : B → Outcome E A) (e : Outcome E A)
    → ((b : B) → NoPanic (f b))
    → NoPanic e
    → NoPanic (if_some o f e)
unfolding if_some
NoPanic-if_some (some b) f e h k = h b
NoPanic-if_some none f e h k = k

pub done-injective {ℓ κ} :
    {E : Type ℓ} {A : Type κ} (a b : A) → ◌≡◌ {A = Outcome E A} (done a) (done b) → a ≡ b
done-injective a b h = cc

-- The code returns, and what it returns has the property.
pub data Returns {ℓ κ μ} {E : Type ℓ} {A : Type κ} (P : A → Type μ)
    : Outcome E A → Type (ℓ ⊔ κ ⊔ μ) where
  returns : {a : A} → P a → Returns P (done a)

pub Returns-bind {ℓ κ μ ν ξ} :
    {E : Type ℓ} {A : Type κ} {B : Type μ} {Q : A → Type ν} {P : B → Type ξ} {m : Outcome E A}
    {f : A → Outcome E B}
    → Returns Q m
    → ((a : A) → Q a → Returns P (f a))
    → Returns P (m >>= f)
unfolding ◌>>=◌
Returns-bind (returns {a = a} q) h = h a q

-- Code behind a guard, a fallible call and a second guard on its result.
pub Returns-guarded {ℓ κ μ ν ξ} :
    {E : Type ℓ} {A : Type κ} {F : Type μ} {B : Type ν} {P : A → Type ξ} (b : Bool) (r : Result F B)
    (c : B → Bool) {m : B → Outcome E A} {n o : Outcome E A}
    → ((v : B) → b ≡ true → r ≡ ok v → c v ≡ true → Returns P (m v))
    → Returns P n
    → Returns P o
    → Returns P (if b then if_ok r (λ v. if c v then m v else n) n else o)
unfolding if_ok
Returns-guarded {P = P} true (ok v) c {m = m} {n = n} h k l = cut (c v) (h v refl refl)
  where
    cut : (d : Bool) → (d ≡ true → Returns P (m v)) → Returns P (if d then m v else n)
    cut true g = g refl
    cut false g = k
Returns-guarded true (err _) c h k l = k
Returns-guarded false r c h k l = l

pub Returns-either {ℓ κ μ} :
    {E : Type ℓ} {A : Type κ} {P : A → Type μ} (b : Bool) {m n : Outcome E A}
    → Returns P m
    → Returns P n
    → Returns P (if b then m else n)
Returns-either true h k = h
Returns-either false h k = k

pub Returns-map {ℓ κ μ ν} :
    {E : Type ℓ} {A : Type κ} {P : A → Type μ} {Q : A → Type ν} {m : Outcome E A}
    → ((a : A) → P a → Q a)
    → Returns P m
    → Returns Q m
Returns-map f (returns {a = a} h) = returns (f a h)

-- What the code returned has the property.
pub Returns-at {ℓ κ μ} :
    {E : Type ℓ} {A : Type κ} {P : A → Type μ} {o : Outcome E A} {a : A}
    → Returns P o
    → o ≡ done a
    → P a
Returns-at {P = P} (returns h) e = subst P (done-injective _ _ e) h
