-- ===== src/Base/Outcomes.antt =====
-- Rust's `Result`, and the outcome of code that may also panic. Actions of `Outcome` are chained by
-- `do` blocks, which stand for `?` and early `return`.
use mathlib.Core.Path.{◌≡◌, refl}
use mathlib.Core.Bool.{Bool, true, false}
use mathlib.Core.Option.{Option, none, some}

pub data Result {ℓ κ} (E : Type ℓ) (A : Type κ) : Type (ℓ ⊔ κ) where
  ok : A → Result E A
  err : E → Result E A

pub data Outcome {ℓ κ} (E : Type ℓ) (A : Type κ) : Type (ℓ ⊔ κ) where
  done : A → Outcome E A
  fail : E → Outcome E A
  panic : Outcome E A

infixl 5 ◌>>=◌ ◌>>◌
unfoldable pub ◌>>=◌ {ℓ κ μ} :
    {E : Type ℓ} {A : Type κ} {B : Type μ} → Outcome E A → (A → Outcome E B) → Outcome E B
done a >>= f = f a
fail e >>= f = fail e
panic >>= f = panic

abbrev pub ◌>>◌ {ℓ μ} : {E : Type ℓ} {B : Type μ} → Outcome E (Unit {0}) → Outcome E B → Outcome E B
m >> k = m >>= λ _. k

-- `r.map_err(f)?`
abbrev pub map_err {ℓ κ μ} :
    {E : Type ℓ} {A : Type κ} {F : Type μ} → (E → F) → Result E A → Outcome F A
map_err f (ok a) = done a
map_err f (err e) = fail (f e)

-- `o.ok_or(e)?`
abbrev pub ok_or {ℓ κ} : {E : Type ℓ} {A : Type κ} → E → Option A → Outcome E A
ok_or e none = fail e
ok_or e (some a) = done a

-- `if b { return Err(e); }`
abbrev pub reject_if {ℓ} : {E : Type ℓ} → Bool → E → Outcome E (Unit {0})
reject_if true e = fail e
reject_if false e = done tt

-- Inversion of a successful bind, for proofs where the parts stay shut.
pub >>=-eq-done {ℓ κ μ} :
    {E : Type ℓ} {A : Type κ} {B : Type μ} (m : Outcome E A) (f : A → Outcome E B) {b : B}
    → (m >>= f) ≡ done b
    → (a : A) × (m ≡ done a) × (f a ≡ done b)
unfolding ◌>>=◌
>>=-eq-done (done a) f h = (a, refl, h)
>>=-eq-done (fail e) f h = cc
>>=-eq-done panic f h = cc

-- `if let Ok(a) = r { f(a) } else { e }`, and the same for an `Option`.
unfoldable pub if_ok {ℓ κ μ} : {E : Type ℓ} {A : Type κ} {B : Type μ} → Result E A → (A → B) → B → B
if_ok (ok a) f e = f a
if_ok (err _) f e = e

unfoldable pub if_some {ℓ μ} : {A : Type ℓ} {B : Type μ} → Option A → (A → B) → B → B
if_some (some a) f e = f a
if_some none f e = e

abbrev pub is_ok {ℓ κ} : {E : Type ℓ} {A : Type κ} → Result E A → Bool
is_ok (ok a) = true
is_ok (err e) = false
