-- ===== src/Prelude/Result.antt =====
-- What a Go function that may fail returns: its result, an error, or a panic in place of either.
use Prim.Native.String.{String}
use mathlib.Core.Path.{◌≡◌, refl, ap}
use mathlib.Core.Bool.{Bool, true, false}
use gsky.Prelude.Tests.{if◌then◌else◌}
use mathlib.Core.Logic.{◌⊎◌, inl, inr}
use mathlib.Core.Option.{Option, none, some}

pub data Result {ℓ} (A : Type ℓ) : Type ℓ where
  ok : A → Result A
  err : String → Result A
  panic : Result A

infixl 5 ◌>>=◌
abbrev pub ◌>>=◌ {ℓ κ} : {A : Type ℓ} {B : Type κ} → Result A → (A → Result B) → Result B
ok a >>= f = f a
err e >>= f = err e
panic >>= f = panic

-- A step whose only failure is a panic.
abbrev pub or_panic {ℓ} : {A : Type ℓ} → Option A → Result A
or_panic none = panic
or_panic (some a) = ok a

-- To split on a computed result and keep the equation.
pub Result-cases {ℓ} :
    {A : Type ℓ} (r : Result A)
    → ((a : A) × (r ≡ ok a)) ⊎ ((e : String) × (r ≡ err e)) ⊎ (r ≡ panic)
Result-cases (ok a) = inl (a, refl)
Result-cases (err e) = inr (inl (e, refl))
Result-cases panic = inr (inr refl)

-- A chain that ends well: its first step did, and so did the rest.
pub >>=-eq-ok {ℓ κ} :
    {A : Type ℓ} {B : Type κ} (r : Result A) (f : A → Result B) {b : B}
    → (r >>= f) ≡ ok b
    → (a : A) × (r ≡ ok a) × (f a ≡ ok b)
>>=-eq-ok (ok a) f h = (a, refl, h)
>>=-eq-ok (err e) f h = cc
>>=-eq-ok panic f h = cc

value_or {ℓ} : {A : Type ℓ} → A → Result A → A
value_or a (ok b) = b
value_or a _ = a

pub ok-injective {ℓ} : {A : Type ℓ} (a b : A) → ok a ≡ ok b → a ≡ b
unfolding value_or
ok-injective a b h = ap (value_or a) h

-- Only the branch that is no error ends well.
pub else-ok {ℓ} :
    {A : Type ℓ} (test : Bool) (e : String) (m : Result A) (a : A)
    → (if test then err e else m) ≡ ok a
    → (test ≡ false) × (m ≡ ok a)
else-ok true e m a h = absurd (cc)
else-ok false e m a h = (refl, h)

pub then-ok {ℓ} :
    {A : Type ℓ} (test : Bool) (e : String) (m : Result A) (a : A)
    → (if test then m else err e) ≡ ok a
    → (test ≡ true) × (m ≡ ok a)
then-ok true e m a h = (refl, h)
then-ok false e m a h = absurd (cc)
