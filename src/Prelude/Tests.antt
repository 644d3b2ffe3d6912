-- ===== src/Prelude/Tests.antt =====
-- Boolean tests, the conditional, equality as an interface, and Python's `or` on optional values.
use Prim.Native.Nat.{ℕ, compare, Ordering}
use mathlib.Core.Path.{◌≡◌, refl}
use mathlib.Core.Logic.{◌↔◌, ◌⊎◌, inl, inr}
use mathlib.Core.Bool.{Bool, true, false}
use mathlib.Core.Option.{Option, none, some}
use native.Mathlib.Omega.{arith}

abbrev pub ltb : ℕ → ℕ → Bool
ltb a b = elim (compare a b) [ Ordering.lt ↦ true | _ ↦ false ]

abbrev pub leb : ℕ → ℕ → Bool
leb a b = elim (compare a b) [ Ordering.gt ↦ false | _ ↦ true ]

abbrev pub nat_beq : ℕ → ℕ → Bool
nat_beq a b = elim (compare a b) [ Ordering.eq ↦ true | _ ↦ false ]

pub nat_beq_iff : (a b : ℕ) → (nat_beq a b ≡ true) ↔ (a ≡ b)
nat_beq_iff a b = ground arith

infix 1 if◌then◌else◌
abbrev pub if◌then◌else◌ {ℓ} : {A : Type ℓ} → Bool → A → A → A
if true then x else y = x
if false then x else y = y

-- A class with the source's `==`, which is decided by its values.
pub record Eq {ℓ} (Value : Type ℓ) : Type ℓ where
  pub equal : Value → Value → Bool
  pub equal_iff : (x y : Value) → (equal x y ≡ true) ↔ (x ≡ y)

abbrev pub ◌==◌ {ℓ} : {V : Type ℓ} ⦃by_value : Eq V⦄ → V → V → Bool
◌==◌ ⦃by_value⦄ x y = by_value.equal x y

infix 50 ◌==◌
instance abbrev pub nat_eq : Eq ℕ
nat_eq = record { equal = nat_beq; equal_iff = nat_beq_iff }

-- `x or y` where `x` is `None` or an object.
infixr 30 ◌or_else◌
abbrev pub ◌or_else◌ {ℓ} : {A : Type ℓ} → Option A → Option A → Option A
none or_else y = y
some x or_else y = some x

-- To split on a computed value and keep the equation.
pub Bool-cases : (b : Bool) → (b ≡ true) ⊎ (b ≡ false)
Bool-cases true = inl refl
Bool-cases false = inr refl

pub Option-cases {ℓ} : {A : Type ℓ} (o : Option A) → (o ≡ none) ⊎ ((a : A) × (o ≡ some a))
Option-cases none = inl refl
Option-cases (some a) = inr (a, refl)

-- A value or an error, as a Python call that returns or raises.
pub data Result {ℓ κ} (E : Type ℓ) (A : Type κ) : Type (ℓ ⊔ κ) where
  ok : A → Result E A
  err : E → Result E A

infixl 5 ◌>>=◌ ◌>>◌
abbrev pub ◌>>=◌ {ℓ κ μ} :
    {E : Type ℓ} {A : Type κ} {B : Type μ} → Result E A → (A → Result E B) → Result E B
ok a >>= f = f a
err e >>= f = err e

abbrev pub ◌>>◌ {ℓ μ} : {E : Type ℓ} {B : Type μ} → Result E (Unit {0}) → Result E B → Result E B
m >> k = m >>= λ _. k

-- `if not test: raise e`.
abbrev pub guard {ℓ} : {E : Type ℓ} → Bool → E → Result E (Unit {0})
guard true e = ok tt
guard false e = err e

-- A call that returns, followed by a computation that cannot raise.
pub answers {ℓ κ μ} :
    {E : Type ℓ} {A : Type κ} {B : Type μ} (m : Result E A) {a : A} (f : A → B)
    → m ≡ ok a
    → (b : B) × ((m >>= (λ t. ok (f t))) ≡ ok b)
answers m {a} f h = (f a, rw h refl)

pub bind_ok {ℓ κ μ} :
    {E : Type ℓ} {A : Type κ} {B : Type μ} (m : Result E A) {a : A} (f : A → B)
    → m ≡ ok a
    → (m >>= (λ t. ok (f t))) ≡ ok (f a)
bind_ok m f h = rw h refl

-- The test that a result is not an error, and what it came to.
abbrev pub returns {ℓ κ} : {E : Type ℓ} {A : Type κ} → Result E A → Bool
returns (err e) = false
returns (ok a) = true

pub returned {ℓ κ} :
    {E : Type ℓ} {A : Type κ} (m : Result E A) → returns m ≡ true → (a : A) × (m ≡ ok a)
returned (err e) h = cc
returned (ok a) h = (a, refl)
