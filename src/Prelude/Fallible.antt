-- ===== src/Prelude/Fallible.antt =====
-- A call that returns, or that panics (`panic!`, `assert!`, `unwrap`, `unreachable!`,
-- `unimplemented!`, an index or a subtraction out of range); and `Result`.
use mathlib.Core.Path.{◌≡◌, refl}
use mathlib.Core.Bool.{Bool, true, false}
use mathlib.Core.Option.{Option, none, some}

pub data Outcome {ℓ} (A : Type ℓ) : Type ℓ where
  ret : A → Outcome A
  panic : Outcome A

infixl 5 ◌>>=◌ ◌>>◌
abbrev pub ◌>>=◌ {ℓ κ} : {A : Type ℓ} {B : Type κ} → Outcome A → (A → Outcome B) → Outcome B
ret a >>= f = f a
panic >>= f = panic

abbrev pub ◌>>◌ {ℓ} : {B : Type ℓ} → Outcome (Unit {0}) → Outcome B → Outcome B
m >> k = m >>= λ _. k

-- `assert!`
abbrev pub assert : Bool → Outcome (Unit {0})
assert true = ret tt
assert false = panic

-- `Option::unwrap`
abbrev pub unwrap {ℓ} : {A : Type ℓ} → Option A → Outcome A
unwrap none = panic
unwrap (some a) = ret a

pub data Result {ℓ κ} (A : Type ℓ) (E : Type κ) : Type (ℓ ⊔ κ) where
  ok : A → Result A E
  err : E → Result A E

-- `Result::unwrap`
abbrev pub unwrap_ok {ℓ κ} : {A : Type ℓ} {E : Type κ} → Result A E → Outcome A
unwrap_ok (ok a) = ret a
unwrap_ok (err _) = panic

pub >>=-eq-ret {ℓ κ} :
    {A : Type ℓ} {B : Type κ} (m : Outcome A) (f : A → Outcome B) {b : B}
    → (m >>= f) ≡ ret b
    → (a : A) × (m ≡ ret a) × (f a ≡ ret b)
>>=-eq-ret (ret a) f h = (a, refl, h)
>>=-eq-ret panic f h = cc

pub ret_injective {ℓ} : {A : Type ℓ} {a b : A} → ret a ≡ ret b → a ≡ b
ret_injective e = cc

-- What holds of the result of a call, if it returns.
pub data Always {ℓ κ} {A : Type ℓ} (P : A → Type κ) : Outcome A → Type (ℓ ⊔ κ) where
  panics : Always P panic
  returns : {a : A} → P a → Always P (ret a)

pub Always->>= {ℓ κ μ} :
    {A : Type ℓ} {B : Type κ} {P : B → Type μ} (o : Outcome A) (f : A → Outcome B)
    → ((a : A) → Always P (f a))
    → Always P (o >>= f)
Always->>= (ret a) f h = h a
Always->>= panic f h = Always.panics

pub Always-ret {ℓ κ} :
    {A : Type ℓ} {P : A → Type κ} {o : Outcome A} {a : A} → Always P o → o ≡ ret a → P a
Always-ret (Always.returns h) e = rw (← (ret_injective e)) h
Always-ret Always.panics e = absurd (cc)

pub Always-map {ℓ κ μ} :
    {A : Type ℓ} {P : A → Type κ} {Q : A → Type μ} {o : Outcome A}
    → ((a : A) → P a → Q a)
    → Always P o
    → Always Q o
Always-map f (Always.returns h) = Always.returns (f _ h)
Always-map f Always.panics = Always.panics

pub Always-bind {ℓ κ μ ν} :
    {A : Type ℓ} {B : Type κ} {Q : A → Type μ} {P : B → Type ν} {o : Outcome A} (f : A → Outcome B)
    → Always Q o
    → ((a : A) → Q a → Always P (f a))
    → Always P (o >>= f)
Always-bind f (Always.returns q) h = h _ q
Always-bind f Always.panics h = Always.panics
