-- ===== src/Common/Check.antt =====
-- A run of checks inside `try`: it passes with a value, returns a rejection early, or throws.
use Prim.Native.String.{String}
use mathlib.Core.Path.{◌≡◌, refl}
use mathlib.Core.Logic.{◌⊎◌, inl, inr}
use mathlib.Core.Bool.{Bool, true, false}
use mathlib.Core.Option.{Option, none, some}
use native.Mathlib.Omega.{arith}

-- A rejection has its reason code, and the payer if the response names one.
pub data Check {ℓ} (A : Type ℓ) : Type ℓ where
  pass : A → Check A
  reject : String → Option String → Check A
  throws : Check A

infixl 5 ◌>>=◌ ◌>>◌
abbrev pub ◌>>=◌ {ℓ κ} : {A : Type ℓ} {B : Type κ} → Check A → (A → Check B) → Check B
pass a >>= f = f a
reject reason payer >>= f = reject reason payer
throws >>= f = throws

abbrev pub ◌>>◌ {ℓ} : {B : Type ℓ} → Check (Unit {0}) → Check B → Check B
m >> k = m >>= λ _. k

-- `if (test) return { … reason, payer }`
unfoldable pub refuse_if : Bool → String → Option String → Check (Unit {0})
refuse_if true reason payer = reject reason payer
refuse_if false reason payer = pass tt

-- A call that throws where it has no value.
unfoldable pub attempt {ℓ} : {A : Type ℓ} → Option A → Check A
attempt none = throws
attempt (some a) = pass a

pub >>=-eq-pass {ℓ κ} :
    {A : Type ℓ} {B : Type κ} (m : Check A) (f : A → Check B) {b : B}
    → (m >>= f) ≡ pass b
    → (a : A) × (m ≡ pass a) × (f a ≡ pass b)
>>=-eq-pass (pass a) f h = (a, refl, h)
>>=-eq-pass (reject reason payer) f h = cc
>>=-eq-pass throws f h = cc

pub refuse-eq-pass {ℓ} :
    {B : Type ℓ} (test : Bool) (reason : String) (payer : Option String) (f : Unit {0} → Check B)
    {b : B}
    → (refuse_if test reason payer >>= f) ≡ pass b
    → (test ≡ false) × (f tt ≡ pass b)
unfolding refuse_if
refuse-eq-pass true reason payer f h = absurd (ground arith)
refuse-eq-pass false reason payer f h = (refl, h)

pub refuse_if-eq-pass :
    (test : Bool) (reason : String) (payer : Option String) {u : Unit {0}}
    → refuse_if test reason payer ≡ pass u
    → test ≡ false
unfolding refuse_if
refuse_if-eq-pass true reason payer h = absurd (ground arith)
refuse_if-eq-pass false reason payer h = refl

pub attempt-eq-pass {ℓ κ} :
    {A : Type ℓ} {B : Type κ} (o : Option A) (f : A → Check B) {b : B}
    → (attempt o >>= f) ≡ pass b
    → (a : A) × (o ≡ some a) × (f a ≡ pass b)
unfolding attempt
attempt-eq-pass none f h = absurd (ground arith)
attempt-eq-pass (some a) f h = (a, refl, h)

pub Check-cases {ℓ} :
    {A : Type ℓ} (m : Check A)
    → ((a : A) × (m ≡ pass a))
      ⊎ (((reason : String) × (payer : Option String) × (m ≡ reject reason payer)) ⊎ (m ≡ throws))
Check-cases (pass a) = inl (a, refl)
Check-cases (reject reason payer) = inr (inl (reason, payer, refl))
Check-cases throws = inr (inr refl)
