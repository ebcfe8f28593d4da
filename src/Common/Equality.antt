-- ===== src/Common/Equality.antt =====
-- JavaScript's `===` on numbers and on strings, as one operator, and truthiness of strings.
use Prim.Native.Nat.{ℕ}
use Prim.Native.String.{String}
use mathlib.Core.Path.{◌≡◌, refl, subst}
use mathlib.Core.Logic.{◌↔◌}
use mathlib.Core.Bool.{Bool, true, false, not}
use mathlib.Core.Option.{Option, none, some}
use text.Mathlib.Text.{◌==◌ as str_eq}
use text.Mathlib.TextEquality.{eq_iff}
use stellar_facilitator.Common.Tests.{eqb, eqb_iff}

-- A test of equality that is sound and finds every value equal to itself.
pub record Eq {ℓ} (A : Type ℓ) : Type ℓ where
  pub same : A → A → Bool
  pub sound : (a b : A) → same a b ≡ true → a ≡ b
  pub reflexive : (a : A) → same a a ≡ true

instance abbrev pub string_eq : Eq String
string_eq = record {
  same = λ s t. str_eq s t;
  sound = λ s t h. (eq_iff s t).0 h;
  reflexive = λ s. (eq_iff s s).1 refl;
}

-- `Boolean(s)`: only the empty string is falsy.
abbrev pub truthy : String → Bool
truthy s = not (str_eq s "")

instance abbrev pub nat_eq : Eq ℕ
nat_eq = record {
  same = λ m n. eqb m n;
  sound = λ m n h. (eqb_iff m n).0 h;
  reflexive = λ n. (eqb_iff n n).1 refl;
}

module _ {ℓ} {A : Type ℓ} ⦃test : Eq A⦄ where
  infix 50 ◌==◌
  abbrev pub ◌==◌ : A → A → Bool
  a == b = test.same a b

  -- `o === s`, false on `undefined`.
  abbrev pub opt_is : Option A → A → Bool
  opt_is none a = false
  opt_is (some b) a = b == a

  pub ==_refl : (a : A) → (a == a) ≡ true
  ==_refl a = test.reflexive a

  pub ==_iff : (a b : A) → ((a == b) ≡ true) ↔ (a ≡ b)
  ==_iff a b = (λ h. test.sound a b h, λ p. subst (λ c. (a == c) ≡ true) p (test.reflexive a))
