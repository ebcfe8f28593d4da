-- ===== src/Common/Int.antt =====
-- JavaScript's `bigint`, as far as the program compares it, and `number`s that may be NaN.
use Prim.Native.Nat.{ℕ, suc, ◌+◌, ◌-◌, ◌≤◌}
use mathlib.Core.Path.{◌≡◌, refl}
use mathlib.Core.Logic.{◌↔◌}
use mathlib.Core.Bool.{Bool, true, false}
use mathlib.Core.Option.{Option, none, some}
use native.Mathlib.Omega.{arith}
use stellar_facilitator.Common.Tests.{ltb, eqb, if◌then◌else◌}

-- `negsuc n` is -(n + 1).
pub data ℤ : Type 0 where
  pos : ℕ → ℤ
  negsuc : ℕ → ℤ

abbrev pub ltb_ℤ : ℤ → ℤ → Bool
ltb_ℤ (pos a) (pos b) = ltb a b
ltb_ℤ (pos a) (negsuc b) = false
ltb_ℤ (negsuc a) (pos b) = true
ltb_ℤ (negsuc a) (negsuc b) = ltb b a

abbrev pub eqb_ℤ : ℤ → ℤ → Bool
eqb_ℤ (pos a) (pos b) = eqb a b
eqb_ℤ (pos a) (negsuc b) = false
eqb_ℤ (negsuc a) (pos b) = false
eqb_ℤ (negsuc a) (negsuc b) = eqb a b

-- `0 ≤ a ≤ b`
abbrev pub Within : ℤ → ℤ → Type 0
Within (pos a) (pos b) = a ≤ b
Within _ _ = ⊥

pub eqb_ℤ-sound : (a b : ℤ) → eqb_ℤ a b ≡ true → a ≡ b
eqb_ℤ-sound (pos a) (pos b) h = ground arith
eqb_ℤ-sound (negsuc a) (negsuc b) h = ground arith
eqb_ℤ-sound (pos a) (negsuc b) h = cc
eqb_ℤ-sound (negsuc a) (pos b) h = cc

pub eqb_ℤ_refl : (a : ℤ) → eqb_ℤ a a ≡ true
eqb_ℤ_refl (pos a) = ground arith
eqb_ℤ_refl (negsuc a) = ground arith

pub Within-of_tests : (a b : ℤ) → ltb_ℤ a (pos 0) ≡ false → ltb_ℤ b a ≡ false → Within a b
Within-of_tests (pos a) (pos b) h k = ground arith
Within-of_tests (pos a) (negsuc b) h k = cc
Within-of_tests (negsuc a) _ h k = cc

abbrev pub add_ℤ : ℤ → ℕ → ℤ
add_ℤ (pos a) k = pos (a + k)
add_ℤ (negsuc a) k = if ltb a k then pos (k - suc a) else negsuc (a - k)

abbrev pub Le_ℤ : ℤ → ℤ → Type 0
Le_ℤ (pos a) (pos b) = a ≤ b
Le_ℤ (pos a) (negsuc b) = ⊥
Le_ℤ (negsuc a) (pos b) = Unit
Le_ℤ (negsuc a) (negsuc b) = b ≤ a

ltb_ℤ_iff : (a b : ℤ) → (ltb_ℤ b a ≡ false) ↔ Le_ℤ a b
ltb_ℤ_iff (pos a) (pos b) = ground arith
ltb_ℤ_iff (pos a) (negsuc b) = (λ h. cc, λ h. absurd h)
ltb_ℤ_iff (negsuc a) (pos b) = (λ _. tt, λ _. refl)
ltb_ℤ_iff (negsuc a) (negsuc b) = ground arith

-- `a > b` on integers, where `none` is NaN: every comparison with NaN is false.
abbrev pub gtb_number : Option ℤ → Option ℤ → Bool
gtb_number none b = false
gtb_number (some a) none = false
gtb_number (some a) (some b) = ltb_ℤ b a

abbrev pub add_number : Option ℤ → ℕ → Option ℤ
add_number none k = none
add_number (some a) k = some (add_ℤ a k)

-- `a` is at most `b`, or one of them is NaN.
abbrev pub AtMost : Option ℤ → Option ℤ → Type 0
AtMost none b = Unit
AtMost (some a) none = Unit
AtMost (some a) (some b) = Le_ℤ a b

pub gtb_number_iff : (a b : Option ℤ) → (gtb_number a b ≡ false) ↔ AtMost a b
gtb_number_iff none b = (λ _. tt, λ _. refl)
gtb_number_iff (some a) none = (λ _. tt, λ _. refl)
gtb_number_iff (some a) (some b) = ltb_ℤ_iff a b
