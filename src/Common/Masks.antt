-- ===== src/Common/Masks.antt =====
-- A byte under a mask of no bits.
use Prim.Native.Nat.{ℕ, zero, suc, min, bit_and, digits, bit_and-bitwise, ◌/◌}
use mathlib.Core.Path.{◌≡◌, refl, ◌∙◌}
use native.Mathlib.Omega.{arith}

no_digits : (n a : ℕ) → digits (λ b. zero) min n a 0 ≡ 0
no_digits zero a = refl
no_digits (suc n) zero = refl
no_digits (suc n) (suc a) = omega (arith, no_digits n (suc a / 2))

pub bit_and-zero : (a : ℕ) → bit_and a 0 ≡ 0
bit_and-zero a = bit_and-bitwise a 0 ∙ no_digits a a
