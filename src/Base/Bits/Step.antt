-- ===== src/Base/Bits/Step.antt =====
-- One equation for the lowest digit of the native bit operations, which mean a recursion on binary
-- digits with fuel.
use Prim.Native.Nat.{
  ℕ, zero, suc, ◌+◌, ◌*◌, ◌/◌, ◌%◌, ◌≤◌, ◌<◌, min, bit_xor, bit_and, digits, differ, bitwise,
  bit_xor-bitwise, bit_and-bitwise,
}
use mathlib.Core.Path.{◌≡◌, refl, ap}
use native.Mathlib.Omega.{arith}

module _ (ends : ℕ → ℕ) (op : ℕ → ℕ → ℕ) where
  -- More fuel than the first number makes no difference.
  digits-extra :
      (total fuel x y : ℕ)
      → fuel ≤ total
      → x ≤ fuel
      → digits ends op total x y ≡ digits ends op fuel x y
  digits-extra (suc total) (suc fuel) (suc x) y less enough =
      ap (λ rest. rest * 2 + op (suc x % 2) (y % 2))
        (digits-extra total fuel (suc x / 2) (y / 2) (omega arith) (omega arith))
  digits-extra (suc total) (suc fuel) zero y less enough = refl
  digits-extra (suc total) zero zero y less enough = refl
  digits-extra zero zero zero y less enough = refl
  digits-extra total zero (suc x) y less enough = absurd (omega arith)
  digits-extra zero (suc fuel) x y less enough = absurd (omega arith)

  -- The lowest digits, and the operation on the halves.
  pub lowest :
      (x y : ℕ)
      → bitwise ends op (suc x) y ≡ bitwise ends op (suc x / 2) (y / 2) * 2 + op (suc x % 2) (y % 2)
  lowest x y =
      ap (λ rest. rest * 2 + op (suc x % 2) (y % 2))
        (digits-extra x (suc x / 2) (suc x / 2) (y / 2) (omega arith) (omega arith))

differ_digits : (x y : ℕ) → x < 2 → y < 2 → differ x y ≡ (x + y) % 2
differ_digits zero y p q = omega arith
differ_digits (suc zero) zero p q = refl
differ_digits (suc zero) (suc zero) p q = refl
differ_digits (suc zero) (suc (suc y)) p q = absurd (omega arith)
differ_digits (suc (suc x)) y p q = absurd (omega arith)

differ-mod : (a b : ℕ) → differ (a % 2) (b % 2) ≡ (a + b) % 2
differ-mod a b = omega (arith, differ_digits (a % 2) (b % 2) (omega arith) (omega arith))

pub bit_xor-zero_left : (b : ℕ) → bit_xor 0 b ≡ b
bit_xor-zero_left b = simp bit_xor-bitwise refl

pub bit_xor_step : (x y : ℕ) → bit_xor x y ≡ bit_xor (x / 2) (y / 2) * 2 + (x + y) % 2
bit_xor_step zero y = omega (arith, bit_xor-zero_left y, bit_xor-zero_left (y / 2))
bit_xor_step (suc x) y =
    simp bit_xor-bitwise (omega (arith, lowest (λ d. d) differ x y, differ-mod (suc x) y))

pub bit_and_step : (x y : ℕ) → bit_and x y ≡ bit_and (x / 2) (y / 2) * 2 + min (x % 2) (y % 2)
bit_and_step zero y = simp bit_and-bitwise (omega arith)
bit_and_step (suc x) y = simp bit_and-bitwise (lowest (λ d. 0) min x y)
