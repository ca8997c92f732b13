-- ===== src/Base/Bits/Digits.antt =====
-- The digits of the native bit operations, one at a time.
use Prim.Native.Nat.{
  ℕ, zero, suc, ◌+◌, ◌-◌, ◌*◌, ◌/◌, ◌%◌, ◌^◌, ◌<◌, min, max, bit_xor, bit_and, bit_or,
  bit_or-bitwise,
}
use mathlib.Core.Path.{◌≡◌, refl, ap, ◌∙◌}
use native.Mathlib.Nat.{pow-suc}
use native.Mathlib.Omega.{arith}
use spdz_yao.Base.Tests.{◌==◌, if◌then◌else◌}
use spdz_yao.Base.Bits.Step.{bit_xor_step, bit_and_step, lowest}

bit_or_step : (x y : ℕ) → bit_or x y ≡ bit_or (x / 2) (y / 2) * 2 + max (x % 2) (y % 2)
bit_or_step zero y = simp bit_or-bitwise (omega arith)
bit_or_step (suc x) y = simp bit_or-bitwise (lowest (λ b. b) max x y)

-- `(x >> k) & 1`.
unfoldable pub digit : ℕ → ℕ → ℕ
digit zero x = x % 2
digit (suc k) x = digit k (x / 2)

pub digit-bit_or : (k x y : ℕ) → digit k (bit_or x y) ≡ max (digit k x) (digit k y)
unfolding digit
digit-bit_or zero x y = omega (arith, bit_or_step x y)
digit-bit_or (suc k) x y =
    ap (digit k) (omega (arith, bit_or_step x y)) ∙ digit-bit_or k (x / 2) (y / 2)

pub digit-bit_and : (k x y : ℕ) → digit k (bit_and x y) ≡ min (digit k x) (digit k y)
unfolding digit
digit-bit_and zero x y = omega (arith, bit_and_step x y)
digit-bit_and (suc k) x y =
    ap (digit k) (omega (arith, bit_and_step x y)) ∙ digit-bit_and k (x / 2) (y / 2)

pub digit-bit_xor : (k x y : ℕ) → digit k (bit_xor x y) ≡ (digit k x + digit k y) % 2
unfolding digit
digit-bit_xor zero x y = omega (arith, bit_xor_step x y)
digit-bit_xor (suc k) x y =
    ap (digit k) (omega (arith, bit_xor_step x y)) ∙ digit-bit_xor k (x / 2) (y / 2)

pub digit_small : (k x : ℕ) → digit k x < 2
unfolding digit
digit_small zero x = omega arith
digit_small (suc k) x = digit_small k (x / 2)

digit-zero : (k : ℕ) → digit k 0 ≡ 0
unfolding digit
digit-zero zero = refl
digit-zero (suc k) = digit-zero k

-- The digits of a power of two.
pub digit-pow : (j k : ℕ) → digit j (2 ^ k) ≡ (if j == k then 1 else 0)
unfolding digit
digit-pow zero zero = refl
digit-pow (suc j) zero = digit-zero j ∙ ground arith
digit-pow zero (suc k) = ground (arith, pow-suc 2 k)
digit-pow (suc j) (suc k) = ap (digit j) (omega (arith, pow-suc 2 k)) ∙ digit-pow j k ∙ ground arith

pow_pos : (k : ℕ) → 0 < 2 ^ k
pow_pos zero = omega arith
pow_pos (suc k) = omega (arith, pow-suc 2 k, pow_pos k)

pow-lt : (k n : ℕ) → k < n → 2 ^ k < 2 ^ n
pow-lt k zero h = elim h [ ]
pow-lt zero (suc n) h = omega (arith, pow-suc 2 n, pow_pos n)
pow-lt (suc k) (suc n) h = omega (arith, pow-suc 2 k, pow-suc 2 n, pow-lt k n (omega arith))

digit-ones : (n j : ℕ) → j < n → digit j (2 ^ n - 1) ≡ 1
unfolding digit
digit-ones zero j h = elim h [ ]
digit-ones (suc n) zero h = omega (arith, pow-suc 2 n, pow_pos n)
digit-ones (suc n) (suc j) h =
    ap (digit j) (omega (arith, pow-suc 2 n)) ∙ digit-ones n j (omega arith)

-- The digits of the mask that leaves one of them out.
pub digit-mask :
    (n j k : ℕ) → j < n → k < n → digit j (2 ^ n - 1 - 2 ^ k) ≡ (if j == k then 0 else 1)
unfolding digit
digit-mask zero j k hj hk = elim hj [ ]
digit-mask (suc n) zero zero hj hk = ground (arith, pow-suc 2 n, pow_pos n)
digit-mask (suc n) (suc j) zero hj hk =
    ap (digit j) (omega (arith, pow-suc 2 n)) ∙ digit-ones n j (omega arith) ∙ ground arith
digit-mask (suc n) zero (suc k) hj hk =
    ground (arith, pow-suc 2 n, pow-suc 2 k, pow-lt k n (omega arith))
digit-mask (suc n) (suc j) (suc k) hj hk =
    ap (digit j) (omega (arith, pow-suc 2 n, pow-suc 2 k, pow-lt k n (omega arith)))
    ∙ digit-mask n j k (omega arith) (omega arith)
    ∙ ground arith
