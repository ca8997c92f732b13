-- ===== src/Math/Modp/Field.antt =====
-- The operations of Math/modp.h and Math/modp.cpp together: arithmetic modulo the prime.
use spdz_yao.Base.{true, ◌≡◌, ◌↔◌, ℕ, ◌+◌, ◌*◌, List}
use spdz_yao.Math.Mpn.{Mpn}
use spdz_yao.Math.Congruence.{Congruent}
use spdz_yao.Math.ZpData.{ZpData, add, sub}
use spdz_yao.Math.ZpData.WellFormed.{WellFormed}
use spdz_yao.Math.Modp.{mul, sqr, negate, assign_zero, assign_one, is_zero, is_one, are_equal}
use spdz_yao.Math.Modp.Encodes.{Encodes}
use spdz_yao.Math.Modp.Arithmetic.{add-Encodes, sub-Encodes, mul-Encodes, sqr-Encodes}
use spdz_yao.Math.Modp.Constants.{
  negate-Encodes, assign_zero-Encodes, assign_one-Encodes, is_zero_iff, is_one_iff, are_equal_iff,
}

module _ ⦃m : Mpn⦄ {d : ZpData} (w : WellFormed d) where
  -- In a well formed state, with or without Montgomery's form, `Add`, `Sub`, `Mul`, `Sqr` and
  -- `Negate` of arrays that stand for numbers leave arrays below the prime that stand for the sum,
  -- the difference, the product, the square and the opposite modulo the prime.
  pub operations_lem :
      {a b : ℕ} {xs ys : List ℕ}
      → Encodes d a xs
      → Encodes d b ys
      → Encodes d (a + b) (add d xs ys)
        × ((c : ℕ) → Congruent d.pr (c + b) a → Encodes d c (sub d xs ys))
        × Encodes d (a * b) (mul d xs ys)
        × Encodes d (a * a) (sqr d xs)
        × ((c : ℕ) → Congruent d.pr (c + a) 0 → Encodes d c (negate d xs))
  operations_lem h k = (
    add-Encodes w h k,
    (λ c e. sub-Encodes w h k e),
    mul-Encodes w h k,
    sqr-Encodes w h,
    (λ c e. negate-Encodes w h e),
  )

  -- In a well formed state, `assignZero` and `assignOne` leave arrays that stand for 0 and 1, and
  -- `isZero`, `isOne` and `areEqual` of arrays that stand for numbers answer whether the numbers
  -- are 0, 1 and equal modulo the prime.
  pub tests_lem :
      {a b : ℕ} {xs ys : List ℕ}
      → Encodes d a xs
      → Encodes d b ys
      → Encodes d 0 (assign_zero d)
        × Encodes d 1 (assign_one d)
        × ((is_zero d xs ≡ true) ↔ Congruent d.pr a 0)
        × ((is_one d xs ≡ true) ↔ Congruent d.pr a 1)
        × ((are_equal d xs ys ≡ true) ↔ Congruent d.pr a b)
  tests_lem h k = (
    assign_zero-Encodes w,
    assign_one-Encodes w,
    is_zero_iff w h,
    is_one_iff w h,
    are_equal_iff w h k,
  )
