-- ===== src/Math/Modp.antt =====
-- Math/modp.h and Math/modp.cpp: the elements of a prime field, as arrays of `ZpD.t` limbs. An
-- operation that writes to `ans` returns the array; `Inv`, which calls `mpn_gcdext`, and the input
-- and output of text streams are left out.
pub mod Encodes
pub mod Arithmetic
pub mod Constants
pub mod Convert
pub mod Ints
pub mod Power
pub mod Field
pub mod Laws
pub mod Streams
use spdz_yao.Base.{
  Bool, true, false, ◌&&◌, ℕ, zero, suc, ◌+◌, ◌-◌, ◌*◌, ◌%◌, ◌/◌, ◌==◌, ltb, if◌then◌else◌, List,
  [], ◌∷◌, ◌++◌, length, get_or, drop, take, replicate, Result, ok, err, not_implemented,
}
use Prim.Native.Nat.{Ordering}
use spdz_yao.Math.Integer.{ℤ, pos, negsuc}
use spdz_yao.Math.Limbs.{limb_base, value, radix}
use spdz_yao.Math.Mpn.{Mpn, Carried}
use spdz_yao.Math.ZpData.{ZpData, mont_mult, padded}

-- `== 0` for what `mpn_cmp` returns.
unfoldable pub no_difference : Ordering → Bool
no_difference Ordering.lt = false
no_difference Ordering.eq = true
no_difference Ordering.gt = false

unfoldable pub assign_zero : ZpData → List ℕ
assign_zero d = replicate d.t 0

-- The array of `x.x[0]=n` over zeros.
unfoldable pub single : ZpData → ℕ → List ℕ
single d n = n ∷ replicate (d.t - 1) 0

-- The first `n` limbs are zero.
unfoldable pub zeros : ℕ → List ℕ → Bool
zeros zero xs = true
zeros (suc n) [] = true
zeros (suc n) (x ∷ xs) = x == 0 && zeros n xs

unfoldable pub is_zero : ZpData → List ℕ → Bool
unfolding zeros
is_zero d xs = zeros d.t xs

unfoldable pub assign_one : ZpData → List ℕ
unfolding single
assign_one d = if d.montgomery then take d.t d.r else single d 1

module _ ⦃m : Mpn⦄ where
  unfoldable pub negate : ZpData → List ℕ → List ℕ
  unfolding is_zero
  negate d xs = if is_zero d xs then xs else (m.mpn_sub_n (take d.t d.pr_a) xs d.t).limbs

  unfoldable pub are_equal : ZpData → List ℕ → List ℕ → Bool
  unfolding no_difference
  are_equal d xs ys = no_difference (m.mpn_cmp xs ys d.t)

  unfoldable pub is_one : ZpData → List ℕ → Bool
  unfolding no_difference zeros
  is_one d xs =
      if d.montgomery
      then no_difference (m.mpn_cmp xs d.r d.t)
      else get_or xs 0 0 == 1 && zeros (d.t - 1) (drop 1 xs)

  unfoldable pub mul : ZpData → List ℕ → List ℕ → List ℕ
  unfolding mont_mult
  mul d xs ys =
      if d.montgomery
      then mont_mult d xs ys
      else m.mpn_tdiv_qr (m.mpn_mul_n xs ys d.t) (d.t + d.t) (take d.t d.pr_a) d.t

  unfoldable pub sqr : ZpData → List ℕ → List ℕ
  unfolding mont_mult
  sqr d xs =
      if d.montgomery
      then mont_mult d xs xs
      else m.mpn_tdiv_qr (m.mpn_sqr xs d.t) (d.t + d.t) (take d.t d.pr_a) d.t

  -- The number that the limbs written to `ans` stand for.
  unfoldable pub to_bigint : ZpData → List ℕ → ℕ
  unfolding mont_mult value single
  to_bigint d xs = value (if d.montgomery then mont_mult d xs (single d 1) else xs)

  -- The limbs of a residue, in Montgomery's form where that is used.
  unfoldable pub enter : ZpData → List ℕ → List ℕ
  unfolding mont_mult
  enter d xs = if d.montgomery then mont_mult d xs d.r2 else xs

  -- `convert_destroy` of a big integer: `xx %= pr` has the sign of `xx`.
  unfoldable pub convert_destroy : ZpData → ℤ → List ℕ
  unfolding padded enter
  convert_destroy d (pos n) = enter d (padded d.t (n % d.pr))
  convert_destroy d (negsuc n) =
      let rest = suc n % d.pr in enter d (padded d.t (if rest == 0 then 0 else d.pr - rest))

  -- `to_modp` of an `int`; `prA[0]+x` wraps around.
  unfoldable pub to_modp : ZpData → ℤ → List ℕ
  unfolding convert_destroy single
  to_modp d (pos n) =
      let p = get_or d.pr_a 0 0 in enter d (single d (if d.t == 1 then n % p else n))
  to_modp d (negsuc n) =
      let p = get_or d.pr_a 0 0 in
      if d.t == 1
      then enter d (single d ((p + (limb_base - suc n)) % limb_base % p))
      else convert_destroy d (if ltb n d.pr then pos (d.pr - suc n) else negsuc (n - d.pr))

  -- The `while` loop of `Power` on `exp`, with fuel for its passes.
  unfoldable pub power_rounds : ℕ → ZpData → List ℕ → List ℕ → ℕ → List ℕ
  unfolding mul sqr
  power_rounds zero d ans t exp = ans
  power_rounds (suc fuel) d ans t exp =
      let more =
        power_rounds fuel d (if exp % 2 == 1 then mul d ans t else ans) (sqr d t) (exp / 2) in
      if exp == 0 then ans else more

  unfoldable pub power : ZpData → List ℕ → ℤ → Result (List ℕ)
  unfolding assign_one power_rounds
  power d xs (negsuc n) = err not_implemented
  power d xs (pos e) =
      if e == 1
      then ok xs
      else if e == 0
      then ok (assign_one d)
      else ok (power_rounds e d (assign_one d) xs e)
