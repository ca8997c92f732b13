-- ===== src/Math/ZpData.antt =====
-- Math/Zp_Data.h and Math/Zp_Data.cpp: the arithmetic of arrays of limbs modulo a prime, with
-- Montgomery's multiplication. An array that the source declares with MAX_MOD_SZ limbs is the list
-- of the `t` limbs that are used; a function that writes to `ans` or `z` returns the array.
-- `mask`, which only `almost_randomize` of Math/gfp.cpp reads, is left out.
pub mod WellFormed
pub mod Sums
pub mod Reduce
pub mod Mont
pub mod Init
use Prim.Native.Nat.{Ordering}
use spdz_yao.Base.{
  Bool, true, false, not, ◌||◌, ◌&&◌, ◌≡◌, ℕ, zero, suc, ◌+◌, ◌-◌, ◌*◌, ◌%◌, ◌/◌, ◌^◌, ◌==◌, ltb,
  leb, if◌then◌else◌, List, [], ◌∷◌, ◌++◌, length, get_or, take, drop, replicate, Result, ok, err,
  max_mod_sz_too_small,
}
use spdz_yao.Math.Limbs.{limb_base, value, radix}
use spdz_yao.Math.Mpn.{Mpn, Carried}

pub record ZpData : Type 0 where
  pub montgomery : Bool
  pub r : List ℕ
  pub r2 : List ℕ
  pub r3 : List ℕ
  pub pi : ℕ
  -- `t + 1` limbs.
  pub pr_a : List ℕ
  pub t : ℕ
  pub pr : ℕ

-- `>= 0` for what `mpn_cmp` returns.
unfoldable pub at_least : Ordering → Bool
at_least Ordering.lt = false
at_least Ordering.eq = true
at_least Ordering.gt = true

module _ ⦃m : Mpn⦄ where
  -- The limbs of a number at the bottom of an array of `size` zeros.
  unfoldable pub padded : ℕ → ℕ → List ℕ
  padded size n = m.mp_d n ++ replicate (size - length (m.mp_d n)) 0

  -- `pi`, from `pp = r - 1/p mod r`.
  unfoldable pub pi_of : ℕ → ℕ → ℕ
  pi_of p r = get_or (m.mp_d (r - m.mpz_invert p r)) 0 0

  -- What `init` stores for a modulus of `t` limbs; without Montgomery's form the source leaves `R`,
  -- `R2`, `R3` and `pi` as they are, and nothing reads them.
  unfoldable pub stored : ℕ → ℕ → Bool → ZpData
  unfolding padded pi_of radix
  stored t p mont =
      let r = radix t % p in
      let r2 = (r * r) % p in
      let r3 = (r2 * r) % p in
      record {
        montgomery = mont;
        r = if mont then padded t r else replicate t 0;
        r2 = if mont then padded t r2 else replicate t 0;
        r3 = if mont then padded t r3 else replicate t 0;
        pi = if mont then pi_of p (radix t) else 0;
        pr_a = m.mp_d p ++ 0 ∷ [];
        t = t;
        pr = p;
      }

  -- `init(p, mont)`; the two sizes of the limbs agree, so that the last exception is not thrown.
  unfoldable pub init : ℕ → ℕ → Bool → Result ZpData
  unfolding stored
  init max_mod_sz p mont =
      let t = m.mpz_size p in
      if ltb max_mod_sz t then err max_mod_sz_too_small else ok (stored t p mont)

  -- `Add<0>`.
  unfoldable pub add_any : ZpData → List ℕ → List ℕ → List ℕ
  unfolding at_least
  add_any d xs ys =
      let ans = m.mpn_add_n xs ys d.t in
      let pr = take d.t d.pr_a in
      if not (ans.carry == 0) || at_least (m.mpn_cmp ans.limbs pr d.t)
      then (m.mpn_sub_n ans.limbs pr d.t).limbs
      else ans.limbs

  -- `Add<2>`: the same on 128-bit integers.
  unfoldable pub add_two : ZpData → List ℕ → List ℕ → List ℕ
  unfolding value
  add_two d xs ys =
      let bits = limb_base * limb_base in
      let p = value (take 2 d.pr_a) in
      let sum = value xs + value ys in
      let c = sum % bits in
      let ans = if leb bits sum || leb p c then (c + bits - p) % bits else c in
      ans % limb_base ∷ ans / limb_base ∷ []

  unfoldable pub add : ZpData → List ℕ → List ℕ → List ℕ
  unfolding add_any add_two
  add d xs ys = if d.t == 2 then add_two d xs ys else add_any d xs ys

  unfoldable pub sub : ZpData → List ℕ → List ℕ → List ℕ
  sub d xs ys =
      let ans = m.mpn_sub_n xs ys d.t in
      if not (ans.carry == 0)
      then (m.mpn_add_n ans.limbs (take d.t d.pr_a) d.t).limbs
      else ans.limbs

  -- The array after `mpn_addmul_1(ans+i, prA, t+1, u)`, from `ans+i+1`: `low` and `top` are the
  -- limbs at `ans+i` before.
  unfoldable pub reduce : ZpData → List ℕ → ℕ → ℕ → List ℕ
  reduce d low top u =
      let ans = m.mpn_addmul_1 (low ++ top ∷ []) d.pr_a (suc d.t) u in
      drop 1 ans.limbs ++ ans.carry ∷ []

  -- The first loop.
  unfoldable pub mont_first : ZpData → ℕ → List ℕ → List ℕ
  unfolding reduce
  mont_first d x ys =
      let u = ((x * get_or ys 0 0) % limb_base * d.pi) % limb_base in
      let ans = m.mpn_mul_1 ys d.t x in reduce d ans.limbs ans.carry u

  -- A pass of the `for` loop, on the array from `ans+i`.
  unfoldable pub mont_round : ZpData → List ℕ → ℕ → List ℕ → List ℕ
  unfolding reduce
  mont_round d ans x ys =
      let u = ((get_or ans 0 0 + x * get_or ys 0 0) % limb_base * d.pi) % limb_base in
      let low = m.mpn_addmul_1 (take d.t ans) ys d.t x in
      reduce d low.limbs ((get_or ans d.t 0 + low.carry) % limb_base) u

  unfoldable pub mont_rounds : ZpData → List ℕ → List ℕ → List ℕ → List ℕ
  unfolding mont_round
  mont_rounds d ans [] ys = ans
  mont_rounds d ans (x ∷ xs) ys = mont_rounds d (mont_round d ans x ys) xs ys

  unfoldable pub mont_mult : ZpData → List ℕ → List ℕ → List ℕ
  unfolding mont_first mont_rounds at_least
  mont_mult d xs ys =
      let ans = mont_rounds d (mont_first d (get_or xs 0 0) ys) (drop 1 (take d.t xs)) ys in
      if at_least (m.mpn_cmp ans d.pr_a (suc d.t))
      then (m.mpn_sub_n (take d.t ans) (take d.t d.pr_a) d.t).limbs
      else take d.t ans
