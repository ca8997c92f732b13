-- ===== src/Math/Mpn.antt =====
-- What Math/ calls of the GMP or MPIR library, which is not part of the repository: functions on
-- arrays of limbs and on big integers, with their documented behaviour.
use Prim.Native.Nat.{Ordering, compare}
use spdz_yao.Base.{◌≡◌, ℕ, suc, ◌+◌, ◌*◌, ◌%◌, ◌≤◌, ◌<◌, List}
use spdz_yao.Math.Limbs.{Limbs, value, radix, limb_base}

-- The array that a function writes, and the carry or borrow that it returns.
pub record Carried : Type 0 where
  pub limbs : List ℕ
  pub carry : ℕ

-- The array and the carry together are a number.
pub record Holds (t : ℕ) (n : ℕ) (r : Carried) : Type 0 where
  pub limbs-Limbs : Limbs t r.limbs
  pub total : value r.limbs + radix t * r.carry ≡ n

-- The arguments are the C functions' without the array that they write.
pub record Mpn : Type 0 where
  pub mpn_add_n : List ℕ → List ℕ → ℕ → Carried
  pub mpn_sub_n : List ℕ → List ℕ → ℕ → Carried
  pub mpn_cmp : List ℕ → List ℕ → ℕ → Ordering
  pub mpn_mul_1 : List ℕ → ℕ → ℕ → Carried
  -- `mpn_addmul_1(rp, s1p, n, s2limb)`, with the array at `rp` before the call.
  pub mpn_addmul_1 : List ℕ → List ℕ → ℕ → ℕ → Carried
  pub mpn_mul_n : List ℕ → List ℕ → ℕ → List ℕ
  pub mpn_sqr : List ℕ → ℕ → List ℕ
  -- The remainder that `mpn_tdiv_qr` writes.
  pub mpn_tdiv_qr : List ℕ → ℕ → List ℕ → ℕ → List ℕ
  -- `mpz_size`, the limbs `_mp_d` of a number, and `mpz_invert`.
  pub mpz_size : ℕ → ℕ
  pub mp_d : ℕ → List ℕ
  pub mpz_invert : ℕ → ℕ → ℕ
  pub add_n_lem :
      {t : ℕ} {xs ys : List ℕ}
      → Limbs t xs
      → Limbs t ys
      → Holds t (value xs + value ys) (mpn_add_n xs ys t)
  pub sub_n-Limbs :
      {t : ℕ} {xs ys : List ℕ} → Limbs t xs → Limbs t ys → Limbs t (mpn_sub_n xs ys t).limbs
  pub sub_n_total :
      {t : ℕ} {xs ys : List ℕ}
      → Limbs t xs
      → Limbs t ys
      → value (mpn_sub_n xs ys t).limbs + value ys ≡ value xs + radix t * (mpn_sub_n xs ys t).carry
  pub cmp_lem :
      {t : ℕ} {xs ys : List ℕ}
      → Limbs t xs
      → Limbs t ys
      → mpn_cmp xs ys t ≡ compare (value xs) (value ys)
  pub mul_1_lem :
      {t : ℕ} {xs : List ℕ} (y : ℕ)
      → Limbs t xs
      → y < limb_base
      → Holds t (value xs * y) (mpn_mul_1 xs t y)
  pub addmul_1_lem :
      {t : ℕ} {zs xs : List ℕ} (y : ℕ)
      → Limbs t zs
      → Limbs t xs
      → y < limb_base
      → Holds t (value zs + value xs * y) (mpn_addmul_1 zs xs t y)
  pub mul_n-Limbs :
      {t : ℕ} {xs ys : List ℕ} → Limbs t xs → Limbs t ys → Limbs (t + t) (mpn_mul_n xs ys t)
  pub value-mul_n :
      {t : ℕ} {xs ys : List ℕ}
      → Limbs t xs
      → Limbs t ys
      → value (mpn_mul_n xs ys t) ≡ value xs * value ys
  pub sqr_lem : {t : ℕ} {xs : List ℕ} → Limbs t xs → mpn_sqr xs t ≡ mpn_mul_n xs xs t
  -- The top limb of the divisor is not zero.
  pub tdiv_qr-Limbs :
      {s t b : ℕ} {xs ys : List ℕ}
      → Limbs s xs
      → Limbs t ys
      → t ≡ suc b
      → radix b ≤ value ys
      → Limbs t (mpn_tdiv_qr xs s ys t)
  pub value-tdiv_qr :
      {s t b : ℕ} {xs ys : List ℕ}
      → Limbs s xs
      → Limbs t ys
      → t ≡ suc b
      → radix b ≤ value ys
      → value (mpn_tdiv_qr xs s ys t) ≡ value xs % value ys
  pub mp_d-Limbs : (n : ℕ) → Limbs (mpz_size n) (mp_d n)
  pub value-mp_d : (n : ℕ) → value (mp_d n) ≡ n
  -- The top limb of a number is not zero.
  pub mpz_size_top : (n t : ℕ) → mpz_size n ≡ suc t → radix t ≤ n
  pub mpz_invert_lem : (a b k : ℕ) → 1 < b → (a * k) % b ≡ 1 → (a * mpz_invert a b) % b ≡ 1
  pub mpz_invert-lt : (a b k : ℕ) → 1 < b → (a * k) % b ≡ 1 → mpz_invert a b < b
