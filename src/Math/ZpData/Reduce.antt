-- ===== src/Math/ZpData/Reduce.antt =====
-- One division by the base in `Mont_Mult` of Math/Zp_Data.cpp.
use spdz_yao.Base.{
  ◌≡◌, refl, ap, ◌∙◌, ℕ, suc, ◌+◌, ◌-◌, ◌*◌, ◌%◌, ◌≤◌, ◌<◌, List, [], ◌∷◌, ◌++◌, drop, get_or,
  arith,
}
use native.Mathlib.Nat.{mul-le-mul, mod-lt, lt_of_mul-lt-mul_left}
use spdz_yao.Math.Limbs.{
  Limbs, empty, limb, value, radix, limb_base, radix-suc, value-lt, Limbs-snoc, value-snoc,
}
use spdz_yao.Math.Mpn.{Mpn, Holds}
use spdz_yao.Math.Congruence.{
  Congruent, of_multiples, of_eq, ◌and_so◌, times_both, times_right, plus_both, mod-Congruent,
  canonical,
}
use spdz_yao.Math.ZpData.{ZpData, reduce}
use spdz_yao.Math.ZpData.WellFormed.{WellFormed, Montgomery}

-- The lowest limb of an array is its number's remainder.
pub first-Congruent :
    {t : ℕ} {xs : List ℕ} → Limbs t xs → Congruent limb_base (get_or xs 0 0) (value xs)
unfolding value
first-Congruent empty = of_eq refl
first-Congruent (limb {x = x} {xs = xs} h l) = of_multiples (value xs) 0 (omega arith)

pub first-lt : {t : ℕ} {xs : List ℕ} → Limbs t xs → get_or xs 0 0 < limb_base
first-lt empty = omega arith
first-lt (limb h l) = h

-- The factor `u` clears the lowest limb of a number that `s` is congruent to.
clears :
    (s n p pi : ℕ)
    → Congruent limb_base (p * pi + 1) 0
    → Congruent limb_base s n
    → Congruent limb_base (n + p * ((s * pi) % limb_base)) 0
clears s n p pi c e =
    plus_both (of_eq refl)
      (times_both (of_eq refl) (mod-Congruent (s * pi) and_so times_right pi e))
    and_so of_eq {b = n * (p * pi + 1)} (omega arith)
    and_so times_both {a = n} {d = 0} (of_eq refl) c
    and_so of_eq (omega arith)

-- The array without a lowest limb that is zero.
drop-value :
    {t c n : ℕ} {xs : List ℕ}
    → Limbs (suc t) xs
    → value xs + radix (suc t) * c ≡ n
    → Congruent limb_base n 0
    → c < limb_base
    → Limbs (suc t) (drop 1 xs ++ c ∷ []) × (limb_base * value (drop 1 xs ++ c ∷ []) ≡ n)
unfolding value
drop-value {t = t} {c = c} {n = n} (limb {x = x} {xs = xs} h l) e z k =
    let r : radix (suc t) * c ≡ limb_base * radix t * c = ap (λ r. r * c) (radix-suc t) in
    let x-Congruent : Congruent limb_base x n =
      of_multiples (value xs + radix t * c) 0 (omega (arith, e, r)) in
    let x-zero : x ≡ 0 = canonical h (omega arith) (x-Congruent and_so z) in
    (Limbs-snoc l k, rw (value-snoc c l) (omega (arith, e, x-zero, r)))

-- The carry of a sum that has no room for more.
pub carry-lt : (R v c n : ℕ) → v + R * c ≡ n → n < R * limb_base → c < limb_base
carry-lt R v c n e h = lt_of_mul-lt-mul_left R (omega (arith, e, h))

module _ ⦃m : Mpn⦄ {d : ZpData} (w : WellFormed d) (mont : Montgomery d) where
  pub reduce_lem :
      {low : List ℕ} {top n s : ℕ}
      → Limbs d.t low
      → top < limb_base
      → value low + radix d.t * top ≡ n
      → Congruent limb_base s n
      → let u = (s * d.pi) % limb_base in
        Limbs (suc d.t) (reduce d low top u)
        × (limb_base * value (reduce d low top u) ≡ n + d.pr * u)
  unfolding reduce
  reduce_lem {low = low} {top = top} {n = n} {s = s} l h e c =
      let u = (s * d.pi) % limb_base in
      let u-lt : u < limb_base = mod-lt (s * d.pi) (omega arith) in
      let ans = m.mpn_addmul_1 (low ++ top ∷ []) d.pr_a (suc d.t) u in
      let l' = Limbs-snoc l h in
      let holds : Holds (suc d.t) (value (low ++ top ∷ []) + value d.pr_a * u) ans =
        m.addmul_1_lem u l' w.pr_a-Limbs u-lt in
      let total : value ans.limbs + radix (suc d.t) * ans.carry ≡ n + d.pr * u =
        holds.total ∙ rw (value-snoc top l, w.value-pr_a, e) refl in
      let n-lt : n < radix (suc d.t) = omega (arith, value-lt l', value-snoc top l, e) in
      let p-lt : d.pr ≤ radix (suc d.t) = omega (arith, w.pr-lt, radix-suc d.t) in
      let k : n + d.pr * u < radix (suc d.t) * limb_base =
        omega (arith, n-lt, mul-le-mul p-lt (sharper u u-lt)) in
      drop-value holds.limbs-Limbs total (clears s n d.pr d.pi mont.pi-Congruent c)
        (carry-lt (radix (suc d.t)) (value ans.limbs) ans.carry _ total k)
    where
      sharper : (u : ℕ) → u < limb_base → u ≤ limb_base - 1
      sharper u h = omega arith
