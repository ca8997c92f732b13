-- ===== src/Math/ZpData/WellFormed.antt =====
-- The states of the class of Math/Zp_Data.h that its operations are called in.
use Prim.Native.Nat.{compare}
use spdz_yao.Base.{true, ◌≡◌, ◌∙◌, ℕ, suc, ◌+◌, ◌*◌, ◌%◌, ◌≤◌, ◌<◌, leb, List, take, arith}
use spdz_yao.Math.Limbs.{Limbs, value, radix, limb_base, Limbs-take, value-take}
use spdz_yao.Math.Congruence.{Congruent}
use spdz_yao.Math.ZpData.{ZpData, at_least}

-- What Montgomery's multiplication relies on. `room` keeps the sum at `ans[t+i]` in one limb.
pub record Montgomery (d : ZpData) : Type 0 where
  pub pi-Congruent : Congruent limb_base (d.pr * d.pi + 1) 0
  pub inverse : ℕ
  pub inverse-Congruent : Congruent d.pr (radix d.t * inverse) 1
  pub room : (limb_base + 1) * d.pr ≤ radix (suc d.t)
  pub r-Limbs : Limbs d.t d.r
  pub r2-Limbs : Limbs d.t d.r2
  pub r3-Limbs : Limbs d.t d.r3
  pub value-r : value d.r ≡ radix d.t % d.pr
  pub value-r2 : value d.r2 ≡ (radix d.t * radix d.t) % d.pr
  pub value-r3 : value d.r3 ≡ (radix d.t * radix d.t * radix d.t) % d.pr

-- `d.t` is the number of limbs of the modulus, and `prA` has one more.
pub record WellFormed (d : ZpData) : Type 0 where
  pub below : ℕ
  pub t-suc : d.t ≡ suc below
  pub pr_a-Limbs : Limbs (suc d.t) d.pr_a
  pub value-pr_a : value d.pr_a ≡ d.pr
  pub pr_big : radix below ≤ d.pr
  pub pr-lt : d.pr < radix d.t
  pub one-lt : 1 < d.pr
  pub montgomery-Montgomery : d.montgomery ≡ true → Montgomery d

-- The arrays that stand for a residue: below the modulus.
pub record Canonical (d : ZpData) (xs : List ℕ) : Type 0 where
  pub limbs : Limbs d.t xs
  pub bound : value xs < d.pr

pub at_least-compare : (a b : ℕ) → at_least (compare a b) ≡ leb b a
unfolding at_least
at_least-compare a b = ground arith

-- The `t` limbs of `prA` that the sums use.
pub low-Limbs : {d : ZpData} → WellFormed d → Limbs d.t (take d.t d.pr_a)
low-Limbs w = Limbs-take w.pr_a-Limbs (omega arith)

pub value-low : {d : ZpData} → WellFormed d → value (take d.t d.pr_a) ≡ d.pr
value-low w = value-take w.pr_a-Limbs (omega (arith, w.value-pr_a, w.pr-lt)) ∙ w.value-pr_a
