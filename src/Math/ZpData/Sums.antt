-- ===== src/Math/ZpData/Sums.antt =====
-- `Add` and `Sub` of Math/Zp_Data.h on residues.
use mathlib.Core.Path.{subst}
use spdz_yao.Base.{
  true, false, not, ◌||◌, ◌≡◌, refl, sym, ap, ◌∙◌, ℕ, zero, suc, ◌+◌, ◌-◌, ◌*◌, ◌%◌, ◌/◌, ◌≤◌, ◌<◌,
  leb, ◌==◌, List, [], ◌∷◌, take, arith, if◌then◌else◌, if-elim, ◌⊎◌, inl, inr, ==_iff,
}
use spdz_yao.Math.Limbs.{Limbs, value, radix, limb_base, value-lt, empty, limb}
use spdz_yao.Math.Mpn.{Mpn, Holds}
use spdz_yao.Math.Congruence.{Congruent, of_multiples}
use spdz_yao.Math.ZpData.{ZpData, add_any, add_two, add, sub, at_least}
use spdz_yao.Math.ZpData.WellFormed.{WellFormed, Canonical, low-Limbs, value-low, at_least-compare}

-- A residue whose number differs from `n` by multiples of the modulus.
pub record Reduced (d : ZpData) (n : ℕ) (xs : List ℕ) : Type 0 where
  pub xs-Canonical : Canonical d xs
  pub n-Congruent : Congruent d.pr (value xs) n

pub reduced :
    {d : ZpData} {n : ℕ} {xs : List ℕ} (k l : ℕ)
    → Limbs d.t xs
    → value xs < d.pr
    → value xs + k * d.pr ≡ n + l * d.pr
    → Reduced d n xs
reduced k l limbs bound e = record {
  xs-Canonical = record { limbs = limbs; bound = bound };
  n-Congruent = of_multiples k l e;
}

-- One subtraction of the modulus, with the carry of the sum and the borrow.
pub subtract_once :
    (p n v c z b R : ℕ)
    → v + R * c ≡ n
    → z + p ≡ v + R * b
    → p ≤ n
    → n < p + p
    → p < R
    → z < R
    → z + p ≡ n
subtract_once p n v zero z zero R s t h k l o = omega arith
subtract_once p n v zero z (suc b) R s t h k l o = absurd (omega arith)
subtract_once p n v (suc zero) z zero R s t h k l o = absurd (omega arith)
subtract_once p n v (suc zero) z (suc zero) R s t h k l o = omega arith
subtract_once p n v (suc zero) z (suc (suc b)) R s t h k l o = absurd (omega arith)
subtract_once p n v (suc (suc c)) z b R s t h k l o = absurd (omega arith)

-- The test of `Add` finds the sums that are not below the modulus.
test-le : (p n v c R : ℕ) → v + R * c ≡ n → p < R → (not (c == 0) || leb p v) ≡ true → p ≤ n
test-le p n v zero R s l e = ground arith
test-le p n v (suc c) R s l e = omega arith

test-gt : (p n v c R : ℕ) → v + R * c ≡ n → (not (c == 0) || leb p v) ≡ false → (n < p) × (v ≡ n)
test-gt p n v zero R s e = (ground arith, omega arith)
test-gt p n v (suc c) R s e = absurd (ground arith)

-- The array of a 128-bit integer.
pair-Limbs : (z : ℕ) → z < limb_base * limb_base → Limbs 2 (z % limb_base ∷ z / limb_base ∷ [])
pair-Limbs z h = limb (omega arith) (limb (omega arith) empty)

value-pair : (z : ℕ) → value (z % limb_base ∷ z / limb_base ∷ []) ≡ z
unfolding value
value-pair z = omega arith

radix_two : radix 2 ≡ limb_base * limb_base
unfolding radix
radix_two = refl

-- `Add<2>`: the carry is the bit above the 128 of the integers.
two_total :
    (p n : ℕ)
    → n < p + p
    → p < limb_base * limb_base
    → let bits = limb_base * limb_base in
      let c = n % bits in
      let z = (if leb bits n || leb p c then (c + bits - p) % bits else c) in
      (z < p) × ((z ≡ n) ⊎ (z + p ≡ n))
two_total p n h k = (ground arith, ground arith)

-- A subtraction with a borrow, and the sum that undoes it.
subtract_back :
    (p x y z b z' c R : ℕ)
    → z + y ≡ x + R * suc b
    → z' + R * c ≡ z + p
    → x < p
    → y < p
    → p < R
    → z < R
    → z' < R
    → z' + y ≡ x + p
subtract_back p x y z zero z' zero R s t h k l o q = absurd (omega arith)
subtract_back p x y z zero z' (suc zero) R s t h k l o q = omega arith
subtract_back p x y z zero z' (suc (suc c)) R s t h k l o q = absurd (omega arith)
subtract_back p x y z (suc b) z' c R s t h k l o q = absurd (omega arith)

module _ ⦃m : Mpn⦄ {d : ZpData} (w : WellFormed d) where
  -- What `mpn_cmp` finds of an array and the modulus.
  at_least-modulus :
      {xs : List ℕ}
      → Limbs d.t xs
      → at_least (m.mpn_cmp xs (take d.t d.pr_a) d.t) ≡ leb d.pr (value xs)
  at_least-modulus {xs = xs} l =
      ap at_least (m.cmp_lem l (low-Limbs w))
      ∙ at_least-compare (value xs) (value (take d.t d.pr_a))
      ∙ ap (λ p. leb p (value xs)) (value-low w)

  add_any-Reduced :
      {xs ys : List ℕ}
      → Canonical d xs
      → Canonical d ys
      → Reduced d (value xs + value ys) (add_any d xs ys)
  unfolding add_any
  add_any-Reduced {xs = xs} {ys = ys} cx cy =
      let s = m.mpn_add_n xs ys d.t in
      let h : Holds d.t (value xs + value ys) s = m.add_n_lem cx.limbs cy.limbs in
      let back = m.mpn_sub_n s.limbs (take d.t d.pr_a) d.t in
      let back-Limbs : Limbs d.t back.limbs = m.sub_n-Limbs h.limbs-Limbs (low-Limbs w) in
      rw (at_least-modulus h.limbs-Limbs) (
        if-elim (Reduced d (value xs + value ys)) (not (s.carry == 0) || leb d.pr (value s.limbs))
          (λ e.
            let once : value back.limbs + d.pr ≡ value xs + value ys =
              subtract_once d.pr _ (value s.limbs) s.carry (value back.limbs) back.carry (radix d.t)
                h.total
                (ap (λ p. value back.limbs + p) (sym (value-low w))
                  ∙ m.sub_n_total h.limbs-Limbs (low-Limbs w))
                (test-le d.pr _ (value s.limbs) s.carry (radix d.t) h.total w.pr-lt e)
                (omega (arith, cx.bound, cy.bound)) w.pr-lt (value-lt back-Limbs) in
            reduced 1 0 back-Limbs (omega (arith, once, cx.bound, cy.bound)) (omega (arith, once)))
          (λ e.
            let (lt, same) = test-gt d.pr _ (value s.limbs) s.carry (radix d.t) h.total e in
            reduced 0 0 h.limbs-Limbs (omega (arith, lt, same)) (omega (arith, same))))

  pub sub-Reduced :
      {xs ys : List ℕ}
      → Canonical d xs
      → Canonical d ys
      → Reduced d (value xs + (d.pr - value ys)) (sub d xs ys)
  unfolding sub
  sub-Reduced {xs = xs} {ys = ys} cx cy =
      let s = m.mpn_sub_n xs ys d.t in
      let s-Limbs : Limbs d.t s.limbs = m.sub_n-Limbs cx.limbs cy.limbs in
      let total = m.sub_n_total cx.limbs cy.limbs in
      let back = m.mpn_add_n s.limbs (take d.t d.pr_a) d.t in
      let h : Holds d.t (value s.limbs + value (take d.t d.pr_a)) back =
        m.add_n_lem s-Limbs (low-Limbs w) in
      if-elim (Reduced d (value xs + (d.pr - value ys))) (not (s.carry == 0))
        (λ e.
          let (b, same) = borrowed s.carry e in
          let t : value s.limbs + value ys ≡ value xs + radix d.t * suc b =
            total ∙ ap (λ c. value xs + radix d.t * c) same in
          let e' : value back.limbs + value ys ≡ value xs + d.pr =
            subtract_back d.pr (value xs) (value ys) (value s.limbs) b (value back.limbs) back.carry
              (radix d.t) t (h.total ∙ ap (λ p. value s.limbs + p) (value-low w)) cx.bound cy.bound
              w.pr-lt (value-lt s-Limbs) (value-lt h.limbs-Limbs) in
          reduced 0 0 h.limbs-Limbs (omega (arith, e', t, value-lt s-Limbs))
            (omega (arith, e', cy.bound)))
        (λ e.
          let same : value s.limbs + value ys ≡ value xs + radix d.t * 0 =
            total ∙ ap (λ c. value xs + radix d.t * c) (unborrowed s.carry e) in
          reduced 1 0 s-Limbs (omega (arith, same, cx.bound)) (omega (arith, same, cy.bound)))
    where
      borrowed : (c : ℕ) → not (c == 0) ≡ true → (b : ℕ) × (c ≡ suc b)
      borrowed zero e = absurd (ground arith)
      borrowed (suc b) e = (b, refl)

      unborrowed : (c : ℕ) → not (c == 0) ≡ false → c ≡ 0
      unborrowed c e = ground arith

module _ ⦃m : Mpn⦄ {d : ZpData} (w : WellFormed d) where
  pair-Reduced :
      d.t ≡ 2
      → (z n : ℕ) → z < d.pr
      → (z ≡ n) ⊎ (z + d.pr ≡ n)
      → Reduced d n (z % limb_base ∷ z / limb_base ∷ [])
  pair-Reduced e z n h c =
      let p-lt : d.pr < limb_base * limb_base =
        omega (arith, subst (λ t. d.pr < radix t) e w.pr-lt, radix_two) in
      let l : Limbs d.t (z % limb_base ∷ z / limb_base ∷ []) =
        subst (λ t. Limbs t (z % limb_base ∷ z / limb_base ∷ [])) (sym e)
          (pair-Limbs z (omega (arith, h, p-lt))) in
      let b : value (z % limb_base ∷ z / limb_base ∷ []) < d.pr = rw (value-pair z) h in
      elim c [
        | inl s ↦ reduced 0 0 l b (rw (value-pair z) (omega (arith, s)))
        | inr s ↦ reduced 1 0 l b (rw (value-pair z) (omega (arith, s)))
      ]

  add_two-Reduced :
      {xs ys : List ℕ}
      → d.t ≡ 2
      → Canonical d xs
      → Canonical d ys
      → Reduced d (value xs + value ys) (add_two d xs ys)
  unfolding add_two
  add_two-Reduced {xs = xs} {ys = ys} e cx cy =
      let p-eq : value (take 2 d.pr_a) ≡ d.pr =
        subst (λ t. value (take t d.pr_a) ≡ d.pr) e (value-low w) in
      let p-lt : d.pr < limb_base * limb_base =
        omega (arith, subst (λ t. d.pr < radix t) e w.pr-lt, radix_two) in
      let (z-lt, z-eq) =
        two_total d.pr (value xs + value ys) (omega (arith, cx.bound, cy.bound)) p-lt in
      rw p-eq (pair-Reduced e _ _ z-lt z-eq)

  pub add-Reduced :
      {xs ys : List ℕ}
      → Canonical d xs
      → Canonical d ys
      → Reduced d (value xs + value ys) (add d xs ys)
  unfolding add
  add-Reduced {xs = xs} {ys = ys} cx cy =
      if-elim (Reduced d (value xs + value ys)) (d.t == 2)
        (λ e. add_two-Reduced ((==_iff d.t 2).0 e) cx cy) (λ e. add_any-Reduced w cx cy)
