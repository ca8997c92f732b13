-- ===== src/Math/Modp/Constants.antt =====
-- The constants, the opposite and the tests of Math/modp.h and Math/modp.cpp.
use Prim.Native.Nat.{compare}
use mathlib.Core.Path.{subst}
use native.Mathlib.Nat.{mod-lt}
use spdz_yao.Base.{
  Bool, true, false, ◌&&◌, ◌≡◌, ◌↔◌, refl, ap, ◌∙◌, ℕ, zero, suc, ◌+◌, ◌-◌, ◌*◌, ◌<◌, ◌==◌, ==_iff,
  List, ◌∷◌, take, drop, get_or, replicate, if-elim, arith,
}
use spdz_yao.Math.Limbs.{
  Limbs, empty, limb, value, radix, limb_base, replicate-Limbs, value-replicate, take-Limbs,
  value-lt,
}
use spdz_yao.Math.Mpn.{Mpn}
use spdz_yao.Math.Congruence.{Congruent, of_eq, ◌and_so◌, plus_both, reverse, mod-Congruent}
use spdz_yao.Math.ZpData.{ZpData}
use spdz_yao.Math.ZpData.WellFormed.{WellFormed, Canonical, low-Limbs, value-low}
use spdz_yao.Math.Modp.{
  negate, is_zero, zeros, assign_zero, assign_one, single, are_equal, is_one, no_difference,
}
use spdz_yao.Math.Modp.Encodes.{Encodes, factor, factor_on, factor_off, value_iff, Encodes-cong}
use spdz_yao.Math.Modp.Arithmetic.{difference}

zeros-value : {t : ℕ} {xs : List ℕ} → Limbs t xs → zeros t xs ≡ (value xs == 0)
unfolding zeros value
zeros-value empty = ground arith
zeros-value (limb {x = x} {xs = xs} h l) = ap (λ b. x == 0 && b) (zeros-value l) ∙ ground arith

no_difference_iff : (a b : ℕ) → (no_difference (compare a b) ≡ true) ↔ (a ≡ b)
unfolding no_difference
no_difference_iff a b = ground arith

iff_of_eq {ℓ} : {P : Type ℓ} {a b : Bool} → a ≡ b → (b ≡ true) ↔ P → (a ≡ true) ↔ P
iff_of_eq e f = rw e f

-- A difference of residues that borrows nothing.
no_borrow : (p x z b R : ℕ) → z + x ≡ p + R * b → x < p → z < R → z ≡ p - x
no_borrow p x z zero R e h k = omega arith
no_borrow p x z (suc b) R e h k = absurd (omega arith)

-- Equivalences, composed.
iff_trans {ℓ κ μ} : {A : Type ℓ} {B : Type κ} {C : Type μ} → A ↔ B → B ↔ C → A ↔ C
iff_trans f g = ((λ a. g.0 (f.0 a)), (λ c. f.1 (g.1 c)))

single-Limbs : {t b : ℕ} (n : ℕ) → t ≡ suc b → n < limb_base → Limbs t (n ∷ replicate (t - 1) 0)
single-Limbs {b = b} n e h =
    rw e (subst (λ k. Limbs (suc b) (n ∷ replicate k 0)) (minus_one b) (limb h (replicate-Limbs b)))
  where
    minus_one : (b : ℕ) → b ≡ suc b - 1
    minus_one b = omega arith

module _ {d : ZpData} (w : WellFormed d) where
  pub single-Canonical : (n : ℕ) → n < limb_base → n < d.pr → Canonical d (single d n)
  unfolding single value
  single-Canonical n h k = record {
    limbs = single-Limbs n w.t-suc h;
    bound = omega (arith, value-replicate (d.t - 1), k);
  }

  pub value-single : (n : ℕ) → value (single d n) ≡ n
  unfolding single value
  value-single n = omega (arith, value-replicate (d.t - 1))

  value-assign_zero : value (assign_zero d) ≡ 0
  unfolding assign_zero
  value-assign_zero = value-replicate d.t

  pub assign_zero-Encodes : Encodes d 0 (assign_zero d)
  unfolding assign_zero
  assign_zero-Encodes = record {
    xs-Canonical = record {
      limbs = replicate-Limbs d.t;
      bound = omega (arith, value-replicate d.t, w.one-lt);
    };
    n-Congruent = of_eq (omega (arith, value-replicate d.t));
  }

  -- `R` is Montgomery's form of one.
  r-Encodes : d.montgomery ≡ true → Encodes d 1 d.r
  r-Encodes on =
      let mont = w.montgomery-Montgomery on in
      record {
        xs-Canonical = record {
          limbs = mont.r-Limbs;
          bound = rw mont.value-r (mod-lt (radix d.t) (omega (arith, w.one-lt)));
        };
        n-Congruent =
            of_eq mont.value-r
            and_so mod-Congruent (radix d.t)
            and_so of_eq (omega (arith, factor_on d on));
      }

  single-Encodes : d.montgomery ≡ false → Encodes d 1 (single d 1)
  single-Encodes off = record {
    xs-Canonical = single-Canonical 1 (omega arith) w.one-lt;
    n-Congruent = of_eq (omega (arith, value-single 1, factor_off d off));
  }

  pub assign_one-Encodes : Encodes d 1 (assign_one d)
  unfolding assign_one
  assign_one-Encodes =
      if-elim (Encodes d 1) d.montgomery
        (λ on. rw (take-Limbs (w.montgomery-Montgomery on).r-Limbs) (r-Encodes on)) single-Encodes

  pub is_zero_iff :
      {a : ℕ} {xs : List ℕ} → Encodes d a xs → (is_zero d xs ≡ true) ↔ Congruent d.pr a 0
  unfolding is_zero
  is_zero_iff {a = a} {xs = xs} h =
      iff_trans (iff_of_eq (zeros-value h.xs-Canonical.limbs) (==_iff (value xs) 0)) (
        subst (λ n. (value xs ≡ n) ↔ Congruent d.pr a 0) value-assign_zero
          (value_iff w h assign_zero-Encodes))

module _ ⦃m : Mpn⦄ {d : ZpData} (w : WellFormed d) where
  pub negate-Encodes :
      {a c : ℕ} {xs : List ℕ}
      → Encodes d a xs
      → Congruent d.pr (c + a) 0
      → Encodes d c (negate d xs)
  unfolding negate is_zero
  negate-Encodes {a = a} {c = c} {xs = xs} h e =
      if-elim (Encodes d c) (is_zero d xs)
        (λ z.
          let a-zero : Congruent d.pr a 0 = (is_zero_iff w h).0 z in
          Encodes-cong w h (
            a-zero
            and_so reverse e
            and_so plus_both (of_eq refl) a-zero
            and_so of_eq (omega arith)))
        (λ z.
          let l = m.sub_n-Limbs (low-Limbs w) h.xs-Canonical.limbs in
          let v : value (m.mpn_sub_n (take d.t d.pr_a) xs d.t).limbs ≡ d.pr - value xs =
            no_borrow d.pr (value xs) _ _ (radix d.t)
              (m.sub_n_total (low-Limbs w) h.xs-Canonical.limbs
                ∙ ap (λ p. p + radix d.t * (m.mpn_sub_n (take d.t d.pr_a) xs d.t).carry)
                    (value-low w))
              h.xs-Canonical.bound (value-lt l) in
          let some-value : 0 < value xs = ground (arith, zeros-value h.xs-Canonical.limbs) in
          record {
            xs-Canonical = record { limbs = l; bound = omega (arith, v, some-value, w.one-lt) };
            n-Congruent =
                of_eq {b = 0 + (d.pr - value xs)} (omega (arith, v))
                and_so difference d.pr (factor d) 0 a c 0 (value xs)
                    (omega (arith, h.xs-Canonical.bound)) (of_eq (omega arith)) h.n-Congruent e;
          })

  pub are_equal_iff :
      {a b : ℕ} {xs ys : List ℕ}
      → Encodes d a xs
      → Encodes d b ys
      → (are_equal d xs ys ≡ true) ↔ Congruent d.pr a b
  unfolding are_equal
  are_equal_iff {xs = xs} {ys = ys} h k =
      rw (m.cmp_lem h.xs-Canonical.limbs k.xs-Canonical.limbs)
        (iff_trans (no_difference_iff (value xs) (value ys)) (value_iff w h k))

  one_test :
      {t b : ℕ} {xs : List ℕ}
      → t ≡ suc b
      → Limbs t xs
      → (get_or xs 0 0 == 1 && zeros (t - 1) (drop 1 xs)) ≡ (value xs == 1)
  unfolding value
  one_test e empty = absurd (omega arith)
  one_test e (limb {t = t} {x = x} {xs = xs} h l) =
      ap (λ n. x == 1 && zeros n xs) minus_one
      ∙ ap (λ b. x == 1 && b) (zeros-value l)
      ∙ ground arith
    where
      minus_one : suc t - 1 ≡ t
      minus_one = omega arith

  pub is_one_iff :
      {a : ℕ} {xs : List ℕ} → Encodes d a xs → (is_one d xs ≡ true) ↔ Congruent d.pr a 1
  unfolding is_one
  is_one_iff {a = a} {xs = xs} h =
      if-elim (λ b. (b ≡ true) ↔ Congruent d.pr a 1) d.montgomery
        (λ on.
          let mont = w.montgomery-Montgomery on in
          rw (m.cmp_lem h.xs-Canonical.limbs mont.r-Limbs)
            (iff_trans (no_difference_iff (value xs) (value d.r)) (value_iff w h (r-Encodes w on))))
        (λ off.
          iff_trans (iff_of_eq (one_test w.t-suc h.xs-Canonical.limbs) (==_iff (value xs) 1)) (
            subst (λ n. (value xs ≡ n) ↔ Congruent d.pr a 1) (value-single w 1)
              (value_iff w h (single-Encodes w off))))
