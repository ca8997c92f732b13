-- ===== src/Math/Modp/Arithmetic.antt =====
-- The field operations of Math/modp.h on the residues that their arguments stand for.
use spdz_yao.Base.{
  true, false, ◌≡◌, refl, sym, ap, ◌∙◌, ℕ, ◌+◌, ◌-◌, ◌*◌, ◌%◌, ◌≤◌, List, take, if-elim, arith,
}
use mathlib.Core.Path.{subst}
use native.Mathlib.Nat.{mod-lt}
use spdz_yao.Math.Limbs.{value, radix}
use spdz_yao.Math.Mpn.{Mpn}
use spdz_yao.Math.Congruence.{
  Congruent, of_eq, of_multiples, ◌and_so◌, times_both, times_right, plus_both, cancel, canonical,
  reverse, mod-Congruent,
}
use spdz_yao.Math.ZpData.{ZpData, add, sub, mont_mult}
use spdz_yao.Math.ZpData.WellFormed.{WellFormed, low-Limbs, value-low}
use spdz_yao.Math.ZpData.Sums.{add-Reduced, sub-Reduced}
use spdz_yao.Math.ZpData.Mont.{mont_mult_lem}
use spdz_yao.Math.Modp.{mul, sqr}
use spdz_yao.Math.Modp.Encodes.{Encodes, factor, factor_on, factor_off}

-- The remainder of a difference, without subtraction.
pub difference :
    (p f a b c x y : ℕ)
    → y ≤ p
    → Congruent p x (a * f)
    → Congruent p y (b * f)
    → Congruent p (c + b) a
    → Congruent p (x + (p - y)) (c * f)
difference p f a b c x y h e g k =
    plus_both e (of_eq refl)
    and_so plus_both (times_right f (reverse k)) (of_eq refl)
    and_so of_eq {b = c * f + (b * f + (p - y))} (omega arith)
    and_so plus_both (of_eq refl) (plus_both (reverse g) (of_eq refl))
    and_so of_multiples 0 1 (omega arith)

module _ ⦃m : Mpn⦄ {d : ZpData} (w : WellFormed d) where
  pub add-Encodes :
      {a b : ℕ} {xs ys : List ℕ} → Encodes d a xs → Encodes d b ys → Encodes d (a + b) (add d xs ys)
  add-Encodes {a = a} {b = b} h k =
      let r = add-Reduced w h.xs-Canonical k.xs-Canonical in
      record {
        xs-Canonical = r.xs-Canonical;
        n-Congruent =
            r.n-Congruent and_so plus_both h.n-Congruent k.n-Congruent and_so of_eq (omega arith);
      }

  pub sub-Encodes :
      {a b c : ℕ} {xs ys : List ℕ}
      → Encodes d a xs
      → Encodes d b ys
      → Congruent d.pr (c + b) a
      → Encodes d c (sub d xs ys)
  sub-Encodes {a = a} {b = b} {c = c} {xs = xs} {ys = ys} h k e =
      let r = sub-Reduced w h.xs-Canonical k.xs-Canonical in
      record {
        xs-Canonical = r.xs-Canonical;
        n-Congruent =
            r.n-Congruent
            and_so difference d.pr (factor d) a b c (value xs) (value ys)
                (omega (arith, k.xs-Canonical.bound)) h.n-Congruent k.n-Congruent e;
      }

  -- A product of Montgomery's form.
  mont-Encodes :
      {a b : ℕ} {xs ys : List ℕ}
      → d.montgomery ≡ true
      → Encodes d a xs
      → Encodes d b ys
      → Encodes d (a * b) (mont_mult d xs ys)
  mont-Encodes {a = a} {b = b} {xs = xs} {ys = ys} on h k =
      let mont = w.montgomery-Montgomery on in
      let (canonical, same) = mont_mult_lem w mont h.xs-Canonical k.xs-Canonical in
      let f : factor d ≡ radix d.t = factor_on d on in
      let r = radix d.t in
      record {
        xs-Canonical = canonical;
        n-Congruent =
            subst (λ f. Congruent d.pr (value (mont_mult d xs ys)) (a * b * f)) (sym f)
              (cancel r mont.inverse mont.inverse-Congruent (
                of_eq {b = r * value (mont_mult d xs ys)} (omega arith)
                and_so same
                and_so times_both (subst (λ f. Congruent d.pr (value xs) (a * f)) f h.n-Congruent)
                    (subst (λ f. Congruent d.pr (value ys) (b * f)) f k.n-Congruent)
                and_so of_eq (omega arith)));
      }

  tdiv-Encodes :
      {a b : ℕ} {xs ys : List ℕ}
      → d.montgomery ≡ false
      → Encodes d a xs
      → Encodes d b ys
      → Encodes d (a * b) (m.mpn_tdiv_qr (m.mpn_mul_n xs ys d.t) (d.t + d.t) (take d.t d.pr_a) d.t)
  tdiv-Encodes {a = a} {b = b} {xs = xs} {ys = ys} off h k =
      let f : factor d ≡ 1 = factor_off d off in
      let product = m.mul_n-Limbs h.xs-Canonical.limbs k.xs-Canonical.limbs in
      let big : radix w.below ≤ value (take d.t d.pr_a) = rw (value-low w) w.pr_big in
      let v =
        m.value-tdiv_qr product (low-Limbs w) w.t-suc big
        ∙ ap (λ p. value (m.mpn_mul_n xs ys d.t) % p) (value-low w)
        ∙ ap (λ n. n % d.pr) (m.value-mul_n h.xs-Canonical.limbs k.xs-Canonical.limbs) in
      record {
        xs-Canonical = record {
          limbs = m.tdiv_qr-Limbs product (low-Limbs w) w.t-suc big;
          bound = rw v (mod-lt (value xs * value ys) (omega (arith, w.one-lt)));
        };
        n-Congruent =
            of_eq v
            and_so mod-Congruent (value xs * value ys)
            and_so times_both h.n-Congruent k.n-Congruent
            and_so of_eq (ap (λ f. a * f * (b * f)) f ∙ omega arith ∙ ap (λ f. a * b * f) (sym f));
      }

  pub mul-Encodes :
      {a b : ℕ} {xs ys : List ℕ} → Encodes d a xs → Encodes d b ys → Encodes d (a * b) (mul d xs ys)
  unfolding mul
  mul-Encodes {a = a} {b = b} h k =
      if-elim (Encodes d (a * b)) d.montgomery (λ on. mont-Encodes on h k)
        (λ off. tdiv-Encodes off h k)

  pub sqr-Encodes : {a : ℕ} {xs : List ℕ} → Encodes d a xs → Encodes d (a * a) (sqr d xs)
  unfolding sqr
  sqr-Encodes {a = a} {xs = xs} h =
      if-elim (Encodes d (a * a)) d.montgomery (λ on. mont-Encodes on h h)
        (λ off. rw (m.sqr_lem h.xs-Canonical.limbs) (tdiv-Encodes off h h))
