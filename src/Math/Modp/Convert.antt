-- ===== src/Math/Modp/Convert.antt =====
-- `to_modp`, `convert_destroy` and `to_bigint` of Math/modp.cpp.
use native.Mathlib.Nat.{mod-lt, mod-eq_of_lt, mod_self}
use spdz_yao.Base.{
  false, ◌≡◌, sym, ap, ◌∙◌, ℕ, zero, suc, ◌-◌, ◌*◌, ◌%◌, ◌<◌, ◌==◌, List, if◌then◌else◌, if-elim,
  arith,
}
use spdz_yao.Math.Integer.{ℤ, pos, negsuc}
use spdz_yao.Math.Limbs.{value, radix}
use spdz_yao.Math.Mpn.{Mpn}
use spdz_yao.Math.Congruence.{
  of_eq, ◌and_so◌, times_both, times_right, cancel, canonical, reverse, mod-Congruent,
}
use spdz_yao.Math.ZpData.{ZpData, mont_mult, padded}
use spdz_yao.Math.ZpData.Init.{padded-Limbs, value-padded}
use spdz_yao.Math.ZpData.Mont.{mont_mult_lem}
use spdz_yao.Math.ZpData.WellFormed.{WellFormed, Canonical}
use spdz_yao.Math.Modp.{single, enter, convert_destroy, to_bigint}
use spdz_yao.Math.Modp.Encodes.{Encodes, factor_on, factor_off}
use spdz_yao.Math.Modp.Constants.{single-Canonical, value-single}

-- The residue of an integer.
unfoldable pub residue : ZpData → ℤ → ℕ
residue d (pos n) = n % d.pr
residue d (negsuc n) = (d.pr - suc n % d.pr) % d.pr

-- What `convert_destroy` adds to a negative remainder.
opposite_rest :
    (p rest : ℕ)
    → rest < p
    → let n = (if rest == 0 then 0 else p - rest) in (n < p) × (n ≡ (p - rest) % p)
opposite_rest p zero h = (omega arith, sym (ap (λ n. n % p) minus_zero ∙ mod_self p))
  where
    minus_zero : p - 0 ≡ p
    minus_zero = omega arith
opposite_rest p (suc rest) h =
    let lt : p - suc rest < p = omega arith in
    let e : (suc rest == 0) ≡ false = ground arith in rw e (lt, sym (mod-eq_of_lt lt))

module _ ⦃m : Mpn⦄ {d : ZpData} (w : WellFormed d) where
  -- Montgomery's form of a residue is its product with `R2`.
  pub enter-Encodes :
      {n : ℕ} {xs : List ℕ} → Canonical d xs → value xs ≡ n → Encodes d n (enter d xs)
  unfolding enter
  enter-Encodes {n = n} {xs = xs} c e =
      if-elim (Encodes d n) d.montgomery
        (λ on.
          let mont = w.montgomery-Montgomery on in
          let r = radix d.t in
          let r2-Canonical : Canonical d d.r2 = record {
            limbs = mont.r2-Limbs;
            bound = rw mont.value-r2 (mod-lt (r * r) (omega (arith, w.one-lt)));
          } in
          let (canonical, same) = mont_mult_lem w mont c r2-Canonical in
          record {
            xs-Canonical = canonical;
            n-Congruent = rw (factor_on d on) (
                cancel r mont.inverse mont.inverse-Congruent (
                  of_eq {b = r * value (mont_mult d xs d.r2)} (omega arith)
                  and_so same
                  and_so times_both (of_eq e) (of_eq mont.value-r2 and_so mod-Congruent (r * r))
                  and_so of_eq (omega arith)));
          })
        (λ off. record {
          xs-Canonical = c;
          n-Congruent = rw (factor_off d off) (of_eq (omega (arith, e)));
        })

  padded-Canonical : (n : ℕ) → n < d.pr → Canonical d (padded d.t n)
  padded-Canonical n h = record {
    limbs = padded-Limbs d.t n (omega (arith, w.pr-lt));
    bound = rw (value-padded d.t n) h;
  }

  pub convert_destroy-Encodes : (z : ℤ) → Encodes d (residue d z) (convert_destroy d z)
  unfolding convert_destroy residue
  convert_destroy-Encodes (pos n) =
      enter-Encodes (padded-Canonical _ (mod-lt n (omega (arith, w.one-lt)))) (value-padded d.t _)
  convert_destroy-Encodes (negsuc n) =
      let rest = suc n % d.pr in
      let rest-lt : rest < d.pr = mod-lt (suc n) (omega (arith, w.one-lt)) in
      let (lt, same) = opposite_rest d.pr rest rest-lt in
      enter-Encodes (padded-Canonical _ lt) (value-padded d.t _ ∙ same)

  pub to_bigint-Encodes : {n : ℕ} {xs : List ℕ} → Encodes d n xs → to_bigint d xs ≡ n % d.pr
  unfolding to_bigint
  to_bigint-Encodes {n = n} {xs = xs} h =
      let n-lt : n % d.pr < d.pr = mod-lt n (omega (arith, w.one-lt)) in
      if-elim (λ z. value z ≡ n % d.pr) d.montgomery
        (λ on.
          let mont = w.montgomery-Montgomery on in
          let r = radix d.t in
          let (c, same) =
            mont_mult_lem w mont h.xs-Canonical (single-Canonical w 1 (omega arith) w.one-lt) in
          let z = value (mont_mult d xs (single d 1)) in
          canonical c.bound n-lt (
            cancel r mont.inverse mont.inverse-Congruent (
              of_eq {b = r * z} (omega arith)
              and_so same
              and_so times_both h.n-Congruent (of_eq (value-single w 1))
              and_so of_eq {b = n * r} (rw (factor_on d on) (omega arith))
              and_so times_right r (reverse (mod-Congruent n)))))
        (λ off. canonical h.xs-Canonical.bound n-lt (
          h.n-Congruent
          and_so of_eq (rw (factor_off d off) (omega arith))
          and_so reverse (mod-Congruent n)))
