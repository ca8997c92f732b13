-- ===== src/Math/ZpData/Mont.antt =====
-- `Mont_Mult` of Math/Zp_Data.cpp on residues.
use mathlib.Core.Path.{subst}
use native.Mathlib.Nat.{mul-le-mul, mod-lt, mod-eq_of_lt}
use spdz_yao.Base.{
  ◌≡◌, refl, sym, ap, ◌∙◌, ℕ, suc, ◌+◌, ◌-◌, ◌*◌, ◌%◌, ◌≤◌, ◌<◌, leb, List, take, drop, get_or,
  arith, if-elim, if◌then◌else◌, leb→le,
}
use spdz_yao.Math.Limbs.{
  Limbs, empty, limb, value, radix, limb_base, radix-zero, radix_one, radix-suc, value-lt,
  Limbs-take, take-Limbs, value-top, value-take,
}
use spdz_yao.Math.Mpn.{Mpn, Holds}
use spdz_yao.Math.Congruence.{
  Congruent, of_multiples, of_eq, ◌and_so◌, times_both, plus_both, mod-Congruent,
}
use spdz_yao.Math.ZpData.{ZpData, reduce, mont_first, mont_round, mont_rounds, mont_mult, at_least}
use spdz_yao.Math.ZpData.Reduce.{reduce_lem, first-Congruent, carry-lt}
use spdz_yao.Math.ZpData.Sums.{subtract_once}
use spdz_yao.Math.ZpData.WellFormed.{
  WellFormed, Montgomery, Canonical, low-Limbs, value-low, at_least-compare,
}

times-le : (a : ℕ) {b c : ℕ} → b < suc c → a * b ≤ a * c
times-le a h = mul-le-mul {n₁ = a} (omega arith) (omega arith)

-- The limbs from `ans+i+1` after `s` passes: their number times the powers of the base is congruent
-- to `n`.
pub record Window (d : ZpData) (s y n : ℕ) (ans : List ℕ) : Type 0 where
  pub limbs : Limbs (suc d.t) ans
  pub bound : value ans < d.pr + y
  pub n-Congruent : Congruent d.pr (radix s * value ans) n

module _ ⦃m : Mpn⦄ {d : ZpData} (w : WellFormed d) (mont : Montgomery d) where
  reduce-Window :
      {low : List ℕ} {top n s y : ℕ}
      → Limbs d.t low
      → top < limb_base
      → value low + radix d.t * top ≡ n
      → Congruent limb_base s n
      → n < d.pr + limb_base * y
      → Window d 1 y n (reduce d low top ((s * d.pi) % limb_base))
  reduce-Window {low = low} {top = top} {n = n} {s = s} {y = y} l h e c b =
      let u = (s * d.pi) % limb_base in
      let (limbs, total) = reduce_lem w mont l h e c in
      record {
        limbs = limbs;
        bound = omega (
          arith,
          total,
          b,
          times-le d.pr {b = u} {c = limb_base - 1} (mod-lt (s * d.pi) (omega arith)),
        );
        n-Congruent = of_multiples 0 u (
            omega (
              arith,
              total,
              radix-suc 0,
              radix-zero,
              radix_one,
              ap (λ r. r * value (reduce d low top u)) radix_one,
            ));
      }

  first-Window :
      {ys : List ℕ} (x : ℕ)
      → x < limb_base
      → Canonical d ys
      → Window d 1 (value ys) (value ys * x) (mont_first d x ys)
  unfolding mont_first
  first-Window {ys = ys} x h cy =
      let holds : Holds d.t (value ys * x) (m.mpn_mul_1 ys d.t x) = m.mul_1_lem x cy.limbs h in
      let y-le = times-le (value ys) {b = x} {c = limb_base - 1} h in
      reduce-Window holds.limbs-Limbs
        (carry-lt (radix d.t) _ _ _ holds.total (omega (arith, y-le, w.pr-lt, cy.bound)))
        holds.total
        (mod-Congruent (x * get_or ys 0 0)
          and_so times_both {d = value ys} (of_eq refl) (first-Congruent cy.limbs)
          and_so of_eq (omega arith))
        (omega (arith, y-le, w.one-lt))

  round-Window :
      {ans ys : List ℕ} {n s : ℕ} (x : ℕ)
      → x < limb_base
      → Canonical d ys
      → Window d s (value ys) n ans
      → Window d 1 (value ys) (value ans + value ys * x) (mont_round d ans x ys)
  unfolding mont_round
  round-Window {ans = ans} {ys = ys} x h cy q =
      let low = m.mpn_addmul_1 (take d.t ans) ys d.t x in
      let holds : Holds d.t (value (take d.t ans) + value ys * x) low =
        m.addmul_1_lem x (Limbs-take q.limbs (omega arith)) cy.limbs h in
      let y-le = times-le (value ys) {b = x} {c = limb_base - 1} h in
      let top = get_or ans d.t 0 + low.carry in
      let total : value low.limbs + radix d.t * top ≡ value ans + value ys * x =
        omega (arith, holds.total, value-top q.limbs) in
      let top-lt : top < limb_base =
        carry-lt (radix d.t) (value low.limbs) top _ total
          (omega (arith, y-le, q.bound, cy.bound, mont.room, radix-suc d.t)) in
      rw (mod-eq_of_lt top-lt) (
        reduce-Window holds.limbs-Limbs top-lt total
          (mod-Congruent (get_or ans 0 0 + x * get_or ys 0 0)
            and_so plus_both {d = x * value ys} (first-Congruent q.limbs)
                (times_both {d = value ys} (of_eq refl) (first-Congruent cy.limbs))
            and_so of_eq (omega arith))
          (omega (arith, y-le, q.bound)))

  rounds-Window :
      {s : ℕ} {xs : List ℕ} (l : Limbs s xs) {ys : List ℕ} (cy : Canonical d ys) {ans : List ℕ}
      {n k : ℕ}
      → Window d k (value ys) n ans
      → Window d s (value ys) (value ans + value ys * value xs) (mont_rounds d ans xs ys)
  unfolding mont_rounds value
  rounds-Window empty cy {ans = ans} q = record {
    limbs = q.limbs;
    bound = q.bound;
    n-Congruent = of_eq (omega (arith, ap (λ r. r * value ans) radix-zero));
  }
  rounds-Window (limb {t = t} {x = x} {xs = xs} h l) {ys = ys} cy {ans = ans} q =
      let q' = round-Window x h cy q in
      let r = rounds-Window l cy q' in
      let z = value (mont_rounds d (mont_round d ans x ys) xs ys) in
      let a' = value (mont_round d ans x ys) in
      record {
        limbs = r.limbs;
        bound = r.bound;
        n-Congruent =
            of_eq {b = limb_base * (radix t * z)} (omega (arith, ap (λ r. r * z) (radix-suc t)))
            and_so times_both {a = limb_base} (of_eq refl) r.n-Congruent
            and_so of_eq {b = radix 1 * a' + value ys * (limb_base * value xs)}
                (omega (arith, ap (λ r. r * a') radix_one))
            and_so plus_both q'.n-Congruent (of_eq refl)
            and_so of_eq (omega arith);
      }

  loops-Window :
      {t : ℕ} {xs ys : List ℕ}
      → Limbs (suc t) xs
      → Canonical d ys
      → Window d
          (suc t)
          (value ys)
          (value ys * value xs)
          (mont_rounds d (mont_first d (get_or xs 0 0) ys) (drop 1 (take (suc t) xs)) ys)
  unfolding value
  loops-Window {t = t} {ys = ys} (limb {x = x} {xs = xs} h l) cy =
      let first = first-Window x h cy in
      let r = rounds-Window l cy first in
      let a = value (mont_first d x ys) in
      let z = value (mont_rounds d (mont_first d x ys) xs ys) in
      rw (take-Limbs l) (record {
        limbs = r.limbs;
        bound = r.bound;
        n-Congruent =
            of_eq {b = limb_base * (radix t * z)} (omega (arith, ap (λ r. r * z) (radix-suc t)))
            and_so times_both {a = limb_base} (of_eq refl) r.n-Congruent
            and_so of_eq {b = radix 1 * a + value ys * (limb_base * value xs)}
                (omega (arith, ap (λ r. r * a) radix_one))
            and_so plus_both first.n-Congruent (of_eq refl)
            and_so of_eq (omega arith);
      })

  -- The subtraction after the loops.
  last-Canonical :
      {ans : List ℕ} {s y n : ℕ}
      → y < d.pr
      → Window d s y n ans
      → let z =
          if leb d.pr (value ans)
          then (m.mpn_sub_n (take d.t ans) (take d.t d.pr_a) d.t).limbs
          else take d.t ans in
        Canonical d z × Congruent d.pr (radix s * value z) n
  last-Canonical {ans = ans} {s = s} {n = n} h q =
      let low : Limbs d.t (take d.t ans) = Limbs-take q.limbs (omega arith) in
      let diff = m.mpn_sub_n (take d.t ans) (take d.t d.pr_a) d.t in
      let diff-Limbs : Limbs d.t diff.limbs = m.sub_n-Limbs low (low-Limbs w) in
      if-elim (λ z. Canonical d z × Congruent d.pr (radix s * value z) n) (leb d.pr (value ans))
        (λ e.
          let once : value diff.limbs + d.pr ≡ value ans =
            subtract_once d.pr (value ans) (value (take d.t ans)) (get_or ans d.t 0)
              (value diff.limbs) diff.carry (radix d.t) (sym (value-top q.limbs))
              (ap (λ p. value diff.limbs + p) (sym (value-low w)) ∙ m.sub_n_total low (low-Limbs w))
              (leb→le d.pr (value ans) e) (omega (arith, q.bound, h)) w.pr-lt
              (value-lt diff-Limbs) in
          (
            record { limbs = diff-Limbs; bound = omega (arith, once, q.bound, h) },
            of_multiples (radix s) 0 (omega (arith, ap (λ v. radix s * v) once))
                and_so q.n-Congruent,
          ))
        (λ e.
          let lt : value ans < d.pr = ground arith in
          let v : value (take d.t ans) ≡ value ans =
            value-take q.limbs (omega (arith, lt, w.pr-lt)) in
          (record { limbs = low; bound = rw v lt }, rw v q.n-Congruent))

  -- In a well formed state whose modulus has the inverses and leaves the room that Montgomery's form
  -- asks for, `Mont_Mult` of two arrays below the modulus is an array below the modulus, and times the
  -- power of the base that its passes divide by it is congruent to their product.
  pub mont_mult_lem :
      {xs ys : List ℕ}
      → Canonical d xs
      → Canonical d ys
      → Canonical d (mont_mult d xs ys)
        × Congruent d.pr (radix d.t * value (mont_mult d xs ys)) (value xs * value ys)
  unfolding mont_mult
  mont_mult_lem {xs = xs} {ys = ys} cx cy =
      let ans = mont_rounds d (mont_first d (get_or xs 0 0) ys) (drop 1 (take d.t xs)) ys in
      let q : Window d d.t (value ys) (value ys * value xs) ans =
        subst
          (λ t.
            Limbs t xs
            → Window d t (value ys) (value ys * value xs)
                (mont_rounds d (mont_first d (get_or xs 0 0) ys) (drop 1 (take t xs)) ys))
          (sym w.t-suc) (λ l. loops-Window l cy) cx.limbs in
      let test : at_least (m.mpn_cmp ans d.pr_a (suc d.t)) ≡ leb d.pr (value ans) =
        ap at_least (m.cmp_lem q.limbs w.pr_a-Limbs)
        ∙ at_least-compare (value ans) (value d.pr_a)
        ∙ ap (λ p. leb p (value ans)) w.value-pr_a in
      let (canonical, same) = last-Canonical cy.bound q in
      rw test (canonical, same and_so of_eq (omega arith))
