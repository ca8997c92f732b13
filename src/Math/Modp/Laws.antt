-- ===== src/Math/Modp/Laws.antt =====
-- The laws of a commutative ring for the operations of Math/modp.h, as equations between arrays.
use spdz_yao.Base.{true, ◌≡◌, ◌↔◌, refl, sym, ℕ, ◌+◌, ◌-◌, ◌%◌, List, arith}
use mathlib.Core.Path.{subst}
use native.Mathlib.Nat.{mod-lt}
use spdz_yao.Math.Mpn.{Mpn}
use spdz_yao.Math.Congruence.{
  Congruent, of_eq, of_multiples, ◌and_so◌, plus_both, mod-Congruent, reverse,
}
use spdz_yao.Math.ZpData.{ZpData, add, sub}
use spdz_yao.Math.ZpData.WellFormed.{WellFormed, Canonical}
use spdz_yao.Math.Modp.{mul, negate, assign_zero, assign_one, is_zero}
use spdz_yao.Math.Modp.Encodes.{Encodes, Canonical-Encodes, encoding_unique, encoded_unique}
use spdz_yao.Math.Modp.Arithmetic.{add-Encodes, sub-Encodes, mul-Encodes}
use spdz_yao.Math.Modp.Constants.{
  negate-Encodes, assign_zero-Encodes, assign_one-Encodes, is_zero_iff,
}

-- What makes Math/modp.h a field without inverses: equations at three elements.
pub record RingLaws ⦃m : Mpn⦄ (d : ZpData) (x y z : List ℕ) : Type 0 where
  pub add_assoc : add d (add d x y) z ≡ add d x (add d y z)
  pub add_comm : add d x y ≡ add d y x
  pub add_zero : add d x (assign_zero d) ≡ x
  pub add-negate : add d x (negate d x) ≡ assign_zero d
  pub sub_eq : sub d x y ≡ add d x (negate d y)
  pub mul_comm : mul d x y ≡ mul d y x
  pub mul_assoc : mul d (mul d x y) z ≡ mul d x (mul d y z)
  pub mul_one : mul d x (assign_one d) ≡ x
  pub mul-add : mul d x (add d y z) ≡ add d (mul d x y) (mul d x z)
  pub is_zero_eq : (is_zero d x ≡ true) ↔ (x ≡ assign_zero d)

module _ ⦃m : Mpn⦄ {d : ZpData} (w : WellFormed d) where
  -- What `negate` stands for.
  opposite_residue : (a : ℕ) → Congruent d.pr ((d.pr - a % d.pr) + a) 0
  opposite_residue a =
      plus_both {b = a} {d = a % d.pr} (of_eq refl) (reverse (mod-Congruent a))
      and_so of_multiples 0 1 (omega (arith, mod-lt a {m = d.pr} (omega (arith, w.one-lt))))

  pub negate_self : {a : ℕ} {x : List ℕ} → Encodes d a x → Encodes d (d.pr - a % d.pr) (negate d x)
  negate_self {a = a} h = negate-Encodes w h (opposite_residue a)

  -- What `sub` stands for.
  pub difference_residue : (a b : ℕ) → Congruent d.pr (a + (d.pr - b % d.pr) + b) a
  difference_residue a b =
      of_eq {b = a + ((d.pr - b % d.pr) + b)} (omega arith)
      and_so plus_both (of_eq refl) (opposite_residue b)
      and_so of_eq (omega arith)

  -- In a well formed state, with or without Montgomery's form, the operations of Math/modp.h on
  -- arrays below the prime satisfy the laws of a commutative ring, as equations of arrays.
  pub ring_laws :
      {x y z : List ℕ} → Canonical d x → Canonical d y → Canonical d z → RingLaws d x y z
  ring_laws {x = x} {y = y} {z = z} cx cy cz =
      let (a, hx) = Canonical-Encodes w cx in
      let (b, hy) = Canonical-Encodes w cy in
      let (c, hz) = Canonical-Encodes w cz in
      let zero = assign_zero-Encodes w in
      let nx = negate_self hx in
      let ny = negate_self hy in
      record {
        add_assoc =
            encoding_unique w (add-Encodes w (add-Encodes w hx hy) hz)
              (add-Encodes w hx (add-Encodes w hy hz)) (of_eq (omega arith));
        add_comm =
            encoding_unique w (add-Encodes w hx hy) (add-Encodes w hy hx) (of_eq (omega arith));
        add_zero = encoding_unique w (add-Encodes w hx zero) hx (of_eq (omega arith));
        add-negate =
            encoding_unique w (add-Encodes w hx nx) zero
              (of_eq (omega arith) and_so opposite_residue a);
        sub_eq =
            encoding_unique w (sub-Encodes w hx hy (difference_residue a b)) (add-Encodes w hx ny)
              (of_eq refl);
        mul_comm =
            encoding_unique w (mul-Encodes w hx hy) (mul-Encodes w hy hx) (of_eq (omega arith));
        mul_assoc =
            encoding_unique w (mul-Encodes w (mul-Encodes w hx hy) hz)
              (mul-Encodes w hx (mul-Encodes w hy hz)) (of_eq (omega arith));
        mul_one =
            encoding_unique w (mul-Encodes w hx (assign_one-Encodes w)) hx (of_eq (omega arith));
        mul-add =
            encoding_unique w (mul-Encodes w hx (add-Encodes w hy hz))
              (add-Encodes w (mul-Encodes w hx hy) (mul-Encodes w hx hz)) (of_eq (omega arith));
        is_zero_eq = (
          (λ e. encoding_unique w hx zero ((is_zero_iff w hx).0 e)),
          (λ e.
              (is_zero_iff w hx).1 (encoded_unique w hx (subst (λ l. Encodes d 0 l) (sym e) zero))),
        );
      }
