-- ===== src/Math/Gfp.antt =====
-- Math/gfp.h: the class of field elements, each of which is an element of Math/modp.h with the state
-- that all share; and the operations that the shares of Math/Share.h take from it.
use mathlib.Core.Bool.{Bool-set}
use mathlib.Core.HLevel.{is_prop→PathP}
use mathlib.Core.Path.{subst}
use spdz_yao.Base.{
  Bool, true, false, ◌&&◌, ◌≡◌, refl, ap, ℕ, ◌==◌, ==_iff, ltb, ltb→lt, lt→ltb, List, [], ◌∷◌,
  length, arith,
}
use spdz_yao.Math.Limbs.{Limbs, empty, limb, value, limb_base, length-Limbs}
use spdz_yao.Math.Mpn.{Mpn}
use spdz_yao.Math.Value.{Value}
use spdz_yao.Math.ZpData.{ZpData}
use spdz_yao.Math.ZpData.WellFormed.{WellFormed, Canonical}
use spdz_yao.Math.Modp.{is_zero}
use spdz_yao.Math.Modp.Encodes.{Encodes, Canonical-Encodes}
use spdz_yao.Math.Modp.Arithmetic.{add-Encodes, sub-Encodes, mul-Encodes}
use spdz_yao.Math.Modp.Constants.{assign_zero-Encodes}
use spdz_yao.Math.Modp.Laws.{RingLaws, ring_laws, negate_self, difference_residue}

-- Every entry is a limb.
pub all_limbs : List ℕ → Bool
all_limbs [] = true
all_limbs (x ∷ xs) = ltb x limb_base && all_limbs xs

-- An array of `t` limbs below the prime.
pub canonical : ZpData → List ℕ → Bool
unfolding all_limbs value
canonical d xs = length xs == d.t && (all_limbs xs && ltb (value xs) d.pr)

and_true : (a b : Bool) → (a && b) ≡ true → (a ≡ true) × (b ≡ true)
and_true true b e = (refl, e)
and_true false b e = absurd (ground arith)

all_limbs-Limbs : (xs : List ℕ) → all_limbs xs ≡ true → Limbs (length xs) xs
unfolding all_limbs
all_limbs-Limbs [] e = empty
all_limbs-Limbs (x ∷ xs) e =
    let (h, k) = and_true (ltb x limb_base) (all_limbs xs) e in
    limb (ltb→lt x limb_base h) (all_limbs-Limbs xs k)

Limbs-all_limbs : {t : ℕ} {xs : List ℕ} → Limbs t xs → all_limbs xs ≡ true
unfolding all_limbs
Limbs-all_limbs empty = refl
Limbs-all_limbs (limb {x = x} h l) = rw (lt→ltb x limb_base h, Limbs-all_limbs l)

canonical-Canonical : {d : ZpData} (xs : List ℕ) → canonical d xs ≡ true → Canonical d xs
unfolding canonical
canonical-Canonical {d} xs e =
    let (size, rest) = and_true (length xs == d.t) _ e in
    let (limbs, bound) = and_true (all_limbs xs) _ rest in
    record {
      limbs = subst (λ t. Limbs t xs) ((==_iff (length xs) d.t).0 size) (all_limbs-Limbs xs limbs);
      bound = ltb→lt (value xs) d.pr bound;
    }

Canonical-canonical : {d : ZpData} {xs : List ℕ} → Canonical d xs → canonical d xs ≡ true
unfolding canonical
Canonical-canonical {d} {xs = xs} c = rw (
  (==_iff (length xs) d.t).1 (length-Limbs c.limbs),
  Limbs-all_limbs c.limbs,
  lt→ltb (value xs) d.pr c.bound,
)

-- An object of the class.
pub record Gfp (d : ZpData) : Type 0 where
  pub a : List ℕ
  pub valid : canonical d a ≡ true

pub Gfp-eq : {d : ZpData} (x y : Gfp d) → x.a ≡ y.a → x ≡ y
Gfp-eq {d} x y e = λ i. record {
  a = e i;
  valid =
      is_prop→PathP (λ i. canonical d (e i) ≡ true) (λ i. Bool-set (canonical d (e i)) true) x.valid
        y.valid i;
}

module _ ⦃m : Mpn⦄ {d : ZpData} (w : WellFormed d) where
  member : (x : Gfp d) → Canonical d x.a
  member x = canonical-Canonical x.a x.valid

  -- An element from an array that stands for a number.
  element : {n : ℕ} {xs : List ℕ} → Encodes d n xs → Gfp d
  element {xs = xs} h = record { a = xs; valid = Canonical-canonical h.xs-Canonical }

  residue_of : (x : Gfp d) → (n : ℕ) × Encodes d n x.a
  residue_of x = Canonical-Encodes w (member x)

  laws : (x y z : Gfp d) → RingLaws d x.a y.a z.a
  laws x y z = ring_laws w (member x) (member y) (member z)

  gfp_zero : Gfp d
  gfp_zero = element (assign_zero-Encodes w)

  gfp_add : Gfp d → Gfp d → Gfp d
  gfp_add x y = element (add-Encodes w (residue_of x).1 (residue_of y).1)

  gfp_sub : Gfp d → Gfp d → Gfp d
  gfp_sub x y = element (
      sub-Encodes w (residue_of x).1 (residue_of y).1
        (difference_residue w (residue_of x).0 (residue_of y).0))

  gfp_mul : Gfp d → Gfp d → Gfp d
  gfp_mul x y = element (mul-Encodes w (residue_of x).1 (residue_of y).1)

  gfp_negate : Gfp d → Gfp d
  gfp_negate x = element (negate_self w (residue_of x).1)

  -- What the templates of shares and of the check take from the class.
  instance pub gfp_value : Value (Gfp d)
  unfolding gfp_add gfp_sub gfp_mul gfp_negate gfp_zero element
  gfp_value = record {
    nil_value = gfp_zero;
    plus_value = gfp_add;
    minus_value = gfp_sub;
    times_value = gfp_mul;
    negate_value = gfp_negate;
    is_zero_value = λ x. is_zero d x.a;
    plus_assoc = λ x y z. Gfp-eq _ _ (laws x y z).add_assoc;
    plus_comm = λ x y. Gfp-eq _ _ (laws x y x).add_comm;
    plus_nil = λ x. Gfp-eq _ _ (laws x x x).add_zero;
    plus_negate = λ x. Gfp-eq _ _ (laws x x x).add-negate;
    minus_eq = λ x y. Gfp-eq _ _ (laws x y x).sub_eq;
    times_comm = λ x y. Gfp-eq _ _ (laws x y x).mul_comm;
    times_assoc = λ x y z. Gfp-eq _ _ (laws x y z).mul_assoc;
    times_plus = λ x y z. Gfp-eq _ _ (laws x y z).mul-add;
    is_zero_iff = λ x. (
      (λ e. Gfp-eq _ _ ((laws x x x).is_zero_eq.0 e)),
      (λ e. (laws x x x).is_zero_eq.1 (ap (λ (y : Gfp d). y.a) e)),
    );
  }
