-- ===== src/Math/Modp/Encodes.antt =====
-- The residues that the arrays of Math/modp.h stand for.
use spdz_yao.Base.{
  true, false, ◌≡◌, ◌↔◌, refl, ℕ, ◌*◌, List, if◌then◌else◌, arith, Bool-cases, inl, inr,
}
use spdz_yao.Math.Limbs.{value, radix, value-injective}
use spdz_yao.Math.Congruence.{
  Congruent, of_eq, ◌and_so◌, times_right, times_both, cancel, canonical, reverse,
}
use spdz_yao.Math.ZpData.{ZpData}
use spdz_yao.Math.ZpData.WellFormed.{WellFormed, Canonical}

-- What Montgomery's form multiplies a residue by.
unfoldable pub factor : ZpData → ℕ
factor d = if d.montgomery then radix d.t else 1

pub factor_on : (d : ZpData) → d.montgomery ≡ true → factor d ≡ radix d.t
unfolding factor
factor_on d on = rw on refl

pub factor_off : (d : ZpData) → d.montgomery ≡ false → factor d ≡ 1
unfolding factor
factor_off d off = rw off refl

-- `xs` stands for `n`.
pub record Encodes (d : ZpData) (n : ℕ) (xs : List ℕ) : Type 0 where
  pub xs-Canonical : Canonical d xs
  pub n-Congruent : Congruent d.pr (value xs) (n * factor d)

module _ {d : ZpData} (w : WellFormed d) where
  factor_inverse : (inverse : ℕ) × Congruent d.pr (factor d * inverse) 1
  unfolding factor
  factor_inverse = elim (Bool-cases d.montgomery) [
    | inl on ↦
        rw on (let mont = w.montgomery-Montgomery on in (mont.inverse, mont.inverse-Congruent))
    | inr off ↦ rw off (1, of_eq refl)
  ]

  pub cancel_factor : {a b : ℕ} → Congruent d.pr (a * factor d) (b * factor d) → Congruent d.pr a b
  cancel_factor e = let (inverse, i) = factor_inverse in cancel (factor d) inverse i e

  -- Every array below the modulus stands for a residue.
  pub Canonical-Encodes : {xs : List ℕ} → Canonical d xs → (n : ℕ) × Encodes d n xs
  Canonical-Encodes {xs = xs} c =
      let (inverse, i) = factor_inverse in
      let back : Congruent d.pr (value xs) (value xs * inverse * factor d) =
        of_eq {b = value xs * 1} (omega arith)
        and_so times_both (of_eq refl) (reverse i)
        and_so of_eq (omega arith) in
      (value xs * inverse, record { xs-Canonical = c; n-Congruent = back })

  -- An array stands for one residue.
  pub encoded_unique :
      {a b : ℕ} {xs : List ℕ} → Encodes d a xs → Encodes d b xs → Congruent d.pr a b
  encoded_unique h k = cancel_factor (reverse h.n-Congruent and_so k.n-Congruent)

  -- Arrays stand for congruent residues exactly if their numbers are the same.
  pub value_iff :
      {a b : ℕ} {xs ys : List ℕ}
      → Encodes d a xs
      → Encodes d b ys
      → (value xs ≡ value ys) ↔ Congruent d.pr a b
  value_iff h k = (
    (λ e. cancel_factor (reverse h.n-Congruent and_so of_eq e and_so k.n-Congruent)),
    (λ e.
        canonical h.xs-Canonical.bound k.xs-Canonical.bound
          (h.n-Congruent and_so times_right (factor d) e and_so reverse k.n-Congruent)),
  )

  -- A residue has one array.
  pub encoding_unique :
      {a b : ℕ} {xs ys : List ℕ} → Encodes d a xs → Encodes d b ys → Congruent d.pr a b → xs ≡ ys
  encoding_unique h k e =
      value-injective h.xs-Canonical.limbs k.xs-Canonical.limbs ((value_iff h k).1 e)

  pub Encodes-cong : {a b : ℕ} {xs : List ℕ} → Encodes d a xs → Congruent d.pr a b → Encodes d b xs
  Encodes-cong h e = record {
    xs-Canonical = h.xs-Canonical;
    n-Congruent = h.n-Congruent and_so times_right (factor d) e;
  }
