-- ===== src/Math/Modp/Power.antt =====
-- `Power` of Math/modp.cpp.
use native.Mathlib.Nat.{pow-suc, pow-zero}
use spdz_yao.Base.{
  false, ◌≡◌, refl, sym, ap, ◌∙◌, ℕ, zero, suc, ◌+◌, ◌*◌, ◌%◌, ◌/◌, ◌^◌, ◌≤◌, ◌==◌, ==_iff, List,
  if-elim, arith, ok, err, not_implemented,
}
use spdz_yao.Math.Integer.{pos, negsuc}
use spdz_yao.Math.Mpn.{Mpn}
use spdz_yao.Math.Congruence.{of_eq}
use spdz_yao.Math.ZpData.{ZpData}
use spdz_yao.Math.ZpData.WellFormed.{WellFormed}
use spdz_yao.Math.Modp.{sqr, assign_one, power, power_rounds}
use spdz_yao.Math.Modp.Encodes.{Encodes, Encodes-cong}
use spdz_yao.Math.Modp.Arithmetic.{mul-Encodes, sqr-Encodes}
use spdz_yao.Math.Modp.Constants.{assign_one-Encodes}

pow_double : (a n : ℕ) → (a * a) ^ n ≡ a ^ (n + n)
pow_double a zero = pow-zero (a * a) ∙ sym (pow-zero a)
pow_double a (suc n) =
    pow-suc (a * a) n
    ∙ ap (λ b. b * (a * a)) (pow_double a n)
    ∙ omega (arith, ap (λ z. z * a) (pow-suc a (n + n)), pow-suc a (suc (n + n)))
    ∙ ap (λ k. a ^ k) {x = suc (suc (n + n))} (omega arith)

even_pow : (a e : ℕ) → e % 2 ≡ 0 → (a * a) ^ (e / 2) ≡ a ^ e
even_pow a e h = pow_double a (e / 2) ∙ ap (λ k. a ^ k) (omega arith)

odd_pow : (a e : ℕ) → e % 2 ≡ 1 → a * (a * a) ^ (e / 2) ≡ a ^ e
odd_pow a e h =
    ap (λ b. a * b) (pow_double a (e / 2))
    ∙ omega (arith, pow-suc a (e / 2 + e / 2))
    ∙ ap (λ k. a ^ k) {x = suc (e / 2 + e / 2)} (omega arith)

even_of : (e : ℕ) → (e % 2 == 1) ≡ false → e % 2 ≡ 0
even_of e h = ground arith

times_one : (a b e : ℕ) → e ≡ 0 → a ≡ a * b ^ e
times_one a b e h = omega (arith, ap (λ k. a * b ^ k) h, ap (λ k. a * k) (pow-zero b))

module _ ⦃m : Mpn⦄ {d : ZpData} (w : WellFormed d) where
  rounds-Encodes :
      (fuel : ℕ) {a b : ℕ} {ans t : List ℕ} (e : ℕ)
      → e ≤ fuel
      → Encodes d a ans
      → Encodes d b t
      → Encodes d (a * b ^ e) (power_rounds fuel d ans t e)
  unfolding power_rounds
  rounds-Encodes zero {a = a} {b = b} zero le h k = Encodes-cong w h (of_eq (times_one a b 0 refl))
  rounds-Encodes zero (suc e) le h k = absurd (omega arith)
  rounds-Encodes (suc fuel) {a = a} {b = b} {ans = ans} {t = t} e le h k =
      if-elim (Encodes d (a * b ^ e)) (e == 0)
        (λ z. Encodes-cong w h (of_eq (times_one a b e ((==_iff e 0).0 z))))
        (λ z.
          if-elim (λ next. Encodes d (a * b ^ e) (power_rounds fuel d next (sqr d t) (e / 2)))
            (e % 2 == 1)
            (λ odd.
              Encodes-cong w
                (rounds-Encodes fuel (e / 2) (omega arith) (mul-Encodes w h k) (sqr-Encodes w k))
                (of_eq (omega arith ∙ ap (λ p. a * p) (odd_pow b e ((==_iff (e % 2) 1).0 odd)))))
            (λ even.
              Encodes-cong w (rounds-Encodes fuel (e / 2) (omega arith) h (sqr-Encodes w k))
                (of_eq (ap (λ p. a * p) (even_pow b e (even_of e even))))))

  power-pos :
      {a : ℕ} {xs : List ℕ} (e : ℕ)
      → Encodes d a xs
      → (ys : List ℕ) × (power d xs (pos e) ≡ ok ys) × Encodes d (a ^ e) ys
  unfolding power
  power-pos {a = a} {xs = xs} e h =
      if-elim (λ r. (ys : List ℕ) × (r ≡ ok ys) × Encodes d (a ^ e) ys) (e == 1)
        (λ one. (xs, refl, Encodes-cong w h (of_eq (pow_one a e ((==_iff e 1).0 one)))))
        (λ more.
          if-elim (λ r. (ys : List ℕ) × (r ≡ ok ys) × Encodes d (a ^ e) ys) (e == 0)
            (λ none. (
              assign_one d,
              refl,
              Encodes-cong w (assign_one-Encodes w) (of_eq (pow_none a e ((==_iff e 0).0 none))),
            ))
            (λ some. (
              power_rounds e d (assign_one d) xs e,
              refl,
              Encodes-cong w (rounds-Encodes e e (omega arith) (assign_one-Encodes w) h)
                  (of_eq (omega arith)),
            )))
    where
      pow_one : (a e : ℕ) → e ≡ 1 → a ≡ a ^ e
      pow_one a e h = omega (arith, ap (λ k. a ^ k) h, pow-suc a 0, ap (λ z. z * a) (pow-zero a))

      pow_none : (a e : ℕ) → e ≡ 0 → 1 ≡ a ^ e
      pow_none a e h = omega (arith, ap (λ k. a ^ k) h, pow-zero a)

  -- `Power` refuses a negative exponent, and returns for every other one, however large: what it
  -- leaves stands for the power of what its argument stands for. This is for a well formed state; with
  -- Montgomery's form, that asks for the inverses and for room above the modulus, and `init` does not
  -- check that there is room.
  pub power_lem :
      {a : ℕ} {xs : List ℕ}
      → Encodes d a xs
      → ((n : ℕ) → power d xs (negsuc n) ≡ err not_implemented)
        × ((e : ℕ) → (ys : List ℕ) × (power d xs (pos e) ≡ ok ys) × Encodes d (a ^ e) ys)
  unfolding power
  power_lem h = ((λ n. refl), (λ e. power-pos e h))
