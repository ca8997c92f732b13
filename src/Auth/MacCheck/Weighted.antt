-- ===== src/Auth/MacCheck/Weighted.antt =====
-- The combinations of Auth/MAC_Check.cpp with random weights, as sums over the rounds of the loop.
use spdz_yao.Base.{
  arith, ℕ, zero, suc, ◌≤◌, ◌<◌, ◌≡◌, refl, sym, ap, ap₂, ◌∙◌, List, [], ◌∷◌, map, length,
  element-get_or, get_or, ok,
}
use spdz_yao.Math.Value.{Value, nil, ◌⊕◌, ◌⊖◌, ◌⊗◌, sum}
use spdz_yao.Math.Value.Laws.{minus_swap, minus_self, times_minus, times_nil, times_left_comm}
use spdz_yao.Math.Value.Sum.{sum-map-plus, sum-map-times, sum-map-nil}
use spdz_yao.Auth.MacCheck.{MacCheck, combinations, own_tau, total}

module _ {ℓ} {T : Type ℓ} ⦃v : Value T⦄ where
  pub total-sum : (t : T) (xs : List T) → total t xs ≡ t ⊕ sum xs
  unfolding total
  total-sum t [] = sym (v.plus_nil t)
  total-sum t (x ∷ xs) = total-sum (t ⊕ x) xs ∙ v.plus_assoc t x (sum xs)

module _ {ℓ} {T : Type ℓ} ⦃v : Value T⦄ (h : ℕ → T) where
  unfoldable pub weighted : (ℕ → T) → ℕ → T
  weighted f zero = nil
  weighted f (suc n) = weighted f n ⊕ h n ⊗ f n

  -- The loop of `Check` computes both sums, if no round is out of range.
  combinations-weighted :
      (mc : MacCheck T) (n : ℕ)
      → n ≤ length mc.vals
      → n ≤ length mc.macs
      → combinations h mc n
        ≡ ok (weighted (λ i. get_or mc.vals i nil) n, weighted (λ i. get_or mc.macs i nil) n)
  unfolding combinations weighted
  combinations-weighted mc zero fits_vals fits_macs = refl
  combinations-weighted mc (suc n) fits_vals fits_macs =
      rw
        (
          combinations-weighted mc n (omega arith) (omega arith),
          element-get_or mc.vals n nil (omega arith),
          element-get_or mc.macs n nil (omega arith),
        )
        refl

  pub own_tau-weighted :
      (mc : MacCheck T)
      → mc.popen_cnt ≤ length mc.vals
      → mc.popen_cnt ≤ length mc.macs
      → own_tau h mc
        ≡ ok (
            weighted (λ i. get_or mc.macs i nil) mc.popen_cnt
            ⊖ mc.alphai ⊗ weighted (λ i. get_or mc.vals i nil) mc.popen_cnt)
  unfolding own_tau
  own_tau-weighted mc fits_vals fits_macs =
      rw (combinations-weighted mc mc.popen_cnt fits_vals fits_macs) refl

  pub weighted-ext :
      {f g : ℕ → T} (n : ℕ) → ((i : ℕ) → i < n → f i ≡ g i) → weighted f n ≡ weighted g n
  unfolding weighted
  weighted-ext zero e = refl
  weighted-ext (suc n) e =
      ap₂ (λ x y. x ⊕ h n ⊗ y) (weighted-ext n (λ i below. e i (omega arith))) (e n (omega arith))

  pub weighted-nil : (n : ℕ) → weighted (λ _. nil) n ≡ nil
  unfolding weighted
  weighted-nil zero = refl
  weighted-nil (suc n) = ap₂ ◌⊕◌ (weighted-nil n) (times_nil (h n)) ∙ v.plus_nil nil

  pub weighted-minus :
      (c : T) (f g : ℕ → T) (n : ℕ)
      → weighted (λ i. f i ⊖ c ⊗ g i) n ≡ weighted f n ⊖ c ⊗ weighted g n
  unfolding weighted
  weighted-minus c f g zero = sym (ap (λ x. nil ⊖ x) (times_nil c) ∙ minus_self nil)
  weighted-minus c f g (suc n) =
      ap₂ ◌⊕◌ (weighted-minus c f g n) (
        times_minus (h n) (f n) (c ⊗ g n) ∙ ap (λ x. h n ⊗ f n ⊖ x) (times_left_comm (h n) c (g n)))
      ∙ minus_swap (weighted f n) (c ⊗ weighted g n) (h n ⊗ f n) (c ⊗ (h n ⊗ g n))
      ∙ ap (λ x. (weighted f n ⊕ h n ⊗ f n) ⊖ x) (sym (v.times_plus c (weighted g n) (h n ⊗ g n)))

  -- The sum over the players of their weighted sums is the weighted sum of the players' sums.
  pub sum-weighted {κ} :
      {P : Type κ} (f : P → ℕ → T) (ps : List P) (n : ℕ)
      → sum (map (λ p. weighted (f p) n) ps) ≡ weighted (λ i. sum (map (λ p. f p i) ps)) n
  unfolding weighted
  sum-weighted f ps zero = sum-map-nil ps
  sum-weighted f ps (suc n) =
      sum-map-plus (λ p. weighted (f p) n) (λ p. h n ⊗ f p n) ps
      ∙ ap₂ ◌⊕◌ (sum-weighted f ps n) (sum-map-times (h n) (λ p. f p n) ps)
