-- ===== src/Auth/TreeSum/Below.antt =====
-- Sums over the players below a number, for the tree of Auth/MAC_Check.h.
use spdz_yao.Base.{
  arith, ℕ, zero, suc, ◌<◌, ◌≡◌, ◌≢◌, refl, sym, ap, ap₂, ◌∙◌, ◌⊎◌, inl, inr, ◌==◌, if◌then◌else◌,
}
use spdz_yao.Math.Value.{Value, nil, ◌⊕◌}
use spdz_yao.Math.Value.Laws.{nil_plus, plus_swap}

module _ {ℓ} {T : Type ℓ} ⦃v : Value T⦄ where
  unfoldable pub sum_below : ℕ → (ℕ → T) → T
  sum_below zero f = nil
  sum_below (suc n) f = sum_below n f ⊕ f n

  pub sum_below-ext :
      (n : ℕ) {f g : ℕ → T} → ((i : ℕ) → i < n → f i ≡ g i) → sum_below n f ≡ sum_below n g
  unfolding sum_below
  sum_below-ext zero e = refl
  sum_below-ext (suc n) e = ap₂ ◌⊕◌ (sum_below-ext n (λ i h. e i (omega arith))) (e n (omega arith))

  pub sum_below-nil : (n : ℕ) {f : ℕ → T} → ((i : ℕ) → i < n → f i ≡ nil) → sum_below n f ≡ nil
  unfolding sum_below
  sum_below-nil zero e = refl
  sum_below-nil (suc n) e =
      ap₂ ◌⊕◌ (sum_below-nil n (λ i h. e i (omega arith))) (e n (omega arith)) ∙ v.plus_nil nil

  pub sum_below-plus :
      (n : ℕ) (f g : ℕ → T) → sum_below n (λ i. f i ⊕ g i) ≡ sum_below n f ⊕ sum_below n g
  unfolding sum_below
  sum_below-plus zero f g = sym (v.plus_nil nil)
  sum_below-plus (suc n) f g =
      ap (λ x. x ⊕ (f n ⊕ g n)) (sum_below-plus n f g)
      ∙ plus_swap (sum_below n f) (sum_below n g) (f n) (g n)

  pub sum_below-swap :
      (m n : ℕ) (f : ℕ → ℕ → T)
      → sum_below m (λ i. sum_below n (f i)) ≡ sum_below n (λ j. sum_below m (λ i. f i j))
  unfolding sum_below
  sum_below-swap zero n f = sym (sum_below-nil n (λ i h. refl))
  sum_below-swap (suc m) n f =
      ap (λ x. x ⊕ sum_below n (f m)) (sum_below-swap m n f)
      ∙ sym (sum_below-plus n (λ j. sum_below m (λ i. f i j)) (f m))

  -- All but one summand are zero.
  pub sum_below-single :
      (n j : ℕ) (f : ℕ → T) → j < n → sum_below n (λ i. if i == j then f i else nil) ≡ f j
  unfolding sum_below
  sum_below-single zero j f h = elim h [ ]
  sum_below-single (suc n) j f h = elim (last_or_below n j h) [
    | inl last ↦
        ap₂ ◌⊕◌ (sum_below-nil n (λ i below. unequal i (f i) (omega arith)))
          (rw last (same_index j))
        ∙ nil_plus (f j)
    | inr below ↦
        ap₂ ◌⊕◌ (sum_below-single n j f below) (unequal n (f n) (omega arith)) ∙ v.plus_nil (f j)
  ]
    where
      last_or_below : (n j : ℕ) → j < suc n → (n ≡ j) ⊎ (j < n)
      last_or_below n j h = ground arith

      unequal : (i : ℕ) (x : T) → i ≢ j → (if i == j then x else nil) ≡ nil
      unequal i x e = ground arith

      same_index : (i : ℕ) → (if i == i then f i else nil) ≡ f i
      same_index i = ground arith
