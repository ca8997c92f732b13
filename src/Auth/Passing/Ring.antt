-- ===== src/Auth/Passing/Ring.antt =====
-- The players before a player on the ring of Networking/Player.cpp, by how many steps they are away.
use native.Mathlib.Nat.{mod-eq_of_lt, mod-eq-sub-mod}
use spdz_yao.Base.{
  arith, ℕ, zero, suc, ◌+◌, ◌-◌, ◌%◌, ◌≤◌, ◌<◌, ◌≡◌, sym, ap, ◌∙◌, ◌⊎◌, inl, inr, ◌==◌,
  if◌then◌else◌,
}
use spdz_yao.Math.Value.{Value, nil, ◌⊕◌}
use spdz_yao.Auth.TreeSum.Below.{sum_below, sum_below-ext, sum_below-swap, sum_below-single}
use spdz_yao.Auth.Passing.{previous_num}

pub back : ℕ → ℕ → ℕ → ℕ
back n r k = (r + n - k) % n

back-near : (n r k : ℕ) → r < n → k ≤ r → back n r k ≡ r - k
unfolding back
back-near n r k h near =
    mod-eq-sub-mod (omega arith) ∙ ap (λ d. d % n) (omega arith) ∙ mod-eq_of_lt (omega arith)

back-far : (n r k : ℕ) → r < k → k < n → back n r k ≡ r + n - k
unfolding back
back-far n r k far h = mod-eq_of_lt (omega arith)

pub back-here : (n r : ℕ) → r < n → back n r 0 ≡ r
back-here n r h = back-near n r 0 h (omega arith) ∙ omega arith

le_or_lt : (k r : ℕ) → (k ≤ r) ⊎ (r < k)
le_or_lt k r = ground arith

previous_num-first : (n : ℕ) → 0 < n → previous_num n 0 ≡ n - 1
unfolding previous_num
previous_num-first n h = ap (λ d. d % n) (omega arith) ∙ mod-eq_of_lt (omega arith)

previous_num-later : (n r : ℕ) → suc r < n → previous_num n (suc r) ≡ r
unfolding previous_num
previous_num-later n r h =
    mod-eq-sub-mod (omega arith) ∙ ap (λ d. d % n) (omega arith) ∙ mod-eq_of_lt (omega arith)

pub previous_num-lt : (n r : ℕ) → r < n → previous_num n r < n
previous_num-lt n zero h = omega (arith, previous_num-first n h)
previous_num-lt n (suc r) h = omega (arith, previous_num-later n r h)

-- One step more is a step from the player before.
pub back-previous_num :
    (n r k : ℕ) → r < n → suc k < n → back n (previous_num n r) k ≡ back n r (suc k)
back-previous_num n zero k h more = omega (
  arith,
  ap (λ p. back n p k) (previous_num-first n h),
  back-near n (n - 1) k (omega arith) (omega arith),
  back-far n 0 (suc k) (omega arith) more,
)
back-previous_num n (suc r) k h more =
    ap (λ p. back n p k) (previous_num-later n r h) ∙ elim (le_or_lt k r) [
      | inl near ↦
          omega
            (arith, back-near n r k (omega arith) near, back-near n (suc r) (suc k) h (omega arith))
      | inr far ↦
          omega
            (arith, back-far n r k far (omega arith), back-far n (suc r) (suc k) (omega arith) more)
    ]

-- As far as one player is before `r`, so far is the other.
back_swap : (n r k q : ℕ) → r < n → k < n → q < n → (q == back n r k) ≡ (k == back n r q)
back_swap n r k q hr hk hq = elim (le_or_lt k r) [
  | inl near ↦ elim (le_or_lt q r) [
    | inl near' ↦ ground (arith, back-near n r k hr near, back-near n r q hr near')
    | inr far' ↦ ground (arith, back-near n r k hr near, back-far n r q far' hq)
  ]
  | inr far ↦ elim (le_or_lt q r) [
    | inl near' ↦ ground (arith, back-far n r k far hk, back-near n r q hr near')
    | inr far' ↦ ground (arith, back-far n r k far hk, back-far n r q far' hq)
  ]
]

back-lt : (n r k : ℕ) → r < n → k < n → back n r k < n
back-lt n r k hr hk = elim (le_or_lt k r) [
  | inl near ↦ omega (arith, back-near n r k hr near)
  | inr far ↦ omega (arith, back-far n r k far hk)
]

module _ {ℓ} {T : Type ℓ} ⦃v : Value T⦄ where
  -- All players are met once on the way around.
  pub sum_below-back :
      (n r : ℕ) (f : ℕ → T) → r < n → sum_below n (λ k. f (back n r k)) ≡ sum_below n f
  sum_below-back n r f h =
      sum_below-ext n (λ k hk. sym (sum_below-single n (back n r k) f (back-lt n r k h hk)))
      ∙ sum_below-swap n n (λ k q. if q == back n r k then f q else nil)
      ∙ sum_below-ext n (λ q hq.
        sum_below-ext n (λ k hk. ap (λ t. if t then f q else nil) (back_swap n r k q h hk hq))
        ∙ sum_below-single n (back n r q) (λ _. f q) (back-lt n r q h hq))

  pub sum_below-head :
      (n : ℕ) (f : ℕ → T) → sum_below (suc n) f ≡ f 0 ⊕ sum_below n (λ k. f (suc k))
  unfolding sum_below
  sum_below-head zero f = v.plus_comm nil (f 0)
  sum_below-head (suc n) f =
      ap (λ x. x ⊕ f (suc n)) (sum_below-head n f) ∙ v.plus_assoc (f 0) _ (f (suc n))
