-- ===== src/Auth/TreeSum/Senders.antt =====
-- Who sends to whom in a round of Auth/MAC_Check.h's tree: the players below the last number of sums
-- are divided among the receivers.
use native.Mathlib.Nat.{
  mod-eq_of_lt, mod-eq-sub-mod, mod-lt, add-mod, mod-add-div, mul-add-mod_self_left,
}
use spdz_yao.Base.{
  arith, ℕ, zero, suc, ◌+◌, ◌-◌, ◌*◌, ◌/◌, ◌%◌, ◌≤◌, ◌<◌, ◌≡◌, sym, ap, ap₂, ◌∙◌, ◌⊎◌, inl, inr,
  Bool, true, false, ◌&&◌, ℕ_discrete, Bool-cases, ltb, leb, ◌==◌, if◌then◌else◌, map,
}
use spdz_yao.Math.Value.{Value, nil, ◌⊕◌, sum}
use spdz_yao.Math.Value.Laws.{nil_plus}
use spdz_yao.Auth.TreeSum.{senders}
use spdz_yao.Auth.TreeSum.Below.{
  sum_below, sum_below-ext, sum_below-nil, sum_below-plus, sum_below-swap, sum_below-single,
}

-- A player `y` is met on the way from `x` on in steps of `s`.
abbrev reached : ℕ → ℕ → ℕ → Bool
reached s x y = leb x y && ((y - x) % s == 0)

reached_before : (s x y : ℕ) → y < x → reached s x y ≡ false
reached_before s x y h = ground arith

reached_here : (s x : ℕ) → 0 < s → reached s x x ≡ true
reached_here s x h =
    let start : (x - x) % s ≡ 0 = ap (λ d. d % s) (omega arith) ∙ mod-eq_of_lt h in
    ground (arith, start)

reached_soon : (s x y : ℕ) → x < y → y < x + s → reached s x y ≡ false
reached_soon s x y later soon =
    let small : (y - x) % s ≡ y - x = mod-eq_of_lt (omega arith) in ground (arith, small)

reached_later : (s x y : ℕ) → x + s ≤ y → reached s x y ≡ reached s (x + s) y
reached_later s x y far =
    let one_step : (y - x) % s ≡ (y - (x + s)) % s =
      mod-eq-sub-mod (omega arith) ∙ ap (λ d. d % s) (omega arith) in
    ground (arith, one_step)

remainder-back : (s r y : ℕ) → r < s → r ≤ y → (y - r) % s ≡ 0 → y % s ≡ r
remainder-back s r y h le e =
    let back : y ≡ (y - r) + r = omega arith in
    let zero_plus : 0 + r ≡ r = omega arith in
    ap (λ d. d % s) back
    ∙ add-mod (y - r) r s
    ∙ ap₂ (λ a b. (a + b) % s) e (mod-eq_of_lt h)
    ∙ ap (λ d. d % s) zero_plus
    ∙ mod-eq_of_lt h

remainder-divides : (s y : ℕ) → 0 < s → (y % s ≤ y) × ((y - y % s) % s ≡ 0)
remainder-divides s y h =
    let rest : y - y % s ≡ s * (y / s) + 0 = omega (arith, mod-add-div y s) in
    (
      omega (arith, mod-add-div y s),
      ap (λ d. d % s) rest ∙ mul-add-mod_self_left s (y / s) 0 ∙ mod-eq_of_lt h,
    )

-- A receiver `r` meets exactly the players that have its remainder.
reached_remainder : (s r y : ℕ) → r < s → reached s r y ≡ (r == y % s)
reached_remainder s r y h = elim (ℕ_discrete r (y % s)) [
  | yes same ↦ let (le, e) = remainder-divides s y (omega arith) in rw same (ground (arith, le, e))
  | no other ↦ elim (Bool-cases (reached s r y)) [
    | inl met ↦
        absurd (other (sym (remainder-back s r y h (ground (arith, met)) (ground (arith, met)))))
    | inr not_met ↦ rw not_met (ground (arith, other))
  ]
]

where_is : (s x y : ℕ) → (y < x) ⊎ (y ≡ x) ⊎ ((x < y) × (y < x + s)) ⊎ (x + s ≤ y)
where_is s x y = ground arith

-- The first step of the way from `x`: the player itself, or the way from the next one.
reached_split :
    (s x y : ℕ)
    → 0 < s
    → ((reached s x y ≡ (y == x)) × (reached s (x + s) y ≡ false))
      ⊎ (((y == x) ≡ false) × (reached s x y ≡ reached s (x + s) y))
reached_split s x y h = elim (where_is s x y) [
  | inl before ↦
      inr
        (ground arith, reached_before s x y before ∙ sym (reached_before s (x + s) y (omega arith)))
  | inr (inl here) ↦
      inl (rw here (reached_here s x h ∙ ground arith), reached_before s (x + s) y (omega arith))
  | inr (inr (inl soon)) ↦
      inr (ground arith, reached_soon s x y soon.0 soon.1 ∙ sym (reached_before s (x + s) y soon.1))
  | inr (inr (inr far)) ↦ inr (ground arith, reached_later s x y far)
]

module _ {ℓ} {T : Type ℓ} ⦃v : Value T⦄ where
  abbrev pick : Bool → T → T
  pick b x = if b then x else nil

  pick_split :
      (b c d : Bool) (a : T)
      → ((b ≡ c) × (d ≡ false)) ⊎ ((c ≡ false) × (b ≡ d))
      → pick b a ≡ pick c a ⊕ pick d a
  pick_split b c d a (inl (bc, e)) = rw (bc, e) (sym (v.plus_nil (pick c a)))
  pick_split b c d a (inr (e, bd)) = rw (e, bd) (sym (nil_plus (pick d a)))

  pick-step :
      (s x y : ℕ) (a : T)
      → 0 < s
      → pick (reached s x y) a ≡ pick (y == x) a ⊕ pick (reached s (x + s) y) a
  pick-step s x y a h =
      pick_split (reached s x y) (y == x) (reached s (x + s) y) a (reached_split s x y h)

  -- Where the loop of add_openings starts at `x`, its senders are those that are reached from it.
  sum-senders :
      (fuel x s n : ℕ) (f : ℕ → T)
      → 0 < s
      → n ≤ x + fuel
      → sum (map f (senders fuel x s n)) ≡ sum_below n (λ y. pick (reached s x y) (f y))
  unfolding senders
  sum-senders zero x s n f h enough =
      sym (sum_below-nil n (λ y below. ap (λ b. pick b (f y)) (reached_before s x y (omega arith))))
  sum-senders (suc fuel) x s n f h enough = elim (Bool-cases (ltb x n)) [
    | inl inside ↦ rw inside (
        ap₂ ◌⊕◌ (sym (sum_below-single n x f (ground arith)))
          (sum-senders fuel (x + s) s n f h (omega arith))
        ∙ sym (sum_below-plus n _ _)
        ∙ sum_below-ext n (λ y below. sym (pick-step s x y (f y) h)))
    | inr outside ↦ rw outside (
        sym (
          sum_below-nil n
            (λ y below. ap (λ b. pick b (f y)) (reached_before s x y (ground arith)))))
  ]

  -- Together, the receivers' own values and those of their senders are all values.
  pub sum_below-senders :
      (s n : ℕ) (f : ℕ → T)
      → 0 < s
      → s ≤ n
      → sum_below s (λ r. f r ⊕ sum (map f (senders n (r + s) s n))) ≡ sum_below n f
  sum_below-senders s n f h fits =
      sum_below-ext s (λ r below.
        ap₂ ◌⊕◌ (sym (sum_below-single n r f (omega arith)))
          (sum-senders n (r + s) s n f h (omega arith))
        ∙ sym (sum_below-plus n _ _)
        ∙ sum_below-ext n (λ y _. sym (pick-step s r y (f y) h)))
      ∙ sum_below-swap s n (λ r y. pick (reached s r y) (f y))
      ∙ sum_below-ext n (λ y _.
        sum_below-ext s (λ r below. ap (λ b. pick b (f y)) (reached_remainder s r y below))
        ∙ sum_below-single s (y % s) (λ _. f y) (mod-lt y h))
