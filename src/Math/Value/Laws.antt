-- ===== src/Math/Value/Laws.antt =====
-- What follows from the laws of the values, whatever the type of Math/Share.h.
use spdz_yao.Base.{◌≡◌, sym, ap, ◌∙◌}
use spdz_yao.Math.Value.{Value, nil, ◌⊕◌, ◌⊖◌, ◌⊗◌, opposite}

module _ {ℓ} {T : Type ℓ} ⦃v : Value T⦄ where
  open v use {
    plus_assoc, plus_comm, plus_nil, plus_negate, minus_eq, times_comm, times_assoc, times_plus,
  }

  pub nil_plus : (a : T) → nil ⊕ a ≡ a
  nil_plus a = rw (plus_comm nil a) (plus_nil a)

  pub plus_left_comm : (a b c : T) → a ⊕ (b ⊕ c) ≡ b ⊕ (a ⊕ c)
  plus_left_comm a b c = rw (← plus_assoc a b c, plus_comm a b) (plus_assoc b a c)

  pub plus_swap : (a b c d : T) → (a ⊕ b) ⊕ (c ⊕ d) ≡ (a ⊕ c) ⊕ (b ⊕ d)
  plus_swap a b c d =
      rw (plus_assoc a b (c ⊕ d), plus_left_comm b c d) (sym (plus_assoc a c (b ⊕ d)))

  negate_plus_left : (a b : T) → opposite a ⊕ (a ⊕ b) ≡ b
  negate_plus_left a b =
      rw (← plus_assoc (opposite a) a b, plus_comm (opposite a) a, plus_negate a) (nil_plus b)

  pub plus_cancel : (a : T) {b c : T} → a ⊕ b ≡ a ⊕ c → b ≡ c
  plus_cancel a {b = b} {c = c} e =
      sym (negate_plus_left a b) ∙ ap (λ x. opposite a ⊕ x) e ∙ negate_plus_left a c

  pub opposite_unique : (a b : T) → a ⊕ b ≡ nil → b ≡ opposite a
  opposite_unique a b e = plus_cancel a (e ∙ sym (plus_negate a))

  pub opposite-plus : (a b : T) → opposite (a ⊕ b) ≡ opposite a ⊕ opposite b
  opposite-plus a b = sym (
      opposite_unique (a ⊕ b) (opposite a ⊕ opposite b)
        (rw (plus_swap a b (opposite a) (opposite b), plus_negate a, plus_negate b) (plus_nil nil)))

  pub times_nil : (a : T) → a ⊗ nil ≡ nil
  times_nil a =
      plus_cancel (a ⊗ nil) (rw (← times_plus a nil nil, plus_nil nil) (sym (plus_nil (a ⊗ nil))))

  pub nil_times : (a : T) → nil ⊗ a ≡ nil
  nil_times a = times_comm nil a ∙ times_nil a

  pub times-opposite : (a b : T) → a ⊗ opposite b ≡ opposite (a ⊗ b)
  times-opposite a b =
      opposite_unique (a ⊗ b) (a ⊗ opposite b)
        (rw (← times_plus a b (opposite b), plus_negate b) (times_nil a))

  pub opposite-nil : opposite (nil {T = T}) ≡ nil
  opposite-nil = sym (opposite_unique nil nil (plus_nil nil))

  pub minus_nil : (a : T) → a ⊖ nil ≡ a
  minus_nil a = rw (minus_eq a nil, opposite-nil) (plus_nil a)

  pub minus_self : (a : T) → a ⊖ a ≡ nil
  minus_self a = rw (minus_eq a a) (plus_negate a)

  pub minus_swap : (a b c d : T) → (a ⊖ b) ⊕ (c ⊖ d) ≡ (a ⊕ c) ⊖ (b ⊕ d)
  minus_swap a b c d =
      rw (minus_eq a b, minus_eq c d, minus_eq (a ⊕ c) (b ⊕ d), opposite-plus b d)
        (plus_swap a (opposite b) c (opposite d))

  pub times_minus : (a b c : T) → a ⊗ (b ⊖ c) ≡ a ⊗ b ⊖ a ⊗ c
  times_minus a b c =
      rw (minus_eq b c, minus_eq (a ⊗ b) (a ⊗ c), times_plus a b (opposite c))
        (ap (λ x. a ⊗ b ⊕ x) (times-opposite a c))

  pub plus_times : (a b c : T) → (a ⊕ b) ⊗ c ≡ a ⊗ c ⊕ b ⊗ c
  plus_times a b c = rw (times_comm (a ⊕ b) c, times_comm a c, times_comm b c) (times_plus c a b)

  pub times_left_comm : (a b c : T) → a ⊗ (b ⊗ c) ≡ b ⊗ (a ⊗ c)
  times_left_comm a b c = rw (← times_assoc a b c, times_comm a b) (times_assoc b a c)

  -- Two values are equal if their difference is zero.
  pub eq-minus : (a b : T) → a ⊖ b ≡ nil → a ≡ b
  eq-minus a b e =
      sym (plus_nil a)
      ∙ ap (λ x. a ⊕ x) (sym (plus_negate b) ∙ plus_comm b (opposite b))
      ∙ sym (plus_assoc a (opposite b) b)
      ∙ ap (λ x. x ⊕ b) (sym (minus_eq a b) ∙ e)
      ∙ nil_plus b

  pub plus_minus : (a b : T) → (a ⊕ b) ⊖ a ≡ b
  plus_minus a b = rw (minus_eq (a ⊕ b) a, plus_comm (a ⊕ b) (opposite a)) (negate_plus_left a b)
