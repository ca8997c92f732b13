-- ===== src/Math/Share/Affine.antt =====
-- Computations of the players on their own: expressions over the operations of Math/Share.h, as the
-- machine's instructions on registers of shares compose them.
use spdz_yao.Base.{ℕ, ◌==◌, List, ◌∷◌}
use spdz_yao.Math.Value.{Value, ◌⊕◌, ◌⊖◌, ◌⊗◌, opposite}
use spdz_yao.Math.Share.{
  Share, assign_constant, mul, add_constant, negate, sub_constant, sub_from_constant, add, sub,
}
use spdz_yao.Math.Share.Sharing.{Party, NumberedFrom, Shares, Shares-add, Shares-sub, Shares-mul}
use spdz_yao.Math.Share.Constants.{
  Shares-assign_constant, Shares-add_constant, Shares-sub_constant, Shares-sub_from_constant,
  Shares-negate,
}

pub data Affine {ℓ} (T : Type ℓ) : Type ℓ where
  register : ℕ → Affine T
  constant : T → Affine T
  plus minus : Affine T → Affine T → Affine T
  plus_constant minus_constant times_constant : Affine T → T → Affine T
  constant_minus : T → Affine T → Affine T
  negated : Affine T → Affine T

module _ {ℓ} {T : Type ℓ} ⦃v : Value T⦄ where
  -- What a player computes of the own shares.
  unfoldable pub share_of : Affine T → Party T → Share T
  share_of (register i) p = p.registers i
  share_of (constant c) p = assign_constant c p.my_num p.alphai
  share_of (plus e d) p = add (share_of e p) (share_of d p)
  share_of (minus e d) p = sub (share_of e p) (share_of d p)
  share_of (plus_constant e c) p = add_constant (share_of e p) c (p.my_num == 0) p.alphai
  share_of (minus_constant e c) p = sub_constant (share_of e p) c (p.my_num == 0) p.alphai
  share_of (times_constant e c) p = mul (share_of e p) c
  share_of (constant_minus c e) p = sub_from_constant c (share_of e p) (p.my_num == 0) p.alphai
  share_of (negated e) p = negate (share_of e p)

  -- The same computation on the values.
  unfoldable pub value_of : Affine T → (ℕ → T) → T
  value_of (register i) values = values i
  value_of (constant c) values = c
  value_of (plus e d) values = value_of e values ⊕ value_of d values
  value_of (minus e d) values = value_of e values ⊖ value_of d values
  value_of (plus_constant e c) values = value_of e values ⊕ c
  value_of (minus_constant e c) values = value_of e values ⊖ c
  value_of (times_constant e c) values = value_of e values ⊗ c
  value_of (constant_minus c e) values = c ⊖ value_of e values
  value_of (negated e) values = opposite (value_of e values)

  module _ (p : Party T) (ps : List (Party T)) (numbered : NumberedFrom 0 (p ∷ ps)) (values : ℕ → T)
      (held : (i : ℕ) → Shares (p ∷ ps) (λ q. q.registers i) (values i)) where
    -- If the players' registers share values under the sum of their `alphai`, then whatever
    -- expression of Math/Share.h each computes alone, the results share the expression's value
    -- under the same key.
    pub share_of-Shares : (e : Affine T) → Shares (p ∷ ps) (share_of e) (value_of e values)
    unfolding share_of value_of
    share_of-Shares (register i) = held i
    share_of-Shares (constant c) = Shares-assign_constant p ps numbered c
    share_of-Shares (plus e d) = Shares-add (p ∷ ps) (share_of-Shares e) (share_of-Shares d)
    share_of-Shares (minus e d) = Shares-sub (p ∷ ps) (share_of-Shares e) (share_of-Shares d)
    share_of-Shares (plus_constant e c) = Shares-add_constant p ps numbered (share_of-Shares e) c
    share_of-Shares (minus_constant e c) = Shares-sub_constant p ps numbered (share_of-Shares e) c
    share_of-Shares (times_constant e c) = Shares-mul (p ∷ ps) (share_of-Shares e) c
    share_of-Shares (constant_minus c e) =
        Shares-sub_from_constant p ps numbered (share_of-Shares e) c
    share_of-Shares (negated e) = Shares-negate (p ∷ ps) (share_of-Shares e)
