-- ===== src/Math/Value.antt =====
-- The operations that the templates of Math/Share.h and Auth/MAC_Check.h take from their type `T`
-- of values (gfp of Math/gfp.h, gf2n of Math/gf2n.h), with the laws of a commutative ring.
pub mod Laws
pub mod Sum
use spdz_yao.Base.{◌≡◌, ◌↔◌, Bool, true, List, [], ◌∷◌}

-- `mul a b` is what `ans.mul(a, b)` leaves in `ans`, and likewise for the others.
pub record Value {ℓ} (T : Type ℓ) : Type ℓ where
  pub nil_value : T
  pub plus_value : T → T → T
  pub minus_value : T → T → T
  pub times_value : T → T → T
  pub negate_value : T → T
  pub is_zero_value : T → Bool
  pub plus_assoc : (a b c : T) → plus_value (plus_value a b) c ≡ plus_value a (plus_value b c)
  pub plus_comm : (a b : T) → plus_value a b ≡ plus_value b a
  pub plus_nil : (a : T) → plus_value a nil_value ≡ a
  pub plus_negate : (a : T) → plus_value a (negate_value a) ≡ nil_value
  pub minus_eq : (a b : T) → minus_value a b ≡ plus_value a (negate_value b)
  pub times_comm : (a b : T) → times_value a b ≡ times_value b a
  pub times_assoc : (a b c : T) → times_value (times_value a b) c ≡ times_value a (times_value b c)
  pub times_plus :
      (a b c : T) → times_value a (plus_value b c) ≡ plus_value (times_value a b) (times_value a c)
  pub is_zero_iff : (a : T) → (is_zero_value a ≡ true) ↔ (a ≡ nil_value)

module _ {ℓ} {T : Type ℓ} ⦃v : Value T⦄ where
  -- `assign_zero()`.
  abbrev pub nil : T
  nil = v.nil_value

  infixl 60 ◌⊕◌
  abbrev pub ◌⊕◌ : T → T → T
  ◌⊕◌ = v.plus_value

  infixl 60 ◌⊖◌
  abbrev pub ◌⊖◌ : T → T → T
  ◌⊖◌ = v.minus_value

  infixl 70 ◌⊗◌
  abbrev pub ◌⊗◌ : T → T → T
  ◌⊗◌ = v.times_value

  abbrev pub opposite : T → T
  opposite = v.negate_value

  abbrev pub is_zero : T → Bool
  is_zero = v.is_zero_value

  -- The sum of a list of values.
  abbrev pub sum : List T → T
  sum [] = nil
  sum (x ∷ xs) = x ⊕ sum xs
