-- ===== src/Math/Share.antt =====
-- Math/Share.h and Math/Share.cpp: a player's share of a value and of the value's MAC. An operation
-- of the class that writes to `*this` returns the new share here.
pub mod Opening
pub mod Sharing
pub mod Constants
pub mod Affine
use spdz_yao.Base.{Bool, ℕ, ◌==◌, if◌then◌else◌, List, [], ◌∷◌, Result, ok, err, ◌>>=◌, fault}
use spdz_yao.Math.Value.{Value, nil, ◌⊕◌, ◌⊖◌, ◌⊗◌, opposite, is_zero}

pub record Share {ℓ} (T : Type ℓ) : Type ℓ where
  pub a : T
  pub mac : T

module _ {ℓ} {T : Type ℓ} ⦃v : Value T⦄ where
  unfoldable pub assign_zero : Share T
  assign_zero = record { a = nil; mac = nil }

  -- `assign(aa, my_num, alphai)`.
  unfoldable pub assign_constant : T → ℕ → T → Share T
  assign_constant aa my_num alphai = record {
    a = if my_num == 0 then aa else nil;
    mac = aa ⊗ alphai;
  }

  unfoldable pub mul : Share T → T → Share T
  mul s aa = record { a = s.a ⊗ aa; mac = s.mac ⊗ aa }

  -- `add(S, aa, playerone, alphai)`.
  unfoldable pub add_constant : Share T → T → Bool → T → Share T
  add_constant s aa playerone alphai = record {
    a = if playerone then s.a ⊕ aa else s.a;
    mac = s.mac ⊕ alphai ⊗ aa;
  }

  unfoldable pub negate : Share T → Share T
  negate s = record { a = opposite s.a; mac = opposite s.mac }

  -- `sub(S, aa, playerone, alphai)`.
  unfoldable pub sub_constant : Share T → T → Bool → T → Share T
  sub_constant s aa playerone alphai = record {
    a = if playerone then s.a ⊖ aa else s.a;
    mac = s.mac ⊖ alphai ⊗ aa;
  }

  -- `sub(aa, S, playerone, alphai)`.
  unfoldable pub sub_from_constant : T → Share T → Bool → T → Share T
  sub_from_constant aa s playerone alphai = record {
    a = if playerone then aa ⊖ s.a else opposite s.a;
    mac = alphai ⊗ aa ⊖ s.mac;
  }

  unfoldable pub add : Share T → Share T → Share T
  add s₁ s₂ = record { a = s₁.a ⊕ s₂.a; mac = s₁.mac ⊕ s₂.mac }

  unfoldable pub sub : Share T → Share T → Share T
  sub s₁ s₂ = record { a = s₁.a ⊖ s₂.a; mac = s₁.mac ⊖ s₂.mac }

  unfoldable pub combine_from : T → List (Share T) → T
  combine_from ans [] = ans
  combine_from ans (s ∷ ss) = combine_from (ans ⊕ s.a) ss

  -- Without a player, `S[0]` is out of range.
  unfoldable pub combine : List (Share T) → Result T
  unfolding combine_from
  combine [] = err fault
  combine (s ∷ ss) = ok (combine_from s.a ss)

  unfoldable pub subtract_macs : T → List (Share T) → T
  subtract_macs val [] = val
  subtract_macs val (s ∷ ss) = subtract_macs (val ⊖ s.mac) ss

  unfoldable pub check_macs : List (Share T) → T → Result Bool
  unfolding combine subtract_macs
  check_macs ss key = do val ← combine ss; ok (is_zero (subtract_macs (val ⊗ key) ss))
