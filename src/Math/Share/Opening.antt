-- ===== src/Math/Share/Opening.antt =====
-- What `combine` and `check_macs` of Math/Share.cpp compute of the shares of all players.
use spdz_yao.Base.{◌≡◌, sym, ap, ◌∙◌, ◌↔◌, true, List, [], ◌∷◌, map, ok, ok-injective, ◌>>=◌}
use spdz_yao.Math.Value.{Value, ◌⊕◌, ◌⊖◌, ◌⊗◌, is_zero, sum}
use spdz_yao.Math.Value.Laws.{minus_nil, minus_self, eq-minus, opposite-plus}
use spdz_yao.Math.Share.{Share, combine, combine_from, subtract_macs, check_macs}

module _ {ℓ} {T : Type ℓ} ⦃v : Value T⦄ where
  unfoldable pub shared : List (Share T) → T
  shared ss = sum (map (λ s. s.a) ss)

  unfoldable pub shared_mac : List (Share T) → T
  shared_mac ss = sum (map (λ s. s.mac) ss)

  combine_from-sum : (ans : T) (ss : List (Share T)) → combine_from ans ss ≡ ans ⊕ shared ss
  unfolding combine_from shared
  combine_from-sum ans [] = sym (v.plus_nil ans)
  combine_from-sum ans (s ∷ ss) = combine_from-sum (ans ⊕ s.a) ss ∙ v.plus_assoc ans s.a (shared ss)

  pub combine-shared : (s : Share T) (ss : List (Share T)) → combine (s ∷ ss) ≡ ok (shared (s ∷ ss))
  unfolding combine shared
  combine-shared s ss = ap ok (combine_from-sum s.a ss)

  minus_minus : (x a b : T) → x ⊖ a ⊖ b ≡ x ⊖ (a ⊕ b)
  minus_minus x a b =
      rw (v.minus_eq (x ⊖ a) b, v.minus_eq x a, v.minus_eq x (a ⊕ b), opposite-plus a b)
        (v.plus_assoc x _ _)

  subtract_macs-sum : (x : T) (ss : List (Share T)) → subtract_macs x ss ≡ x ⊖ shared_mac ss
  unfolding subtract_macs shared_mac
  subtract_macs-sum x [] = sym (minus_nil x)
  subtract_macs-sum x (s ∷ ss) =
      subtract_macs-sum (x ⊖ s.mac) ss ∙ minus_minus x s.mac (shared_mac ss)

  check_macs-is_zero :
      (s : Share T) (ss : List (Share T)) (key : T)
      → check_macs (s ∷ ss) key ≡ ok (is_zero (shared (s ∷ ss) ⊗ key ⊖ shared_mac (s ∷ ss)))
  unfolding check_macs
  check_macs-is_zero s ss key =
      ap (λ r. r >>= (λ val. ok (is_zero (subtract_macs (val ⊗ key) (s ∷ ss)))))
        (combine-shared s ss)
      ∙ ap (λ x. ok (is_zero x)) (subtract_macs-sum (shared (s ∷ ss) ⊗ key) (s ∷ ss))

  -- For the shares of one player or more, check_macs returns true if and only if the sum of the
  -- shares of the MAC is the key times the sum of the shares.
  pub check_macs_iff :
      (s : Share T) (ss : List (Share T)) (key : T)
      → (check_macs (s ∷ ss) key ≡ ok true) ↔ (shared_mac (s ∷ ss) ≡ shared (s ∷ ss) ⊗ key)
  check_macs_iff s ss key = (
    λ e.
        sym (
          eq-minus _ _
            ((v.is_zero_iff _).0 (ok-injective (sym (check_macs-is_zero s ss key) ∙ e)))),
    λ e.
        check_macs-is_zero s ss key
        ∙ ap ok ((v.is_zero_iff _).1 (ap (λ m. shared (s ∷ ss) ⊗ key ⊖ m) e ∙ minus_self _)),
  )
