-- ===== src/Auth/MacCheck/Sessions.antt =====
-- Sessions of honest players of Auth/MAC_Check.cpp: what they open together, and the checks.
use spdz_yao.Base.{
  arith, ℕ, ◌+◌, ◌-◌, ◌≤◌, ◌<◌, ◌≡◌, refl, sym, ap, ap₂, ◌∙◌, ◌⊎◌, inl, inr, List, [], ◌++◌, map,
  length, length-append, length-map, get_or, get_or-append_left, get_or-append_right, drop-length,
}
use spdz_yao.Math.Value.{Value, nil, ◌⊖◌, ◌⊗◌, sum}
use spdz_yao.Math.Value.Laws.{minus_self}
use spdz_yao.Math.Value.Sum.{sum-map-ext}
use spdz_yao.Math.Share.{Share}
use spdz_yao.Auth.MacCheck.{MacCheck, new_mac_check}
use spdz_yao.Auth.MacCheck.Check.{Agreed, discrepancy, cleared}
use spdz_yao.Auth.MacCheck.Opening.{stored}

le_or_lt : (m n : ℕ) → (m ≤ n) ⊎ (n < m)
le_or_lt m n = ground arith

module _ {ℓ κ} {T : Type ℓ} ⦃v : Value T⦄ {P : Type κ} (ps : List P) where
  -- The state of the players between two operations: they have stored the same opened values, all
  -- counted, and their MACs fit.
  pub record Verified (mcs : P → MacCheck T) (opened : List T) : Type (ℓ ⊔ κ) where
    pub agreed : Agreed ps mcs opened (length opened)
    pub as_many_macs : (p : P) → length (mcs p).macs ≡ length opened
    pub macs_fit : (i : ℕ) → i < length opened → discrepancy ps mcs opened i ≡ nil

  -- The players' lists of shares are of values shared under the key, and `summed` is their sums.
  pub record Opens (alphais : P → T) (ss : P → List (Share T)) (summed : List T)
      : Type (ℓ ⊔ κ) where
    pub sized : (p : P) → length (ss p) ≡ length summed
    pub sums :
        (i : ℕ) → get_or summed i nil ≡ sum (map (λ p. get_or (map (λ s. s.a) (ss p)) i nil) ps)
    pub shared :
        (i : ℕ)
        → sum (map (λ p. get_or (map (λ s. s.mac) (ss p)) i nil) ps)
          ≡ sum (map alphais ps) ⊗ sum (map (λ p. get_or (map (λ s. s.a) (ss p)) i nil) ps)

  pub new-Verified : (alphais : P → T) → Verified (λ p. new_mac_check (alphais p)) []
  unfolding new_mac_check
  new-Verified alphais = record {
    agreed = record {
      same_values = λ p. refl;
      same_count = λ p. refl;
      values_there = omega arith;
      macs_there = λ p. omega arith;
    };
    as_many_macs = λ p. refl;
    macs_fit = λ i h. elim h [ ];
  }

  pub cleared-Verified :
      {mcs : P → MacCheck T} {opened : List T}
      → Verified mcs opened
      → Verified (λ p. cleared ps (mcs p)) []
  unfolding cleared
  cleared-Verified {mcs = mcs} {opened = opened} w = record {
    agreed = record {
      same_values = λ p. rw (w.agreed.same_count p, w.agreed.same_values p) (drop-length opened);
      same_count = λ p. refl;
      values_there = omega arith;
      macs_there = λ p. omega arith;
    };
    as_many_macs =
        λ p. rw (w.agreed.same_count p, ← w.as_many_macs p) (ap length (drop-length (mcs p).macs));
    macs_fit = λ i h. elim h [ ];
  }

  module _ {mcs : P → MacCheck T} {opened : List T} {ss : P → List (Share T)} {summed : List T}
      (w : Verified mcs opened) (o : Opens (λ p. (mcs p).alphai) ss summed) where
    unfoldable pub next : P → MacCheck T
    next p = stored (ss p) summed (mcs p)

    old_discrepancy :
        (i : ℕ)
        → i < length opened
        → discrepancy ps next (opened ++ summed) i ≡ discrepancy ps mcs opened i
    unfolding discrepancy next stored
    old_discrepancy i h =
        ap₂ (λ a b. a ⊖ sum (map (λ p. (mcs p).alphai) ps) ⊗ b)
          (sum-map-ext ps (λ p. get_or-append_left _ _ i nil (omega (arith, w.as_many_macs p))))
          (get_or-append_left opened summed i nil h)

    new_discrepancy : (i : ℕ) → length opened ≤ i → discrepancy ps next (opened ++ summed) i ≡ nil
    unfolding discrepancy next stored
    new_discrepancy i h =
        ap₂ (λ a b. a ⊖ sum (map (λ p. (mcs p).alphai) ps) ⊗ b)
          (sum-map-ext ps (λ p.
              get_or-append_right (mcs p).macs (map (λ s. s.mac) (ss p)) i nil
                (omega (arith, w.as_many_macs p))
              ∙ ap (λ k. get_or (map (λ s. s.mac) (ss p)) (i - k) nil) (w.as_many_macs p))
            ∙ o.shared (i - length opened))
          (get_or-append_right opened summed i nil h ∙ o.sums (i - length opened))
        ∙ minus_self _

    pub stored-Verified : Verified next (opened ++ summed)
    unfolding next stored
    stored-Verified = record {
      agreed = record {
        same_values = λ p. ap (λ xs. xs ++ summed) (w.agreed.same_values p);
        same_count = λ p.
            ap (λ k. k + length summed) (w.agreed.same_count p) ∙ sym (length-append opened summed);
        values_there = omega arith;
        macs_there = λ p. omega (arith, macs_length p);
      };
      as_many_macs = macs_length;
      macs_fit = λ i below. elim (le_or_lt (length opened) i) [
        | inl later ↦ new_discrepancy i later
        | inr earlier ↦ old_discrepancy i earlier ∙ w.macs_fit i earlier
      ];
    }
      where
        macs_length :
            (p : P) → length ((mcs p).macs ++ map (λ s. s.mac) (ss p)) ≡ length (opened ++ summed)
        macs_length p = omega (
          arith,
          length-append (mcs p).macs (map (λ s. s.mac) (ss p)),
          length-append opened summed,
          length-map (ss p) (λ s. s.mac),
          w.as_many_macs p,
          o.sized p,
        )
