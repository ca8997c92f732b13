-- ===== src/Auth/MacCheck/Check.antt =====
-- The check of Auth/MAC_Check.cpp, run by all players at once on what they have opened together.
use spdz_yao.Base.{
  arith, ℕ, zero, suc, ◌≤◌, ◌≡◌, refl, sym, ap, ap₂, ◌∙◌, true, Bool-cases, inl, inr, ◌==◌, ==_iff,
  if◌then◌else◌, List, [], ◌∷◌, map, length, some, get_elem?, get_or, set, drop, ok, err,
  ok-injective, mac_fail,
}
use spdz_yao.Math.Value.{Value, nil, ◌⊖◌, ◌⊗◌, is_zero, sum}
use spdz_yao.Math.Value.Laws.{nil_plus}
use spdz_yao.Math.Value.Sum.{sum-map-minus, sum-map-times, sum-map-ext}
use spdz_yao.Auth.MacCheck.{MacCheck, own_tau, total, check, waiting_for_check}
use spdz_yao.Auth.MacCheck.Weighted.{
  weighted, own_tau-weighted, weighted-minus, sum-weighted, total-sum,
}

-- The players, each with the place of its number.
abbrev pub Placed {κ} : {P : Type κ} → List P → (P → ℕ) → Type κ
Placed {P = P} ps my_num = (p : P) → get_elem? ps (my_num p) ≡ some p

some-injective {ℓ} : {A : Type ℓ} {x y : A} → some x ≡ some y → x ≡ y
some-injective e = cc

set-map_same {κ ℓ} :
    {P : Type κ} {T : Type ℓ} (f : P → T) (ps : List P) (i : ℕ) (p : P)
    → get_elem? ps i ≡ some p
    → set (map f ps) i (f p) ≡ map f ps
set-map_same f [] i p at = refl
set-map_same f (q ∷ ps) zero p at = ap (λ r. f r ∷ map f ps) (sym (some-injective at))
set-map_same f (q ∷ ps) (suc i) p at = ap (λ xs. f q ∷ xs) (set-map_same f ps i p at)

module _ {ℓ κ} {T : Type ℓ} ⦃v : Value T⦄ {P : Type κ} (ps : List P) where
  -- How far the shares of the MAC of an opened value are from the value times the key.
  unfoldable pub discrepancy : (P → MacCheck T) → List T → ℕ → T
  discrepancy mcs opened i =
      sum (map (λ p. get_or (mcs p).macs i nil) ps)
      ⊖ sum (map (λ p. (mcs p).alphai) ps) ⊗ get_or opened i nil

  -- What `Check` leaves of the player's state.
  unfoldable pub cleared : MacCheck T → MacCheck T
  cleared mc = record mc {
    popen_cnt = 0;
    macs = drop mc.popen_cnt mc.macs;
    vals = drop mc.popen_cnt mc.vals;
  }

  cleared-same : (mc : MacCheck T) → mc.popen_cnt ≡ 0 → cleared mc ≡ mc
  unfolding cleared
  cleared-same mc zero_count =
      ap (λ k. record mc { popen_cnt = 0; macs = drop k mc.macs; vals = drop k mc.vals }) zero_count
      ∙ ap (λ k. record mc { popen_cnt = k }) (sym zero_count)

  -- The players have stored the same opened values, and each its share of every MAC.
  pub record Agreed (mcs : P → MacCheck T) (opened : List T) (n : ℕ) : Type (ℓ ⊔ κ) where
    pub same_values : (p : P) → (mcs p).vals ≡ opened
    pub same_count : (p : P) → (mcs p).popen_cnt ≡ n
    pub values_there : n ≤ length opened
    pub macs_there : (p : P) → n ≤ length (mcs p).macs

  module _ (h : ℕ → T) (my_num : P → ℕ) (placed : Placed ps my_num) {mcs : P → MacCheck T}
      {opened : List T} {n : ℕ} (agreed : Agreed mcs opened n) where
    unfoldable pub tau_of : P → T
    tau_of p =
        weighted h (λ i. get_or (mcs p).macs i nil) n
        ⊖ (mcs p).alphai ⊗ weighted h (λ i. get_or opened i nil) n

    pub own_tau-tau_of : (p : P) → own_tau h (mcs p) ≡ ok (tau_of p)
    unfolding tau_of
    own_tau-tau_of p =
        own_tau-weighted h (mcs p)
          (rw (agreed.same_values p, agreed.same_count p) agreed.values_there)
          (rw (agreed.same_count p) (agreed.macs_there p))
        ∙ ap₂
            (λ k xs. ok (
              weighted h (λ i. get_or (mcs p).macs i nil) k
              ⊖ (mcs p).alphai ⊗ weighted h (λ i. get_or xs i nil) k))
            (agreed.same_count p) (agreed.same_values p)

    -- The sum of all players' combinations is the combination of the discrepancies.
    sum-tau_of : sum (map tau_of ps) ≡ weighted h (discrepancy mcs opened) n
    unfolding tau_of discrepancy
    sum-tau_of =
        sum-map-minus _ _ ps
        ∙ ap₂ ◌⊖◌ (sum-weighted h (λ p i. get_or (mcs p).macs i nil) ps n) scaled_keys
        ∙ sym (weighted-minus h _ _ _ n)
      where
        values : T
        values = weighted h (λ i. get_or opened i nil) n

        scaled_keys :
            sum (map (λ p. (mcs p).alphai ⊗ values) ps)
            ≡ sum (map (λ p. (mcs p).alphai) ps) ⊗ values
        scaled_keys =
            sum-map-ext ps (λ p. v.times_comm (mcs p).alphai values)
            ∙ sum-map-times values (λ p. (mcs p).alphai) ps
            ∙ v.times_comm values _

    check-sum :
        (taus : P → T)
        → ((q : P) → own_tau h (mcs q) ≡ ok (taus q))
        → (p : P)
        → total nil (set (map taus ps) (my_num p) (taus p)) ≡ weighted h (discrepancy mcs opened) n
    check-sum taus sent p =
        total-sum nil _
        ∙ nil_plus _
        ∙ ap sum (set-map_same taus ps (my_num p) p (placed p))
        ∙ sum-map-ext ps (λ q. ok-injective (sym (sent q) ∙ own_tau-tau_of q))
        ∙ sum-tau_of

    nothing_waits :
        (p : P)
        → (waiting_for_check (mcs p) == 0) ≡ true
        → (cleared (mcs p) ≡ mcs p) × (is_zero (weighted h (discrepancy mcs opened) n) ≡ true)
    unfolding waiting_for_check weighted
    nothing_waits p none =
        let n-zero : n ≡ 0 = omega (arith, agreed.macs_there p, (==_iff _ _).0 none) in
        (
          cleared-same (mcs p) (agreed.same_count p ∙ n-zero),
          rw n-zero ((v.is_zero_iff nil).1 refl),
        )

    -- When all players have the same values and counts, and each the values that the others send,
    -- check at any of them returns, with the checked values removed, if the weighted sum of the
    -- discrepancies is zero, and throws mac_fail otherwise.
    pub check_lem :
        (taus : P → T)
        → ((q : P) → own_tau h (mcs q) ≡ ok (taus q))
        → (p : P)
        → check h (map taus ps) (my_num p) (mcs p) ≡ (
            if is_zero (weighted h (discrepancy mcs opened) n)
            then ok (cleared (mcs p))
            else err mac_fail)
    unfolding check cleared
    check_lem taus sent p = elim (Bool-cases (waiting_for_check (mcs p) == 0)) [
      | inl nothing ↦
          let (same, zero_sum) = nothing_waits p nothing in
          rw (nothing, zero_sum) (ap ok (sym same))
      | inr something ↦
          rw (something, sent p)
            (ap (λ t. if is_zero t then ok (cleared (mcs p)) else err mac_fail)
              (check-sum taus sent p))
    ]
