-- ===== src/Auth/MacCheck/Honest.antt =====
-- Openings and checks of honest players of Auth/MAC_Check.cpp, with what all of them send.
use spdz_yao.Base.{
  arith, ℕ, ◌+◌, ◌^◌, ◌<◌, ◌≡◌, refl, sym, ap, ◌∙◌, inl, inr, Bool, true, false, Bool-cases, leb,
  if◌then◌else◌, List, [], ◌++◌, map, length, ok, ◌>>=◌,
}
use spdz_yao.Math.Value.{Value, is_zero}
use spdz_yao.Math.Share.{Share}
use spdz_yao.Auth.MacCheck.{
  MacCheck, own_tau, check, check_if_needed, waiting_for_check, popen_max, popen_begin, popen_end,
}
use spdz_yao.Auth.MacCheck.Weighted.{weighted, weighted-ext, weighted-nil}
use spdz_yao.Auth.MacCheck.Check.{Placed, discrepancy, cleared, check_lem, tau_of, own_tau-tau_of}
use spdz_yao.Auth.MacCheck.Opening.{stored, popen_end-popen_begin}
use spdz_yao.Auth.MacCheck.Sessions.{Verified, Opens, cleared-Verified, stored-Verified, next}

module _ {ℓ κ} {T : Type ℓ} ⦃v : Value T⦄ {P : Type κ} (ps : List P) where
  -- What check_if_needed leaves when all is well.
  unfoldable pub settled : MacCheck T → MacCheck T
  settled mc = if leb popen_max (waiting_for_check mc) then cleared ps mc else mc

  waiting-length :
      {mcs : P → MacCheck T} {opened : List T}
      → Verified ps mcs opened
      → (p : P) → waiting_for_check (mcs p) ≡ length opened
  unfolding waiting_for_check
  waiting-length w p = omega (arith, w.as_many_macs p, ap length (w.agreed.same_values p))

  -- The opened values that are still to be checked.
  unfoldable pub remaining : List T → List T
  remaining opened = if leb popen_max (length opened) then [] else opened

  pub length-remaining : (opened : List T) → length (remaining opened) < popen_max
  unfolding remaining
  length-remaining opened = elim (Bool-cases (leb popen_max (length opened))) [
    | inl many ↦ rw many (omega arith)
    | inr few ↦ rw few (ground arith)
  ]

  either-Verified :
      {mcs : P → MacCheck T} {opened : List T} (many : Bool)
      → Verified ps mcs opened
      → Verified ps (λ p. if many then cleared ps (mcs p) else mcs p) (if many then [] else opened)
  either-Verified true w = cleared-Verified ps w
  either-Verified false w = w

  pub settled-Verified :
      {mcs : P → MacCheck T} {opened : List T}
      → Verified ps mcs opened
      → Verified ps (λ p. settled (mcs p)) (remaining opened)
  unfolding settled remaining
  settled-Verified {mcs = mcs} {opened = opened} w =
      rw same (either-Verified (leb popen_max (length opened)) w)
    where
      by_count : (P → ℕ) → P → MacCheck T
      by_count count p = if leb popen_max (count p) then cleared ps (mcs p) else mcs p

      same : by_count (λ p. waiting_for_check (mcs p)) ≡ by_count (λ _. length opened)
      same = ap by_count (λ i p. waiting-length w p i)

  module _ (h : ℕ → T) (my_num : P → ℕ) (placed : Placed ps my_num) where
    -- The check of players in such a state, with what all of them send.
    pub check-Verified :
        {mcs : P → MacCheck T} {opened : List T}
        → Verified ps mcs opened
        → (taus : P → T) → ((q : P) → own_tau h (mcs q) ≡ ok (taus q))
        → (p : P) → check h (map taus ps) (my_num p) (mcs p) ≡ ok (cleared ps (mcs p))
    check-Verified {mcs = mcs} {opened = opened} w taus sent p =
        check_lem ps h my_num placed w.agreed taus sent p ∙ rw fits refl
      where
        fits : is_zero (weighted h (discrepancy ps mcs opened) (length opened)) ≡ true
        fits =
            (v.is_zero_iff _).1
              (weighted-ext h (length opened) w.macs_fit ∙ weighted-nil h (length opened))

    check_if_needed-Verified :
        {mcs : P → MacCheck T} {opened : List T}
        → Verified ps mcs opened
        → (taus : P → T) → ((q : P) → own_tau h (mcs q) ≡ ok (taus q))
        → (p : P) → check_if_needed h (map taus ps) (my_num p) (mcs p) ≡ ok (settled (mcs p))
    unfolding check_if_needed settled
    check_if_needed-Verified {mcs = mcs} w taus sent p =
        elim (Bool-cases (leb popen_max (waiting_for_check (mcs p)))) [
          | inl many ↦ rw many (check-Verified w taus sent p)
          | inr few ↦ rw few refl
        ]

    module _ {mcs : P → MacCheck T} {opened : List T} {ss : P → List (Share T)} {summed : List T}
        (w : Verified ps mcs opened) (o : Opens ps (λ p. (mcs p).alphai) ss summed)
        (relays : P → Bool) (fits : length opened + length summed < 2 ^ 31) where
      pub popen_end-settled :
          (taus : P → T)
          → ((q : P) → own_tau h (stored (ss q) summed (mcs q)) ≡ ok (taus q))
          → (p : P)
          → popen_end h
              (relays p)
              (length (ss p))
              summed
              (map taus ps)
              (my_num p)
              (popen_begin (relays p) (ss p) summed (mcs p))
            ≡ ok (summed, settled (stored (ss p) summed (mcs p)))
      unfolding next
      popen_end-settled taus sent p =
          popen_end-popen_begin h (relays p) (ss p) summed (map taus ps) (my_num p) (mcs p)
            (w.agreed.same_count p ∙ sym (ap length (w.agreed.same_values p))) (sym (o.sized p))
            (rw (w.agreed.same_values p, o.sized p) fits)
          ∙ ap (λ r. r >>= (λ checked. ok (summed, checked)))
              (check_if_needed-Verified (stored-Verified ps w o) taus sent p)

      -- When honest players whose stored MACs fit open shares of values under their key, there are
      -- values that they commit to, with which every player's POpen_End returns the opened values,
      -- whichever players pass sums on, and the stored MACs fit again.
      pub popen-Verified :
          (taus : P → T) × (mcs' : P → MacCheck T) × ((p : P)
            → own_tau h (stored (ss p) summed (mcs p)) ≡ ok (taus p))
          × ((p : P)
              → popen_end h
                  (relays p)
                  (length (ss p))
                  summed
                  (map taus ps)
                  (my_num p)
                  (popen_begin (relays p) (ss p) summed (mcs p))
                ≡ ok (summed, mcs' p))
          × Verified ps mcs' (remaining (opened ++ summed))
      unfolding next
      popen-Verified =
          let after = stored-Verified ps w o in
          let sent = own_tau-tau_of ps h my_num placed after.agreed in
          (
            tau_of ps h my_num placed after.agreed,
            (λ p. settled (next ps w o p)),
            sent,
            popen_end-settled _ sent,
            settled-Verified after,
          )
