-- ===== src/Auth/MacCheck/Reachable.antt =====
-- The states that sessions of honest players of Auth/MAC_Check.cpp lead to.
use spdz_yao.Base.{
  arith, ℕ, ◌^◌, ◌≤◌, ◌<◌, ◌≡◌, refl, sym, ap, ◌∙◌, Bool, List, [], map, length, ok, ok-injective,
  ◌++◌,
}
use mathlib.Core.Path.{subst}
use spdz_yao.Math.Value.{Value}
use spdz_yao.Math.Share.{Share}
use spdz_yao.Auth.MacCheck.{
  MacCheck, new_mac_check, own_tau, check, popen_max, popen_begin, popen_end,
}
use spdz_yao.Auth.MacCheck.Check.{Placed, cleared, tau_of, own_tau-tau_of}
use spdz_yao.Auth.MacCheck.Opening.{stored}
use spdz_yao.Auth.MacCheck.Sessions.{
  Verified, Opens, cleared-Verified, stored-Verified, new-Verified, next,
}
use spdz_yao.Auth.MacCheck.Honest.{
  settled, remaining, settled-Verified, length-remaining, check-Verified, popen_end-settled,
}

ok-second {ℓ κ} : {A : Type ℓ} {B : Type κ} {x y : A × B} → ok x ≡ ok y → x.1 ≡ y.1
ok-second e = ap (λ z. z.1) (ok-injective e)

module _ {ℓ κ} {T : Type ℓ} ⦃v : Value T⦄ {P : Type κ} (ps : List P) (my_num : P → ℕ) where
  -- The players start with their shares of the key. In a step, all open shares of values under it,
  -- at most 2^30 at a time, or all run the check, with what every player sends. Each time the
  -- generator draws other weights.
  pub data Session (alphais : P → T) : (P → MacCheck T) → Type (ℓ ⊔ κ) where
    begins : Session alphais (λ p. new_mac_check (alphais p))
    opens :
        {mcs : P → MacCheck T}
        → Session alphais mcs
        → (ss : P → List (Share T)) (summed : List T) → Opens ps (λ p. (mcs p).alphai) ss summed
        → length summed ≤ 2 ^ 30
        → (h : ℕ → T) (relays : P → Bool) (taus : P → T)
        → ((q : P) → own_tau h (stored (ss q) summed (mcs q)) ≡ ok (taus q))
        → (values : P → List T) (mcs' : P → MacCheck T)
        → ((p : P)
            → popen_end h
                (relays p)
                (length (ss p))
                summed
                (map taus ps)
                (my_num p)
                (popen_begin (relays p) (ss p) summed (mcs p))
              ≡ ok (values p, mcs' p))
        → Session alphais mcs'
    checks :
        {mcs : P → MacCheck T}
        → Session alphais mcs
        → (h : ℕ → T) (taus : P → T) → ((q : P) → own_tau h (mcs q) ≡ ok (taus q))
        → (mcs' : P → MacCheck T)
        → ((p : P) → check h (map taus ps) (my_num p) (mcs p) ≡ ok (mcs' p))
        → Session alphais mcs'

  module _ (placed : Placed ps my_num) where
    -- In every state that a session leads to, the players have stored the same opened values, fewer
    -- than POPEN_MAX, have counted all of them, and the sum of their shares of each value's MAC is
    -- the value times the sum of their shares of the key.
    pub Session-Verified :
        {alphais : P → T} {mcs : P → MacCheck T}
        → Session alphais mcs
        → (opened : List T) × (length opened < popen_max) × Verified ps mcs opened
    unfolding stored next
    Session-Verified {alphais = alphais} begins = ([], omega arith, new-Verified ps alphais)
    Session-Verified
          (opens {mcs = mcs} s ss summed o small h relays taus sent values mcs' returns) =
        let (opened, few, w) = Session-Verified s in
        let same : (λ p. settled ps (stored (ss p) summed (mcs p))) ≡ mcs' = λ i p.
          ok-second
            (sym (popen_end-settled ps h my_num placed w o relays (omega arith) taus sent p)
              ∙ returns p)
            i in
        (
          remaining ps (opened ++ summed),
          length-remaining ps (opened ++ summed),
          subst (λ m. Verified ps m (remaining ps (opened ++ summed))) same
              (settled-Verified ps (stored-Verified ps w o)),
        )
    Session-Verified (checks {mcs = mcs} s h taus sent mcs' returns) =
        let (opened, few, w) = Session-Verified s in
        let same : (λ p. cleared ps (mcs p)) ≡ mcs' = λ i p.
          ok-injective (sym (check-Verified ps h my_num placed w taus sent p) ∙ returns p) i in
        ([], omega arith, subst (λ m. Verified ps m []) same (cleared-Verified ps w))

    -- After any session, when all players run the check and receive what the others send, it returns
    -- at every player, and leaves nothing counted.
    pub Session-check :
        {alphais : P → T} {mcs : P → MacCheck T}
        → Session alphais mcs
        → (h : ℕ → T)
        → (taus : P → T) × ((q : P) → own_tau h (mcs q) ≡ ok (taus q))
          × ((p : P)
              → (mc : MacCheck T) × (check h (map taus ps) (my_num p) (mcs p) ≡ ok mc)
                × (mc.popen_cnt ≡ 0))
    unfolding cleared
    Session-check {mcs = mcs} s h =
        let (opened, few, w) = Session-Verified s in
        let sent = own_tau-tau_of ps h my_num placed w.agreed in
        (
          tau_of ps h my_num placed w.agreed,
          sent,
          λ p. (cleared ps (mcs p), check-Verified ps h my_num placed w _ sent p, refl),
        )
