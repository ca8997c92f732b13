-- ===== src/Tests/Openings.antt =====
-- Two players that open a shared bit and check its MAC, for the theorems on Auth/MAC_Check.h.
use spdz_yao.Base.{
  arith, ℕ, zero, suc, ◌<◌, ◌≡◌, refl, Bool, true, false, List, [], ◌∷◌, map, length, element,
  get_or, ok, err, mac_fail, if◌then◌else◌,
}
use spdz_yao.Math.Value.{is_zero}
use spdz_yao.Math.Share.{Share}
use spdz_yao.Auth.MacCheck.{
  MacCheck, new_mac_check, own_tau, check, check_if_needed, waiting_for_check, popen_max,
  popen_begin, popen_end, finish, get_values,
}
use spdz_yao.Auth.MacCheck.Weighted.{weighted}
use spdz_yao.Auth.MacCheck.Check.{Placed, Agreed, discrepancy, cleared, check_lem}
use spdz_yao.Auth.MacCheck.Opening.{stored}
use spdz_yao.Auth.MacCheck.Sessions.{Verified, Opens, new-Verified}
use spdz_yao.Auth.MacCheck.Honest.{remaining, popen-Verified}
use spdz_yao.Auth.MacCheck.Reachable.{Session, begins, opens, Session-Verified, Session-check}
use spdz_yao.Tests.Shares.{bits, first, key_share, share_of_one, differ}

abbrev pub players : List Bool
players = true ∷ false ∷ []

placed : Placed players first
placed true = refl
placed false = refl

abbrev pub weights : ℕ → Bool
weights _ = true

abbrev pub own_shares : Bool → List (Share Bool)
own_shares p = share_of_one p ∷ []

abbrev pub starting : Bool → MacCheck Bool
starting p = new_mac_check (key_share p)

one-Opens : Opens players (λ p. (starting p).alphai) own_shares (true ∷ [])
unfolding new_mac_check
one-Opens = record { sized = λ p. refl; sums = sums; shared = shared }
  where
    sums :
        (i : ℕ)
        → get_or (true ∷ []) i false
          ≡ differ
              (get_or (map (λ s. s.a) (own_shares true)) i false)
              (differ (get_or (map (λ s. s.a) (own_shares false)) i false) false)
    sums zero = refl
    sums (suc i) = refl

    shared :
        (i : ℕ)
        → differ
            (get_or (map (λ s. s.mac) (own_shares true)) i false)
            (differ (get_or (map (λ s. s.mac) (own_shares false)) i false) false)
          ≡ differ
              (get_or (map (λ s. s.a) (own_shares true)) i false)
              (differ (get_or (map (λ s. s.a) (own_shares false)) i false) false)
    shared zero = refl
    shared (suc i) = refl

-- The values that the players have opened together, with a share of the MAC of the first that is
-- wrong.
abbrev disagreeing : Bool → MacCheck Bool
disagreeing p = record {
  popen_cnt = 1;
  macs = true ∷ [];
  vals = true ∷ [];
  alphai = key_share p;
  values_opened = 1;
}

disagreeing-Agreed : Agreed players disagreeing (true ∷ []) 1
disagreeing-Agreed = record {
  same_values = λ p. refl;
  same_count = λ p. refl;
  values_there = omega arith;
  macs_there = λ p. omega arith;
}

abbrev wrong_taus : Bool → Bool
wrong_taus true = false
wrong_taus false = true

wrong_sent : (p : Bool) → own_tau weights (disagreeing p) ≡ ok (wrong_taus p)
unfolding own_tau element
wrong_sent true = refl
wrong_sent false = refl

check_lem_example : check weights (map wrong_taus players) 0 (disagreeing true) ≡ (
    if is_zero (weighted weights (discrepancy players disagreeing (true ∷ [])) 1)
    then ok (cleared players (disagreeing true))
    else err mac_fail)
check_lem_example =
    check_lem players weights first placed disagreeing-Agreed wrong_taus wrong_sent true

popen-Verified_example :
    (taus : Bool → Bool) × (mcs' : Bool → MacCheck Bool) × ((p : Bool)
      → own_tau weights (stored (own_shares p) (true ∷ []) (starting p)) ≡ ok (taus p))
    × ((p : Bool)
        → popen_end weights p 1
            (true ∷ [])
            (map taus players)
            (first p)
            (popen_begin p (own_shares p) (true ∷ []) (starting p))
          ≡ ok (true ∷ [], mcs' p))
    × Verified players mcs' (remaining players (true ∷ []))
popen-Verified_example =
    popen-Verified players weights first placed (new-Verified players key_share) one-Opens (λ p. p)
      (omega arith)

-- The players after they have opened the bit.
abbrev opened_once : Bool → MacCheck Bool
opened_once p = stored (own_shares p) (true ∷ []) (starting p)

abbrev right_taus : Bool → Bool
right_taus _ = true

right_sent : (p : Bool) → own_tau weights (opened_once p) ≡ ok (right_taus p)
unfolding own_tau element stored new_mac_check
right_sent true = refl
right_sent false = refl

opening_returns :
    (p : Bool)
    → popen_end weights p 1
        (true ∷ [])
        (map right_taus players)
        (first p)
        (popen_begin p (own_shares p) (true ∷ []) (starting p))
      ≡ ok (true ∷ [], opened_once p)
unfolding popen_end popen_begin stored new_mac_check finish get_values check_if_needed
    waiting_for_check
opening_returns true = refl
opening_returns false = refl

one_opening : Session players first key_share opened_once
one_opening =
    opens begins own_shares (true ∷ []) one-Opens (omega arith) weights (λ p. p) right_taus
      right_sent (λ _. true ∷ []) opened_once opening_returns

Session-Verified_example :
    (opened : List Bool) × (length opened < popen_max) × Verified players opened_once opened
Session-Verified_example = Session-Verified players first placed one_opening

Session-check_example :
    (taus : Bool → Bool) × ((q : Bool) → own_tau weights (opened_once q) ≡ ok (taus q))
    × ((p : Bool)
        → (mc : MacCheck Bool) × (check weights (map taus players) (first p) (opened_once p)
            ≡ ok mc)
          × (mc.popen_cnt ≡ 0))
Session-check_example = Session-check players first placed one_opening weights
