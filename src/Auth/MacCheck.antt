-- ===== src/Auth/MacCheck.antt =====
-- Auth/MAC_Check.h and Auth/MAC_Check.cpp: what one player keeps of the values opened and not yet
-- checked, and the check. The network and the generator are parameters: `h i` is the value that the
-- generator, seeded alike for all, draws in round `i`, and `received` is what Commit_And_Open leaves
-- in `tau` at the other players.
pub mod Weighted
pub mod Check
pub mod Opening
pub mod Sessions
pub mod Honest
pub mod Reachable
use spdz_yao.Base.{
  ℕ, zero, suc, ◌+◌, ◌%◌, ◌^◌, max, Bool, ltb, leb, ◌==◌, if◌then◌else◌, List, [], ◌∷◌, ◌++◌, map,
  length, element, set, take, drop, Result, ok, err, ◌>>=◌, fault, out_of_range, mac_fail,
}
use spdz_yao.Math.Value.{Value, nil, ◌⊕◌, ◌⊖◌, ◌⊗◌, is_zero}
use spdz_yao.Math.Share.{Share}

-- `POPEN_MAX`.
abbrev pub popen_max : ℕ
popen_max = 1000000

-- `values_opened` is the pattern of an `int`, and the other counters are exact.
pub record MacCheck {ℓ} (T : Type ℓ) : Type ℓ where
  pub popen_cnt : ℕ
  pub macs : List T
  pub vals : List T
  pub alphai : T
  pub values_opened : ℕ

-- A count that an `int` cannot hold is undefined behaviour, or leads to it.
unfoldable pub as_int : ℕ → Result ℕ
as_int n = if ltb n (2 ^ 31) then ok n else err fault

module _ {ℓ} {T : Type ℓ} where
  unfoldable pub new_mac_check : T → MacCheck T
  new_mac_check ai = record { popen_cnt = 0; macs = []; vals = []; alphai = ai; values_opened = 0 }

  unfoldable pub add_to_macs : List (Share T) → MacCheck T → MacCheck T
  add_to_macs ss mc = record mc { macs = mc.macs ++ map (λ s. s.mac) ss }

  unfoldable pub add_to_values : List T → MacCheck T → MacCheck T
  add_to_values values mc = record mc { vals = mc.vals ++ values }

  -- `GetValues(values)`, where `size` is `values.size()`.
  unfoldable pub get_values : ℕ → MacCheck T → Result (List T)
  unfolding as_int
  get_values size mc = do
    end ← as_int (mc.popen_cnt + size)
    stored ← as_int (length mc.vals)
    if ltb stored end then err out_of_range else ok (take size (drop mc.popen_cnt mc.vals))

  unfoldable pub waiting_for_check : MacCheck T → ℕ
  waiting_for_check mc = max (length mc.macs) (length mc.vals)

  -- `POpen_Begin`. `summed` is what the tree of Auth/MAC_Check.h sums the players' shares to. A player
  -- that passes sums on (`relays`) has it when `start` returns, and stores it then.
  unfoldable pub popen_begin : Bool → List (Share T) → List T → MacCheck T → MacCheck T
  unfolding add_to_macs add_to_values
  popen_begin relays ss summed mc =
      let stored = add_to_macs ss mc in
      let started = if relays then add_to_values summed stored else stored in
      record started { values_opened = (mc.values_opened + length ss) % 2 ^ 32 }

  -- `finish` of the tree: the stored sums, or those that come in now.
  unfoldable pub finish : Bool → ℕ → List T → MacCheck T → Result (List T × MacCheck T)
  unfolding get_values add_to_values
  finish relays size summed mc =
      if relays
      then (do values ← get_values size mc; ok (values, mc))
      else ok (summed, add_to_values summed mc)

module _ {ℓ} {T : Type ℓ} ⦃v : Value T⦄ where
  -- The sum of `tau`.
  unfoldable pub total : T → List T → T
  total t [] = t
  total t (x ∷ tau) = total (t ⊕ x) tau

module _ {ℓ} {T : Type ℓ} ⦃v : Value T⦄ (h : ℕ → T) where
  -- `a` and `gami` after the first rounds of the loop of `Check`.
  unfoldable pub combinations : MacCheck T → ℕ → Result (T × T)
  combinations mc zero = ok (nil, nil)
  combinations mc (suc i) = do
    (a, gami) ← combinations mc i
    value ← element mc.vals i
    mac ← element mc.macs i
    ok (a ⊕ h i ⊗ value, gami ⊕ h i ⊗ mac)

  -- What the player puts into `tau[P.my_num()]`.
  unfoldable pub own_tau : MacCheck T → Result T
  unfolding combinations
  own_tau mc = do (a, gami) ← combinations mc mc.popen_cnt; ok (gami ⊖ mc.alphai ⊗ a)

  unfoldable pub check : List T → ℕ → MacCheck T → Result (MacCheck T)
  unfolding own_tau total
  check received my_num mc =
      let checked = record mc {
        popen_cnt = 0;
        macs = drop mc.popen_cnt mc.macs;
        vals = drop mc.popen_cnt mc.vals;
      } in
      if waiting_for_check mc == 0 then ok mc else (do
        own ← own_tau mc
        if is_zero (total nil (set received my_num own)) then ok checked else err mac_fail)

  unfoldable pub check_if_needed : List T → ℕ → MacCheck T → Result (MacCheck T)
  check_if_needed received my_num mc =
      let checked = check received my_num mc in
      if leb popen_max (waiting_for_check mc) then checked else ok mc

  unfoldable pub add_to_check : T → T → List T → ℕ → MacCheck T → Result (MacCheck T)
  unfolding as_int
  add_to_check mac value received my_num mc = do
    cnt ← as_int (mc.popen_cnt + 1)
    check_if_needed received my_num
        (record mc { macs = mc.macs ++ mac ∷ []; vals = mc.vals ++ value ∷ []; popen_cnt = cnt })

  -- `POpen_End`, and the values that it leaves in `values`.
  unfoldable pub popen_end :
      Bool → ℕ → List T → List T → ℕ → MacCheck T → Result (List T × MacCheck T)
  unfolding finish as_int
  popen_end relays size summed received my_num mc = do
    (values, finished) ← finish relays size summed mc
    cnt ← as_int (finished.popen_cnt + length values)
    checked ← check_if_needed received my_num (record finished { popen_cnt = cnt })
    ok (values, checked)
