-- ===== src/Auth/Passing.antt =====
-- Class Passing_MAC_Check of Auth/MAC_Check.cpp: the players open values by passing sums around a ring.
-- `pass_around` of Networking/Player.cpp sends to the next player and receives from the one before.
pub mod Ring
pub mod Total
pub mod Opening
use spdz_yao.Base.{
  ℕ, zero, suc, ◌+◌, ◌-◌, ◌%◌, List, [], ◌∷◌, ◌++◌, map, length, Result, ok, err, ◌>>=◌, fault,
  true,
}
use spdz_yao.Math.Value.{Value, ◌⊕◌}
use spdz_yao.Math.Share.{Share}
use spdz_yao.Auth.MacCheck.{
  MacCheck, as_int, add_to_macs, add_to_values, get_values, check_if_needed,
}

-- The player that `pass_around` receives from.
unfoldable pub previous_num : ℕ → ℕ → ℕ
previous_num num_players my_num = (my_num + num_players - 1) % num_players

module _ {ℓ} {T : Type ℓ} ⦃v : Value T⦄ where
  -- What is packed again, of the values on the stream and the player's own. A value that is not there
  -- is read past the end of the stream.
  unfoldable pub passing_add_openings : List T → List T → Result (List T)
  passing_add_openings [] os = ok []
  passing_add_openings (value ∷ values) [] = err fault
  passing_add_openings (value ∷ values) (tmp ∷ os) = do
    new_os ← passing_add_openings values os
    ok ((tmp ⊕ value) ∷ new_os)

  -- What is on a player's stream after a number of passes, where `shares r` are the shares that player
  -- `r` opens.
  unfoldable pub pass_rounds : ℕ → (ℕ → List T) → ℕ → ℕ → Result (List T)
  unfolding passing_add_openings previous_num
  pass_rounds num_players shares zero r = ok (shares r)
  pass_rounds num_players shares (suc passes) r = do
    os ← pass_rounds num_players shares passes (previous_num num_players r)
    passing_add_openings (shares r) os

  -- The stream after all passes of `POpen_Begin`.
  unfoldable pub pass_all : ℕ → (ℕ → List T) → ℕ → Result (List T)
  unfolding pass_rounds
  pass_all num_players shares r = pass_rounds num_players shares (num_players - 1) r

  -- `POpen_Begin`, with what is on the stream after the passes.
  unfoldable pub passing_begin : List (Share T) → List T → MacCheck T → MacCheck T
  unfolding add_to_macs add_to_values
  passing_begin ss os mc = add_to_values os (add_to_macs ss mc)

  unfoldable pub passing_end : (ℕ → T) → ℕ → List T → ℕ → MacCheck T → Result (List T × MacCheck T)
  unfolding get_values as_int check_if_needed
  passing_end h size received my_num mc = do
    values ← get_values size mc
    cnt ← as_int (mc.popen_cnt + length values)
    checked ← check_if_needed h received my_num (record mc { popen_cnt = cnt })
    ok (values, checked)
