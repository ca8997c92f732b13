-- ===== src/Auth/Direct.antt =====
-- Class Direct_MAC_Check of Auth/MAC_Check.cpp: every player sends its shares to all others.
pub mod Opening
use spdz_yao.Base.{
  ℕ, ◌+◌, ltb, if◌then◌else◌, List, [], ◌∷◌, ◌++◌, map, length, take, drop, Result, ok, err, ◌>>=◌,
  fault,
}
use spdz_yao.Math.Value.{Value}
use spdz_yao.Math.Share.{Share}
use spdz_yao.Auth.MacCheck.{
  MacCheck, as_int, add_to_macs, add_to_values, get_values, check_if_needed,
}
use spdz_yao.Auth.TreeSum.{add_values}

module _ {ℓ} {T : Type ℓ} ⦃v : Value T⦄ where
  -- The values with those of the other players' streams, in the order of the players. A value that is
  -- not there is read past the end of the stream.
  unfoldable pub direct_add_openings : List T → List (List T) → Result (List T)
  unfolding add_values
  direct_add_openings values [] = ok values
  direct_add_openings values (os ∷ oss) =
      let rest = direct_add_openings (add_values values os) oss in
      if ltb (length os) (length values) then err fault else rest

  -- `POpen_Begin`: the own shares are stored, for the sums to replace them.
  unfoldable pub direct_begin : List (Share T) → MacCheck T → MacCheck T
  unfolding add_to_macs add_to_values
  direct_begin ss mc = add_to_values (map (λ s. s.a) ss) (add_to_macs ss mc)

  -- `vals[popen_cnt + i] = values[i]`.
  unfoldable pub store_sums : List T → MacCheck T → MacCheck T
  store_sums values mc = record mc {
    vals = take mc.popen_cnt mc.vals ++ (values ++ drop (mc.popen_cnt + length values) mc.vals);
  }

  -- `POpen_End`, where `oss` is what comes from the other players.
  unfoldable pub direct_end :
      (ℕ → T) → ℕ → List (List T) → List T → ℕ → MacCheck T → Result (List T × MacCheck T)
  unfolding get_values direct_add_openings store_sums as_int check_if_needed
  direct_end h size oss received my_num mc = do
    own ← get_values size mc
    values ← direct_add_openings own oss
    cnt ← as_int (mc.popen_cnt + length values)
    checked ← check_if_needed h received my_num (record (store_sums values mc) { popen_cnt = cnt })
    ok (values, checked)
