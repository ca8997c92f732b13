-- ===== src/Auth/MacCheck/Opening.antt =====
-- POpen_Begin and POpen_End of Auth/MAC_Check.cpp, one after the other, at one player.
use spdz_yao.Base.{
  arith, ℕ, ◌+◌, ◌%◌, ◌^◌, ◌<◌, ◌≡◌, refl, ap, ◌∙◌, Bool, true, false, ltb, if◌then◌else◌, List, [],
  append-nil, ◌++◌, map, length, length-append, take-length_append, drop-length_append, take, drop,
  ok, err, ◌>>=◌, out_of_range,
}
use spdz_yao.Math.Value.{Value}
use spdz_yao.Math.Share.{Share}
use spdz_yao.Auth.MacCheck.{
  MacCheck, as_int, get_values, add_to_macs, add_to_values, check_if_needed, popen_begin, popen_end,
  finish,
}

pub as_int-ok : (n : ℕ) → n < 2 ^ 31 → as_int n ≡ ok n
unfolding as_int
as_int-ok n fits = ground arith

module _ {ℓ} {T : Type ℓ} where
  -- GetValues returns the values stored next after those counted, if there are that many, and
  -- throws out_of_range otherwise, for fewer than 2^31 of them.
  pub get_values_lem :
      (mc : MacCheck T) (size : ℕ)
      → mc.popen_cnt + size < 2 ^ 31
      → length mc.vals < 2 ^ 31
      → get_values size mc ≡ (
          if ltb (length mc.vals) (mc.popen_cnt + size)
          then err out_of_range
          else ok (take size (drop mc.popen_cnt mc.vals)))
  unfolding get_values
  get_values_lem mc size fits stored =
      rw (as_int-ok (mc.popen_cnt + size) fits, as_int-ok (length mc.vals) stored) refl

  pub get_values-next :
      (mc : MacCheck T) (before next rest : List T)
      → mc.vals ≡ before ++ (next ++ rest)
      → mc.popen_cnt ≡ length before
      → length mc.vals < 2 ^ 31
      → get_values (length next) mc ≡ ok next
  get_values-next mc before next rest vals count fits =
      get_values_lem mc (length next) (rw count small) fits ∙ rw in_range (ap ok found)
    where
      total_length : length mc.vals ≡ length before + (length next + length rest)
      total_length =
          omega
            (arith, ap length vals, length-append before (next ++ rest), length-append next rest)

      small : length before + length next < 2 ^ 31
      small = omega (arith, total_length)

      in_range : ltb (length mc.vals) (mc.popen_cnt + length next) ≡ false
      in_range = ground (arith, total_length, count)

      found : take (length next) (drop mc.popen_cnt mc.vals) ≡ next
      found =
          rw (count, vals, drop-length_append before (next ++ rest)) (take-length_append next rest)

  -- The player's state when the opened values are stored and counted.
  unfoldable pub stored : List (Share T) → List T → MacCheck T → MacCheck T
  stored ss values mc = record mc {
    popen_cnt = mc.popen_cnt + length values;
    macs = mc.macs ++ map (λ s. s.mac) ss;
    vals = mc.vals ++ values;
    values_opened = (mc.values_opened + length ss) % 2 ^ 32;
  }

  -- What `start` has stored when it returns, and `finish` adds at the other players.
  finish-popen_begin :
      (relays : Bool) (ss : List (Share T)) (summed : List T) (mc : MacCheck T)
      → mc.popen_cnt ≡ length mc.vals
      → length summed ≡ length ss
      → length mc.vals + length ss < 2 ^ 31
      → finish relays (length ss) summed (popen_begin relays ss summed mc)
        ≡ ok (summed, record (stored ss summed mc) { popen_cnt = mc.popen_cnt })
  unfolding popen_begin finish add_to_values add_to_macs stored
  finish-popen_begin true ss summed mc counted sized fits =
      let started = record (stored ss summed mc) { popen_cnt = mc.popen_cnt } in
      ap (λ r. r >>= (λ values. ok (values, started))) fetched
    where
      fetched :
          get_values (length ss) (record (stored ss summed mc) { popen_cnt = mc.popen_cnt })
          ≡ ok summed
      fetched = rw (← sized) (
          get_values-next (record (stored ss summed mc) { popen_cnt = mc.popen_cnt }) mc.vals summed
            [] (rw (append-nil summed) refl) counted (omega (arith, length-append mc.vals summed)))
  finish-popen_begin false ss summed mc counted sized fits = refl

module _ {ℓ} {T : Type ℓ} ⦃v : Value T⦄ (h : ℕ → T) where
  -- A player that counts all it has stored, and opens shares as the values that the tree sums them
  -- to, has these values returned, and stored with its MACs for the check, whether it passes sums on
  -- or not, for fewer than 2^31 values.
  pub popen_end-popen_begin :
      (relays : Bool) (ss : List (Share T)) (summed received : List T) (my_num : ℕ)
      (mc : MacCheck T)
      → mc.popen_cnt ≡ length mc.vals
      → length summed ≡ length ss
      → length mc.vals + length ss < 2 ^ 31
      → popen_end h relays (length ss) summed received my_num (popen_begin relays ss summed mc) ≡ (
          check_if_needed h received my_num (stored ss summed mc)
          >>= (λ checked. ok (summed, checked)))
  unfolding popen_end stored
  popen_end-popen_begin relays ss summed received my_num mc counted sized fits =
      rw
        (
          finish-popen_begin relays ss summed mc counted sized fits,
          as_int-ok (mc.popen_cnt + length summed) (omega arith),
        )
        refl
