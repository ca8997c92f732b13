-- ===== src/Auth/Passing/Opening.antt =====
-- POpen_Begin and POpen_End of class Passing_MAC_Check of Auth/MAC_Check.cpp, with the passes between
-- all players.
use spdz_yao.Base.{
  arith, ℕ, ◌+◌, ◌^◌, ◌<◌, ◌≡◌, refl, sym, ap, ◌∙◌, Bool, true, false, leb, if◌then◌else◌, List, [],
  ◌++◌, append-nil, map, length, length-map, length-append, get_or, Result, ok, ◌>>=◌,
}
use spdz_yao.Math.Value.{Value, nil}
use spdz_yao.Math.Share.{Share}
use spdz_yao.Auth.MacCheck.{
  MacCheck, popen_max, check, check_if_needed, waiting_for_check, get_values,
}
use spdz_yao.Auth.MacCheck.Opening.{as_int-ok, get_values-next}
use spdz_yao.Auth.TreeSum.Below.{sum_below}
use spdz_yao.Auth.Passing.{pass_all, passing_begin, passing_end}
use spdz_yao.Auth.Passing.Total.{pass_all-Leaves}

module _ {ℓ} {T : Type ℓ} ⦃v : Value T⦄ where
  -- The player's state when the opened values are stored and counted; `values_opened` stays.
  unfoldable pub passed : List (Share T) → List T → MacCheck T → MacCheck T
  passed ss values mc = record mc {
    popen_cnt = mc.popen_cnt + length values;
    macs = mc.macs ++ map (λ s. s.mac) ss;
    vals = mc.vals ++ values;
  }

  -- `POpen_End` returns these values when the check does.
  abbrev pub returning : List T → Result (MacCheck T) → Result (List T × MacCheck T)
  returning values checking = checking >>= (λ checked. ok (values, checked))

  waiting-passed :
      (ss : List (Share T)) (values : List T) (mc : MacCheck T) (size : ℕ)
      → length ss ≡ size
      → length values ≡ size
      → waiting_for_check (passed ss values mc) ≡ waiting_for_check mc + size
  unfolding passed waiting_for_check
  waiting-passed ss values mc size shares sized = omega (
    arith,
    length-append mc.macs (map (λ s. s.mac) ss),
    length-append mc.vals values,
    length-map ss (λ s. s.mac),
  )

  -- The check that may be due when opened values are stored and counted.
  pub check_if_needed-passed :
      (h : ℕ → T) (ss : List (Share T)) (values received : List T) (my_num : ℕ) (mc : MacCheck T)
      (size : ℕ)
      → length ss ≡ size
      → length values ≡ size
      → returning values (check_if_needed h received my_num (passed ss values mc)) ≡ (
          if leb popen_max (waiting_for_check mc + size)
          then returning values (check h received my_num (passed ss values mc))
          else ok (values, passed ss values mc))
  unfolding check_if_needed
  check_if_needed-passed h ss values received my_num mc size shares sized =
      rw (waiting-passed ss values mc size shares sized)
        (by_test (leb popen_max (waiting_for_check mc + size)) _)
    where
      by_test :
          (b : Bool) (checking : Result (MacCheck T))
          → returning values (if b then checking else ok (passed ss values mc))
            ≡ (if b then returning values checking else ok (values, passed ss values mc))
      by_test true checking = refl
      by_test false checking = refl

  passing_end-passing_begin :
      (h : ℕ → T) (ss : List (Share T)) (os received : List T) (my_num : ℕ) (mc : MacCheck T)
      → mc.popen_cnt ≡ length mc.vals
      → length os ≡ length ss
      → length mc.vals + length ss < 2 ^ 31
      → passing_end h (length ss) received my_num (passing_begin ss os mc)
        ≡ returning os (check_if_needed h received my_num (passed ss os mc))
  unfolding passing_end passing_begin passed
  passing_end-passing_begin h ss os received my_num mc counted sized fits =
      rw (fetched, as_int-ok (mc.popen_cnt + length os) (omega arith)) refl
    where
      begun : MacCheck T
      begun = passing_begin ss os mc

      fetched : get_values (length ss) begun ≡ ok os
      fetched = rw (← sized) (
          get_values-next begun mc.vals os [] (rw (append-nil os) refl) counted
            (omega (arith, length-append mc.vals os)))

  -- If all players open equally many shares, then the passes leave every player with the sums of all
  -- players' shares, and a player that counts all it has stored then, in POpen_End, stores and counts
  -- these sums for the check with its MACs, for fewer than 2^31 values; with fewer than POPEN_MAX
  -- waiting for the check it returns these sums and this state, and otherwise this is so if Check of
  -- this state returns, and what Check throws is thrown.
  pub passing_opens :
      (n size : ℕ) (ss : ℕ → List (Share T))
      → ((r : ℕ) → r < n → length (ss r) ≡ size)
      → (r : ℕ) → r < n
      → (h : ℕ → T) (received : List T) (my_num : ℕ) (mc : MacCheck T)
      → mc.popen_cnt ≡ length mc.vals
      → length mc.vals + size < 2 ^ 31
      → (os : List T) × (pass_all n (λ q. map (λ s. s.a) (ss q)) r ≡ ok os)
        × ((i : ℕ) → get_or os i nil ≡ sum_below n (λ q. get_or (map (λ s. s.a) (ss q)) i nil))
        × (passing_end h size received my_num (passing_begin (ss r) os mc) ≡ (
            if leb popen_max (waiting_for_check mc + size)
            then returning os (check h received my_num (passed (ss r) os mc))
            else ok (os, passed (ss r) os mc)))
  passing_opens n size ss sized r below h received my_num mc counted fits =
      let all =
        pass_all-Leaves n size (λ q. map (λ s. s.a) (ss q))
          (λ q hq. length-map (ss q) (λ s. s.a) ∙ sized q hq) r below in
      let same = sized r below in
      (
        all.os,
        all.returns,
        all.entries,
        ap (λ k. passing_end h k received my_num (passing_begin (ss r) all.os mc)) (sym same)
            ∙ passing_end-passing_begin h (ss r) all.os received my_num mc counted
                (all.sized ∙ sym same) (rw same fits)
            ∙ check_if_needed-passed h (ss r) all.os received my_num mc size same all.sized,
      )
