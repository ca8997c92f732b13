-- ===== src/Auth/Direct/Opening.antt =====
-- POpen_Begin and POpen_End of class Direct_MAC_Check of Auth/MAC_Check.cpp, one after the other, at one
-- player.
use spdz_yao.Base.{
  arith, ℕ, ◌+◌, ◌^◌, ◌<◌, ◌≡◌, refl, sym, ap, ap₂, ◌∙◌, false, ltb, leb, if◌then◌else◌, List, [],
  ◌∷◌, ◌++◌, append-nil, map, length, length-map, length-append, get_or, take, drop, drop-length,
  take-length_append, ok,
}
use spdz_yao.Math.Value.{Value, nil, ◌⊕◌, sum}
use spdz_yao.Math.Share.{Share}
use spdz_yao.Auth.MacCheck.{
  MacCheck, popen_max, check, check_if_needed, waiting_for_check, get_values,
}
use spdz_yao.Auth.MacCheck.Opening.{as_int-ok, get_values-next}
use spdz_yao.Auth.TreeSum.{add_values}
use spdz_yao.Auth.TreeSum.Total.{length-add_values, get_or-add_values}
use spdz_yao.Auth.Passing.Total.{Leaves}
use spdz_yao.Auth.Passing.Opening.{passed, returning, check_if_needed-passed}
use spdz_yao.Auth.Direct.{direct_add_openings, direct_begin, store_sums, direct_end}

-- All vectors are of one length.
abbrev pub AllSized {ℓ} : {T : Type ℓ} → ℕ → List (List T) → Type 0
AllSized size [] = Unit
AllSized size (os ∷ oss) = (length os ≡ size) × AllSized size oss

module _ {ℓ} {T : Type ℓ} ⦃v : Value T⦄ where
  direct_add_openings-Leaves :
      (size : ℕ) (oss : List (List T)) (values : List T)
      → AllSized size oss
      → length values ≡ size
      → Leaves
          (direct_add_openings values oss)
          size
          (λ i. get_or values i nil ⊕ sum (map (λ os. get_or os i nil) oss))
  unfolding direct_add_openings
  direct_add_openings-Leaves size [] values all sized = record {
    os = values;
    returns = refl;
    sized = sized;
    entries = λ i. sym (v.plus_nil _);
  }
  direct_add_openings-Leaves size (os ∷ oss) values (here, all) sized =
      let rest =
        direct_add_openings-Leaves size oss (add_values values os) all
          (length-add_values values os ∙ sized) in
      let enough : ltb (length os) (length values) ≡ false = ground arith in
      record {
        os = rest.os;
        returns = rw enough rest.returns;
        sized = rest.sized;
        entries = λ i.
            rest.entries i
            ∙ ap (λ x. x ⊕ sum (map (λ os. get_or os i nil) oss))
                (get_or-add_values values os i (sized ∙ sym here))
            ∙ v.plus_assoc _ _ _;
      }

  own_replaced :
      (vals own sums : List T) (k : ℕ)
      → k ≡ length vals
      → length sums ≡ length own
      → take k (vals ++ own) ++ (sums ++ drop (k + length sums) (vals ++ own)) ≡ vals ++ sums
  own_replaced vals own sums k counted sized =
      let end : k + length sums ≡ length (vals ++ own) = omega (arith, length-append vals own) in
      ap₂ (λ a b. a ++ (sums ++ b))
        (ap (λ n. take n (vals ++ own)) counted ∙ take-length_append vals own)
        (ap (λ n. drop n (vals ++ own)) end ∙ drop-length (vals ++ own))
      ∙ ap (λ l. vals ++ l) (append-nil sums)

  -- If the other players send equally many shares, then a player that counts all it has stored, in
  -- POpen_End, stores and counts the sums of the own shares and theirs for the check, with its MACs and
  -- in place of the own shares, for fewer than 2^31 values; with fewer than POPEN_MAX waiting for the
  -- check it returns these sums and this state, and otherwise this is so if Check of this state returns,
  -- and what Check throws is thrown.
  pub direct_opens :
      (h : ℕ → T) (ss : List (Share T)) (oss : List (List T)) (received : List T) (my_num : ℕ)
      (mc : MacCheck T)
      → AllSized (length ss) oss
      → mc.popen_cnt ≡ length mc.vals
      → length mc.vals + length ss < 2 ^ 31
      → (values : List T) × ((i : ℕ)
          → get_or values i nil
            ≡ get_or (map (λ s. s.a) ss) i nil ⊕ sum (map (λ os. get_or os i nil) oss))
        × (direct_end h (length ss) oss received my_num (direct_begin ss mc) ≡ (
            if leb popen_max (waiting_for_check mc + length ss)
            then returning values (check h received my_num (passed ss values mc))
            else ok (values, passed ss values mc)))
  unfolding direct_end direct_begin passed store_sums
  direct_opens h ss oss received my_num mc all counted fits =
      let own : List T = map (λ s. s.a) ss in
      let length-own : length own ≡ length ss = length-map ss (λ s. s.a) in
      let sums = direct_add_openings-Leaves (length ss) oss own all length-own in
      let begun : MacCheck T = direct_begin ss mc in
      let fetched : get_values (length ss) begun ≡ ok own =
        ap (λ k. get_values k begun) (sym length-own)
        ∙ get_values-next begun mc.vals own [] (rw (append-nil own) refl) counted
            (omega (arith, length-append mc.vals own, length-own)) in
      let counts = as_int-ok (mc.popen_cnt + length sums.os) (omega (arith, sums.sized)) in
      let replaced =
        own_replaced mc.vals own sums.os mc.popen_cnt counted (sums.sized ∙ sym length-own) in
      (
        sums.os,
        sums.entries,
        rw (fetched, sums.returns, counts)
              (ap
                (λ xs.
                  returning sums.os (
                    check_if_needed h received my_num
                      (record (passed ss sums.os mc) { vals = xs })))
                replaced)
            ∙ check_if_needed-passed h ss sums.os received my_num mc (length ss) refl sums.sized,
      )
