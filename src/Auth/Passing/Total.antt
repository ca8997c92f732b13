-- ===== src/Auth/Passing/Total.antt =====
-- What is on the streams of the players after the passes of Auth/MAC_Check.cpp.
use spdz_yao.Base.{
  arith, ℕ, zero, suc, ◌-◌, ◌<◌, ◌≡◌, refl, sym, ap, ap₂, ◌∙◌, List, [], ◌∷◌, length, get_or,
  Result, ok,
}
use spdz_yao.Math.Value.{Value, nil, ◌⊕◌}
use spdz_yao.Math.Value.Laws.{nil_plus}
use spdz_yao.Auth.TreeSum.Below.{sum_below, sum_below-ext}
use spdz_yao.Auth.Passing.{previous_num, passing_add_openings, pass_rounds, pass_all}
use spdz_yao.Auth.Passing.Ring.{
  back, back-here, previous_num-lt, back-previous_num, sum_below-back, sum_below-head,
}

module _ {ℓ} {T : Type ℓ} ⦃v : Value T⦄ where
  -- The call returns a vector of a size, with these entries.
  pub record Leaves (call : Result (List T)) (size : ℕ) (entry : ℕ → T) : Type ℓ where
    pub os : List T
    pub returns : call ≡ ok os
    pub sized : length os ≡ size
    pub entries : (i : ℕ) → get_or os i nil ≡ entry i

  passing_add_openings-Leaves :
      (values os : List T)
      → length values ≡ length os
      → Leaves
          (passing_add_openings values os)
          (length os)
          (λ i. get_or os i nil ⊕ get_or values i nil)
  unfolding passing_add_openings
  passing_add_openings-Leaves [] [] e = record {
    os = [];
    returns = refl;
    sized = refl;
    entries = λ i. sym (nil_plus nil);
  }
  passing_add_openings-Leaves [] (y ∷ os) e = absurd (omega arith)
  passing_add_openings-Leaves (x ∷ values) [] e = absurd (omega arith)
  passing_add_openings-Leaves (x ∷ values) (y ∷ os) e =
      let rest = passing_add_openings-Leaves values os (omega arith) in
      record {
        os = (y ⊕ x) ∷ rest.os;
        returns = rw rest.returns refl;
        sized = ap suc rest.sized;
        entries = cases rest.os rest.entries;
      }
    where
      cases :
          (sums : List T)
          → ((i : ℕ) → get_or sums i nil ≡ get_or os i nil ⊕ get_or values i nil)
          → (i : ℕ)
          → get_or ((y ⊕ x) ∷ sums) i nil ≡ get_or (y ∷ os) i nil ⊕ get_or (x ∷ values) i nil
      cases sums same zero = refl
      cases sums same (suc i) = same i

  module _ (n size : ℕ) (shares : ℕ → List T)
      (sized : (r : ℕ) → r < n → length (shares r) ≡ size) where
    -- After some passes a player has the sum over the players that are no more steps before it.
    pass_rounds-Leaves :
        (passes r : ℕ)
        → passes < n
        → r < n
        → Leaves
            (pass_rounds n shares passes r)
            size
            (λ i. sum_below (suc passes) (λ k. get_or (shares (back n r k)) i nil))
    unfolding pass_rounds sum_below
    pass_rounds-Leaves zero r few h = record {
      os = shares r;
      returns = refl;
      sized = sized r h;
      entries = λ i. sym (nil_plus _ ∙ ap (λ q. get_or (shares q) i nil) (back-here n r h));
    }
    pass_rounds-Leaves (suc passes) r few h =
        let before =
          pass_rounds-Leaves passes (previous_num n r) (omega arith) (previous_num-lt n r h) in
        let added =
          passing_add_openings-Leaves (shares r) before.os (sized r h ∙ sym before.sized) in
        record {
          os = added.os;
          returns = rw before.returns added.returns;
          sized = added.sized ∙ before.sized;
          entries = λ i.
              added.entries i
              ∙ ap₂ ◌⊕◌
                  (before.entries i
                    ∙ sum_below-ext (suc passes) (λ k hk.
                      ap (λ q. get_or (shares q) i nil) (back-previous_num n r k h (omega arith))))
                  (ap (λ q. get_or (shares q) i nil) (sym (back-here n r h)))
              ∙ v.plus_comm _ _
              ∙ sym (sum_below-head (suc passes) (λ k. get_or (shares (back n r k)) i nil));
        }

    -- If all players open vectors of one length, then the passes of POpen_Begin leave every player
    -- with a vector of that length, whose entries are the sums over all players.
    pub pass_all-Leaves :
        (r : ℕ)
        → r < n
        → Leaves (pass_all n shares r) size (λ i. sum_below n (λ q. get_or (shares q) i nil))
    unfolding pass_all
    pass_all-Leaves r h =
        let all = pass_rounds-Leaves (n - 1) r (omega arith) h in
        let everyone : suc (n - 1) ≡ n = omega arith in
        record {
          os = all.os;
          returns = all.returns;
          sized = all.sized;
          entries = λ i.
              all.entries i
              ∙ ap (λ m. sum_below m (λ k. get_or (shares (back n r k)) i nil)) everyone
              ∙ sum_below-back n r (λ q. get_or (shares q) i nil) h;
        }
