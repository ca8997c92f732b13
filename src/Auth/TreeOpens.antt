-- ===== src/Auth/TreeOpens.antt =====
-- Classes TreeSum and MAC_Check of Auth/MAC_Check.h together: the tree of players, and what
-- MAC_Check means to open.
use native.Mathlib.Nat.{mod-eq_of_lt, mod-eq-sub-mod}
use spdz_yao.Base.{
  arith, ℕ, ◌+◌, ◌-◌, ◌%◌, ◌≤◌, ◌<◌, ◌≡◌, refl, sym, ap, ◌∙◌, ◌⊎◌, inl, inr, ◌==◌, if◌then◌else◌,
  List, [], ◌∷◌, map, length, length-map, get_or, some, Result, ok,
}
use spdz_yao.Math.Value.{Value, nil, ◌⊕◌, ◌⊗◌, sum}
use spdz_yao.Math.Share.{Share}
use spdz_yao.Auth.TreeSum.{absolute_num, relative_num, sum_rounds}
use spdz_yao.Auth.TreeSum.Below.{sum_below, sum_below-ext, sum_below-swap, sum_below-single}
use spdz_yao.Auth.TreeSum.Total.{sum_rounds-total}
use spdz_yao.Auth.Passing.Ring.{sum_below-head}
use spdz_yao.Auth.MacCheck.Sessions.{Opens}

below_or_round : (b r n : ℕ) → (b + r < n) ⊎ (n ≤ b + r)
below_or_round b r n = ground arith

before_or_after : (q b : ℕ) → (q < b) ⊎ (b ≤ q)
before_or_after q b = ground arith

absolute_num-before : (r b n : ℕ) → b + r < n → absolute_num r b n ≡ b + r
unfolding absolute_num
absolute_num-before r b n h = mod-eq_of_lt h

absolute_num-round : (r b n : ℕ) → r < n → b < n → n ≤ b + r → absolute_num r b n ≡ b + r - n
unfolding absolute_num
absolute_num-round r b n hr hb h = mod-eq-sub-mod h ∙ mod-eq_of_lt (omega arith)

relative_num-before : (q b n : ℕ) → q < b → b < n → relative_num q b n ≡ q + n - b
unfolding relative_num
relative_num-before q b n before h = mod-eq_of_lt (omega arith)

relative_num-after : (q b n : ℕ) → b ≤ q → q < n → relative_num q b n ≡ q - b
unfolding relative_num
relative_num-after q b n after h =
    mod-eq-sub-mod (omega arith) ∙ ap (λ d. d % n) (omega arith) ∙ mod-eq_of_lt (omega arith)

-- The two numberings of the players are inverse to each other.
numberings :
    (n b r q : ℕ) → b < n → r < n → q < n → (q == absolute_num r b n) ≡ (r == relative_num q b n)
numberings n b r q hb hr hq = elim (below_or_round b r n) [
  | inl below ↦ elim (before_or_after q b) [
    | inl before ↦
        ground (arith, absolute_num-before r b n below, relative_num-before q b n before hb)
    | inr after ↦ ground (arith, absolute_num-before r b n below, relative_num-after q b n after hq)
  ]
  | inr round ↦ elim (before_or_after q b) [
    | inl before ↦
        ground (arith, absolute_num-round r b n hr hb round, relative_num-before q b n before hb)
    | inr after ↦
        ground (arith, absolute_num-round r b n hr hb round, relative_num-after q b n after hq)
  ]
]

absolute_num-lt : (n b r : ℕ) → b < n → r < n → absolute_num r b n < n
absolute_num-lt n b r hb hr = elim (below_or_round b r n) [
  | inl below ↦ omega (arith, absolute_num-before r b n below)
  | inr round ↦ omega (arith, absolute_num-round r b n hr hb round)
]

relative_num-lt : (n b q : ℕ) → b < n → q < n → relative_num q b n < n
relative_num-lt n b q hb hq = elim (before_or_after q b) [
  | inl before ↦ omega (arith, relative_num-before q b n before hb)
  | inr after ↦ omega (arith, relative_num-after q b n after hq)
]

module _ {ℓ} {T : Type ℓ} ⦃v : Value T⦄ where
  -- A sum over the players does not depend on which of them is the base player.
  sum_below-absolute_num :
      (n b : ℕ) (f : ℕ → T) → b < n → sum_below n (λ r. f (absolute_num r b n)) ≡ sum_below n f
  sum_below-absolute_num n b f hb =
      sum_below-ext n
        (λ r hr. sym (sum_below-single n (absolute_num r b n) f (absolute_num-lt n b r hb hr)))
      ∙ sum_below-swap n n (λ r q. if q == absolute_num r b n then f q else nil)
      ∙ sum_below-ext n (λ q hq.
        sum_below-ext n (λ r hr. ap (λ t. if t then f q else nil) (numberings n b r q hb hr hq))
        ∙ sum_below-single n (relative_num q b n) (λ _. f q) (relative_num-lt n b q hb hq))

  module _ {κ} {P : Type κ} where
    sum_below-list :
        (f : P → T) (d : P) (ps : List P)
        → sum_below (length ps) (λ q. f (get_or ps q d)) ≡ sum (map f ps)
    unfolding sum_below
    sum_below-list f d [] = refl
    sum_below-list f d (p ∷ ps) =
        sum_below-head (length ps) (λ q. f (get_or (p ∷ ps) q d))
        ∙ ap (λ x. f p ⊕ x) (sum_below-list f d ps)

    -- The vector of shares at the player with a number relative to the base player. `first` stands for
    -- a number that no player has.
    unfoldable pub vector_of : P → List P → ℕ → (P → List (Share T)) → ℕ → List T
    vector_of first ps base_player ss r =
        map (λ s. s.a) (ss (get_or ps (absolute_num r base_player (length ps)) first))

    -- Whoever is the base player, for a positive opening_sum: if the players have equally many shares, of values shared under
    -- their key, then the tree ends, and leaves the base player with what MAC_Check means to open.
    pub tree-Opens :
        (first : P) (others : List P) (base_player opening_sum size : ℕ)
        → base_player < length (first ∷ others)
        → 0 < opening_sum
        → (alphais : P → T) (ss : P → List (Share T)) → ((p : P) → length (ss p) ≡ size)
        → ((i : ℕ)
            → sum (map (λ p. get_or (map (λ s. s.mac) (ss p)) i nil) (first ∷ others))
              ≡ sum (map alphais (first ∷ others))
                ⊗ sum (map (λ p. get_or (map (λ s. s.a) (ss p)) i nil) (first ∷ others)))
        → let num_players = length (first ∷ others) in
          (held' : ℕ → Result (List T)) × (summed : List T) × (sum_rounds num_players opening_sum
              num_players
              (λ r. ok (vector_of first (first ∷ others) base_player ss r))
            ≡ some held')
          × (held' 0 ≡ ok summed)
          × Opens (first ∷ others) alphais ss summed
    unfolding vector_of
    tree-Opens first others b k size hb hk alphais ss sized shared =
        let ps = first ∷ others in
        let n = length ps in
        let held : ℕ → List T = vector_of first ps b ss in
        let (held', summed, runs, base, length-summed, total) =
          sum_rounds-total n k n size hk (omega arith) (omega arith) (λ r. ok (held r)) held
            (λ r h. (refl, length-map _ (λ s. s.a) ∙ sized _)) in
        (
          held',
          summed,
          runs,
          base,
          record {
            sized = λ p. sized p ∙ sym length-summed;
            sums = λ i.
                total i
                ∙ sum_below-absolute_num n b
                    (λ q. get_or (map (λ s. s.a) (ss (get_or ps q first))) i nil) hb
                ∙ sum_below-list (λ p. get_or (map (λ s. s.a) (ss p)) i nil) first ps;
            shared = shared;
          },
        )
