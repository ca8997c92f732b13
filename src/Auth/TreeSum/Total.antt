-- ===== src/Auth/TreeSum/Total.antt =====
-- The vectors that the players hold in the rounds of the tree of Auth/MAC_Check.h.
use native.Mathlib.Nat.{div-lt_iff_lt-mul}
use spdz_yao.Base.{
  arith, ℕ, zero, suc, ◌+◌, ◌-◌, ◌*◌, ◌≤◌, ◌<◌, ◌≡◌, refl, sym, ap, ◌∙◌, inl, inr, false,
  ℕ_discrete, Bool-cases, ltb, lt→ltb, ◌==◌, some, List, [], ◌∷◌, map, length, get_or, Result, ok,
}
use spdz_yao.Math.Value.{Value, nil, ◌⊕◌, sum}
use spdz_yao.Math.Value.Laws.{nil_plus}
use spdz_yao.Auth.TreeSum.{
  next_sum_players, senders, add_values, add_opening, add_openings, sum_round, sum_rounds,
}
use spdz_yao.Auth.TreeSum.Below.{sum_below, sum_below-ext}
use spdz_yao.Auth.TreeSum.Senders.{sum_below-senders}

abbrev AllBelow : ℕ → List ℕ → Type 0
AllBelow n [] = Unit
AllBelow n (x ∷ xs) = (x < n) × AllBelow n xs

senders-AllBelow : (fuel x s n : ℕ) → AllBelow n (senders fuel x s n)
unfolding senders
senders-AllBelow zero x s n = tt
senders-AllBelow (suc fuel) x s n = elim (Bool-cases (ltb x n)) [
  | inl inside ↦ rw inside (ground arith, senders-AllBelow fuel (x + s) s n)
  | inr outside ↦ rw outside tt
]

next_sum_players-decreases : (k n : ℕ) → 0 < k → 0 < n → next_sum_players k n < n
unfolding next_sum_players
next_sum_players-decreases k n hk hn = (div-lt_iff_lt-mul hk).1 (less k n hk hn)
  where
    less : (k n : ℕ) → 0 < k → 0 < n → n + k - 2 < n * k
    less zero n hk hn = elim hk [ ]
    less (suc k) zero hk hn = elim hn [ ]
    less (suc k) (suc n) hk hn = omega arith

next_sum_players-zero : (k n : ℕ) → 0 < k → 0 < n → next_sum_players k n ≡ 0 → n ≡ 1
unfolding next_sum_players
next_sum_players-zero k n hk hn e =
    let below : n + k - 2 < 1 * k = (div-lt_iff_lt-mul hk).0 (rw e (omega arith)) in omega arith

module _ {ℓ} {T : Type ℓ} ⦃v : Value T⦄ where
  pub length-add_values : (xs ys : List T) → length (add_values xs ys) ≡ length xs
  unfolding add_values
  length-add_values [] ys = refl
  length-add_values (x ∷ xs) [] = refl
  length-add_values (x ∷ xs) (y ∷ ys) = ap suc (length-add_values xs ys)

  pub get_or-add_values :
      (xs ys : List T) (i : ℕ)
      → length xs ≡ length ys
      → get_or (add_values xs ys) i nil ≡ get_or xs i nil ⊕ get_or ys i nil
  unfolding add_values
  get_or-add_values [] [] i e = sym (nil_plus nil)
  get_or-add_values [] (y ∷ ys) i e = absurd (omega arith)
  get_or-add_values (x ∷ xs) [] i e = absurd (omega arith)
  get_or-add_values (x ∷ xs) (y ∷ ys) zero e = refl
  get_or-add_values (x ∷ xs) (y ∷ ys) (suc i) e = get_or-add_values xs ys i (omega arith)

  -- The first players hold vectors, all of one length.
  abbrev pub Holds : (ℕ → Result (List T)) → (ℕ → List T) → ℕ → ℕ → Type ℓ
  Holds held vectors n size =
      (r : ℕ) → r < n → (held r ≡ ok (vectors r)) × (length (vectors r) ≡ size)

  -- A vector and those of a list of players, added.
  gathered : (ℕ → List T) → List T → List ℕ → List T
  gathered vectors values [] = values
  gathered vectors values (s ∷ ss) = gathered vectors (add_values values (vectors s)) ss

  -- What a round leaves at the players that receive.
  received : (ℕ → List T) → ℕ → ℕ → ℕ → List T
  received vectors n s r = gathered vectors (vectors r) (senders n (r + s) s n)

  module _ (held : ℕ → Result (List T)) (vectors : ℕ → List T) (n size : ℕ)
      (holds : Holds held vectors n size) where
    add_openings-gathered :
        (ss : List ℕ) (values : List T)
        → AllBelow n ss
        → length values ≡ size
        → (add_openings held ss values ≡ ok (gathered vectors values ss))
          × (length (gathered vectors values ss) ≡ size)
          × ((i : ℕ)
              → get_or (gathered vectors values ss) i nil
                ≡ get_or values i nil ⊕ sum (map (λ s. get_or (vectors s) i nil) ss))
    unfolding add_openings add_opening gathered
    add_openings-gathered [] values below sized = (refl, sized, λ i. sym (v.plus_nil _))
    add_openings-gathered (s ∷ ss) values (here, below) sized =
        let (sent, same) = holds s here in
        let (adds, sized', entries) =
          add_openings-gathered ss (add_values values (vectors s)) below
            (length-add_values values (vectors s) ∙ sized) in
        let enough : ltb (length (vectors s)) (length values) ≡ false = ground arith in
        (
          rw (sent, enough) adds,
          sized',
          λ i.
              entries i
              ∙ ap (λ x. x ⊕ sum (map (λ s. get_or (vectors s) i nil) ss))
                  (get_or-add_values values (vectors s) i (sized ∙ sym same))
              ∙ v.plus_assoc _ _ _,
        )

    sum_round-Holds : (s : ℕ) → s ≤ n → Holds (sum_round s n held) (received vectors n s) s size
    unfolding sum_round received
    sum_round-Holds s fits r below =
        let (mine, sized) = holds r (omega arith) in
        let (adds, sized', entries) =
          add_openings-gathered (senders n (r + s) s n) (vectors r) (senders-AllBelow n (r + s) s n)
            sized in
        (rw (lt→ltb r s below, mine) adds, sized')

    sum_below-received :
        (s : ℕ)
        → 0 < s
        → s ≤ n
        → (i : ℕ)
        → sum_below s (λ r. get_or (received vectors n s r) i nil)
          ≡ sum_below n (λ r. get_or (vectors r) i nil)
    unfolding received
    sum_below-received s h fits i =
        sum_below-ext s (λ r below.
          let (mine, sized) = holds r (omega arith) in
          let (adds, sized', entries) =
            add_openings-gathered (senders n (r + s) s n) (vectors r)
              (senders-AllBelow n (r + s) s n) sized in
          entries i)
        ∙ sum_below-senders s n (λ r. get_or (vectors r) i nil) h fits

  -- If opening_sum is positive, every player has a vector and all are of one length, then start runs as many rounds as there
  -- are players at most, and the base player is left with the vector of the sums over all players.
  pub sum_rounds-total :
      (fuel opening_sum num_players size : ℕ)
      → 0 < opening_sum
      → 0 < num_players
      → num_players ≤ fuel
      → (held : ℕ → Result (List T)) (vectors : ℕ → List T) → Holds held vectors num_players size
      → (held' : ℕ → Result (List T)) × (values : List T) × (sum_rounds fuel opening_sum num_players
            held
          ≡ some held')
        × (held' 0 ≡ ok values)
        × (length values ≡ size)
        × ((i : ℕ) → get_or values i nil ≡ sum_below num_players (λ r. get_or (vectors r) i nil))
  unfolding sum_rounds sum_below
  sum_rounds-total zero k n size hk hn enough held vectors holds = absurd (omega arith)
  sum_rounds-total (suc fuel) k n size hk hn enough held vectors holds =
      elim (ℕ_discrete (next_sum_players k n) 0) [
        | yes done ↦
            let alone : n ≡ 1 = next_sum_players-zero k n hk hn done in
            let (mine, sized) = holds 0 hn in
            (
              held,
              vectors 0,
              rw done refl,
              mine,
              sized,
              λ i. rw alone (sym (nil_plus (get_or (vectors 0) i nil))),
            )
        | no more ↦
            let s = next_sum_players k n in
            let fewer : s < n = next_sum_players-decreases k n hk hn in
            let again : (s == 0) ≡ false = ground arith in
            let (held', values, runs, base, sized, total) =
              sum_rounds-total fuel k s size hk (omega arith) (omega arith) (sum_round s n held)
                (received vectors n s)
                (sum_round-Holds held vectors n size holds s (omega arith)) in
            (
              held',
              values,
              rw again runs,
              base,
              sized,
              λ i.
                  total i
                  ∙ sum_below-received held vectors n size holds s (omega arith) (omega arith) i,
            )
      ]
