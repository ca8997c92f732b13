-- ===== src/Tests/Strategies.antt =====
-- Players that open bits along a tree, around a ring and directly, for the theorems on the classes of
-- Auth/MAC_Check.h.
use spdz_yao.Base.{
  arith, ℕ, zero, suc, ◌<◌, ◌≡◌, refl, Bool, true, false, List, [], ◌∷◌, map, length, get_or, some,
  Result, ok,
}
use spdz_yao.Math.Value.{sum, ◌⊗◌}
use spdz_yao.Math.Share.{Share}
use spdz_yao.Auth.MacCheck.{new_mac_check, waiting_for_check}
use spdz_yao.Auth.MacCheck.Sessions.{Opens}
use spdz_yao.Auth.TreeOpens.{vector_of, tree-Opens}
use spdz_yao.Auth.Passing.{pass_all, passing_begin, passing_end}
use spdz_yao.Auth.Passing.Opening.{passed, passing_opens}
use spdz_yao.Auth.Direct.{direct_begin, direct_end}
use spdz_yao.Auth.Direct.Opening.{direct_opens}
use spdz_yao.Auth.TreeSum.{sum_rounds}
use spdz_yao.Auth.TreeSum.Below.{sum_below}
use spdz_yao.Auth.TreeSum.Total.{Holds, sum_rounds-total}
use spdz_yao.Tests.Shares.{bits, key_share, differ}
use spdz_yao.Tests.Openings.{players, weights, own_shares, starting}

-- Four players, of which two at a time send to one.
abbrev vector_at : ℕ → List Bool
vector_at r = true ∷ []

four_hold : Holds (λ r. ok (vector_at r)) vector_at 4 1
four_hold r h = (refl, refl)

sum_rounds-total_example :
    (held' : ℕ → Result (List Bool)) × (values : List Bool) × (sum_rounds 4 2 4
        (λ r. ok (vector_at r))
      ≡ some held')
    × (held' 0 ≡ ok values)
    × (length values ≡ 1)
    × ((i : ℕ) → get_or values i false ≡ sum_below 4 (λ r. get_or (vector_at r) i false))
sum_rounds-total_example =
    sum_rounds-total 4 2 4 1 (omega arith) (omega arith) (omega arith) (λ r. ok (vector_at r))
      vector_at four_hold

-- The two players by their numbers.
abbrev ring_shares : ℕ → List (Share Bool)
ring_shares zero = own_shares true
ring_shares (suc r) = own_shares false

ring_sized : (r : ℕ) → r < 2 → length (ring_shares r) ≡ 1
ring_sized zero h = refl
ring_sized (suc r) h = refl

passing_opens_example :
    (os : List Bool) × (pass_all 2 (λ q. map (λ s. s.a) (ring_shares q)) 1 ≡ ok os)
    × ((i : ℕ)
        → get_or os i false ≡ sum_below 2 (λ q. get_or (map (λ s. s.a) (ring_shares q)) i false))
    × (passing_end weights 1
          (true ∷ false ∷ [])
          1
          (passing_begin (ring_shares 1) os (starting false))
        ≡ ok (os, passed (ring_shares 1) os (starting false)))
unfolding new_mac_check waiting_for_check
passing_opens_example =
    passing_opens 2 1 ring_shares ring_sized 1 (omega arith) weights (true ∷ false ∷ []) 1
      (starting false) refl (omega arith)

direct_opens_example :
    (values : List Bool) × ((i : ℕ)
      → get_or values i false
        ≡ differ
            (get_or (map (λ s. s.a) (own_shares true)) i false)
            (sum (map (λ os. get_or os i false) ((false ∷ []) ∷ []))))
    × (direct_end weights 1
          ((false ∷ []) ∷ [])
          (true ∷ false ∷ [])
          0
          (direct_begin (own_shares true) (starting true))
        ≡ ok (values, passed (own_shares true) values (starting true)))
unfolding new_mac_check waiting_for_check
direct_opens_example =
    direct_opens weights (own_shares true) ((false ∷ []) ∷ []) (true ∷ false ∷ []) 0 (starting true)
      (refl, tt) refl (omega arith)

one_fits :
    (i : ℕ)
    → sum (map (λ p. get_or (map (λ s. s.mac) (own_shares p)) i false) players) ≡ (
        sum (map key_share players)
        ⊗ sum (map (λ p. get_or (map (λ s. s.a) (own_shares p)) i false) players))
one_fits zero = refl
one_fits (suc i) = refl

tree-Opens_example :
    (held' : ℕ → Result (List Bool)) × (summed : List Bool) × (sum_rounds 2 10 2
        (λ r. ok (vector_of true players 1 own_shares r))
      ≡ some held')
    × (held' 0 ≡ ok summed)
    × Opens players key_share own_shares summed
tree-Opens_example =
    tree-Opens true (false ∷ []) 1 10 1 (omega arith) (omega arith) key_share own_shares (λ p. refl)
      one_fits
