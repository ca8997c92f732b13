-- ===== src/Auth/TreeSum.antt =====
-- Class TreeSum of Auth/MAC_Check.h: the players sum their vectors along a tree. A player is named by
-- its number relative to the base player. `held r` is the vector at player `r`, or the exception there.
pub mod Below
pub mod Senders
pub mod Total
use spdz_yao.Base.{
  ℕ, zero, suc, ◌+◌, ◌-◌, ◌*◌, ◌/◌, ◌%◌, Bool, ltb, leb, ◌==◌, if◌then◌else◌, Option, none, some,
  List, [], ◌∷◌, length, Result, ok, err, ◌>>=◌, processor_error,
}
use spdz_yao.Math.Value.{Value, ◌⊕◌}

-- `positive_modulo(my_num - base_player, num_players)`, for numbers of players.
unfoldable pub relative_num : ℕ → ℕ → ℕ → ℕ
relative_num my_num base_player num_players = (my_num + num_players - base_player) % num_players

-- `positive_modulo(base_player + r, num_players)`.
unfoldable pub absolute_num : ℕ → ℕ → ℕ → ℕ
absolute_num r base_player num_players = (base_player + r) % num_players

-- How many players hold sums after a round with `sum_players` of them; both are positive.
unfoldable pub next_sum_players : ℕ → ℕ → ℕ
next_sum_players opening_sum sum_players = (sum_players + opening_sum - 2) / opening_sum

-- The loop over `relative_sender` in `add_openings`.
unfoldable pub senders : ℕ → ℕ → ℕ → ℕ → List ℕ
senders zero relative_sender sum_players last_sum_players = []
senders (suc fuel) relative_sender sum_players last_sum_players =
    let rest = senders fuel (relative_sender + sum_players) sum_players last_sum_players in
    if ltb relative_sender last_sum_players then relative_sender ∷ rest else []

module _ {ℓ} {T : Type ℓ} ⦃v : Value T⦄ where
  unfoldable pub add_values : List T → List T → List T
  add_values [] received = []
  add_values (x ∷ values) [] = x ∷ values
  add_values (x ∷ values) (y ∷ received) = (x ⊕ y) ∷ add_values values received

  -- One message from another player.
  unfoldable pub add_opening : List T → List T → Result (List T)
  unfolding add_values
  add_opening values received =
      if ltb (length received) (length values)
      then err processor_error
      else ok (add_values values received)

  unfoldable pub add_openings : (ℕ → Result (List T)) → List ℕ → List T → Result (List T)
  unfolding add_opening
  add_openings held [] values = ok values
  add_openings held (sender ∷ later) values = do
    received ← held sender
    added ← add_opening values received
    add_openings held later added

  -- One pass of the loop of `start`: the first `sum_players` receive, and the others up to
  -- `last_sum_players` have sent what they held.
  unfoldable pub sum_round : ℕ → ℕ → (ℕ → Result (List T)) → ℕ → Result (List T)
  unfolding senders add_openings
  sum_round sum_players last_sum_players held r =
      if ltb r sum_players
      then (do
        values ← held r
        add_openings held (senders last_sum_players (r + sum_players) sum_players last_sum_players)
            values)
      else held r

  -- The loop of `start`, on fuel.
  unfoldable pub sum_rounds : ℕ → ℕ → ℕ → (ℕ → Result (List T)) → Option (ℕ → Result (List T))
  unfolding next_sum_players sum_round
  sum_rounds zero opening_sum last_sum_players held = none
  sum_rounds (suc fuel) opening_sum last_sum_players held =
      let sum_players = next_sum_players opening_sum last_sum_players in
      let rest =
        sum_rounds fuel opening_sum sum_players (sum_round sum_players last_sum_players held) in
      if sum_players == 0 then some held else rest
