-- ===== src/Yao/Simulation/Shift.antt =====
-- The operators that make a new secret, for both parties and on bits.
use spdz_yao.Base.{
  ℕ, zero, suc, min, max, Bool, true, false, ltb, if◌then◌else◌, List, length, drop,
}
use spdz_yao.Key.{Key}
use spdz_yao.Gc.Secret.Shift.{zero_wires, shift_left, shift_down, xor_first, plus}
use spdz_yao.Gc.Plain.{plain_phase}
use spdz_yao.Yao.Primitives.{Primitives}
use spdz_yao.Yao.GarbleWire.{GarbleWire}
use spdz_yao.Yao.EvalWire.{EvalWire}
use spdz_yao.Yao.Agreement.{Agrees, public_input-Agrees, xor_wires-Agrees}
use spdz_yao.Yao.Phases.{garble_phase, eval_phase}
use spdz_yao.Yao.Simulation.Lists.{All, nil, cons, append-All, length-All_left, length-All_right}

module _ (primitives : Primitives) (delta : Key) where
  drop-All :
      (n : ℕ) {xs : List GarbleWire} {ys : List EvalWire} {zs : List Bool}
      → All (Agrees delta) xs ys zs
      → All (Agrees delta) (drop n xs) (drop n ys) (drop n zs)
  drop-All zero h = h
  drop-All (suc n) nil = nil
  drop-All (suc n) (cons p ps) = drop-All n ps

  zero_wires-All :
      (n : ℕ)
      → All
          (Agrees delta)
          (zero_wires (garble_phase primitives) n)
          (zero_wires (eval_phase primitives) n)
          (zero_wires (plain_phase primitives) n)
  unfolding zero_wires
  zero_wires-All zero = nil
  zero_wires-All (suc n) = cons (public_input-Agrees delta false _ _) (zero_wires-All n)

  xor_first-All :
      (n : ℕ) {xs xs' : List GarbleWire} {ys ys' : List EvalWire} {zs zs' : List Bool}
      → All (Agrees delta) xs ys zs
      → All (Agrees delta) xs' ys' zs'
      → All
          (Agrees delta)
          (xor_first (garble_phase primitives) n xs xs')
          (xor_first (eval_phase primitives) n ys ys')
          (xor_first (plain_phase primitives) n zs zs')
  unfolding xor_first
  xor_first-All zero h k = nil
  xor_first-All (suc n) nil k = nil
  xor_first-All (suc n) (cons p ps) nil = nil
  xor_first-All (suc n) (cons p ps) (cons q qs) =
      cons (xor_wires-Agrees p q) (xor_first-All n ps qs)

  branch-All :
      (test : Bool) {xs xs' : List GarbleWire} {ys ys' : List EvalWire} {zs zs' : List Bool}
      → All (Agrees delta) xs ys zs
      → All (Agrees delta) xs' ys' zs'
      → All
          (Agrees delta)
          (if test then xs else xs')
          (if test then ys else ys')
          (if test then zs else zs')
  branch-All true h k = h
  branch-All false h k = k

  -- `operator<<` of secrets that agree.
  pub shift_left-All :
      (i : ℕ) (xs : List GarbleWire) (ys : List EvalWire) (zs : List Bool)
      → All (Agrees delta) xs ys zs
      → All
          (Agrees delta)
          (shift_left (garble_phase primitives) xs i)
          (shift_left (eval_phase primitives) ys i)
          (shift_left (plain_phase primitives) zs i)
  unfolding shift_left
  shift_left-All i xs ys zs h = append-All (zero_wires-All i) h

  -- `operator>>` of secrets that agree.
  pub shift_down-All :
      (i : ℕ) (xs : List GarbleWire) (ys : List EvalWire) (zs : List Bool)
      → All (Agrees delta) xs ys zs
      → All
          (Agrees delta)
          (shift_down (garble_phase primitives) xs i)
          (shift_down (eval_phase primitives) ys i)
          (shift_down (plain_phase primitives) zs i)
  unfolding shift_down
  shift_down-All i xs ys zs h = drop-All i h

  -- `operator+` of two secrets that agree, of whatever lengths: the parties' wires agree on the sum of
  -- the bits without carries.
  pub plus-All :
      (xs xs' : List GarbleWire) (ys ys' : List EvalWire) (zs zs' : List Bool)
      → All (Agrees delta) xs ys zs
      → All (Agrees delta) xs' ys' zs'
      → All
          (Agrees delta)
          (plus (garble_phase primitives) xs xs')
          (plus (eval_phase primitives) ys ys')
          (plus (plain_phase primitives) zs zs')
  unfolding plus
  plus-All xs xs' ys ys' zs zs' h k =
      rw (length-All_left h, length-All_right h, length-All_left k, length-All_right k)
        (let least = min (length zs) (length zs') in
          branch-All (ltb least (max (length zs) (length zs')))
            (append-All (xor_first-All least h k)
              (drop-All least (branch-All (ltb (length zs) (length zs')) k h)))
            (xor_first-All least h k))
