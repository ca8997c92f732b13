-- ===== src/Gc/Secret/Shift.antt =====
-- The operators of GC::Secret that make a new secret, on the lists of wires: `<<`, `>>` and `+`.
use spdz_yao.Base.{
  ℕ, zero, suc, min, max, false, ltb, if◌then◌else◌, List, [], ◌∷◌, ◌++◌, length, drop,
}
use spdz_yao.Gc.Phase.{Phase}

module _ (phase : Phase) where
  open phase use {Wire, new_reg, public_input, xor_wires}

  -- `res.get_new_reg().public_input(0)` so many times.
  unfoldable pub zero_wires : ℕ → List Wire
  zero_wires zero = []
  zero_wires (suc i) = public_input false new_reg ∷ zero_wires i

  -- `operator<<`.
  unfoldable pub shift_left : List Wire → ℕ → List Wire
  shift_left registers i = zero_wires i ++ registers

  -- `operator>>`, for `i` not past the end.
  unfoldable pub shift_down : List Wire → ℕ → List Wire
  shift_down registers i = drop i registers

  -- `res.xor_(n, *this, x)` on a new secret.
  unfoldable pub xor_first : ℕ → List Wire → List Wire → List Wire
  xor_first (suc n) (left ∷ xs) (right ∷ ys) = xor_wires left right ∷ xor_first n xs ys
  xor_first n xs ys = []

  -- `operator+`: the exclusive or, and the rest of the longer one.
  unfoldable pub plus : List Wire → List Wire → List Wire
  plus registers x =
      let min_n = min (length registers) (length x) in
      let n = max (length registers) (length x) in
      let res = xor_first min_n registers x in
      if ltb min_n n
      then res ++ drop min_n (if ltb (length registers) (length x) then x else registers)
      else res
