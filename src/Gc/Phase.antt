-- ===== src/Gc/Phase.antt =====
-- What the template parameter T of GC::Secret<T> provides: the operations on single wires
-- (`class Phase` of BMR/Register.h) and the party that they reach through `s()`.
use spdz_yao.Base.{ℕ, Bool, Result}
use spdz_yao.Function.{Function}

pub record Phase : Type 1 where
  pub Wire : Type 0
  pub Party : Type 0
  pub new_reg : Wire
  pub random : Wire → Party → Wire × Party
  pub public_input : Bool → Wire → Wire
  -- `op` is what it does to `*this` before it reads the operands, and the rest.
  pub op_prepare : Wire → Party → Wire × Party
  pub op_finish : Wire → Wire → Wire → Function → Party → Result (Wire × Party)
  pub xor_wires : Wire → Wire → Wire
  pub get_output : Wire → Party → Result (ℕ × Party)
  -- Whether `out` is a stream, or a `BlackHole`.
  pub prints : Bool
