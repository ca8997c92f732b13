-- ===== src/Tests/Wires.antt =====
-- The theorems on keys, functions, wires and gates at concrete inputs.
use spdz_yao.Base.{refl, true, false, ◌&&◌, ◌==◌, ◌%◌, ◌≡◌}
use spdz_yao.Key.{get_signal}
use spdz_yao.Function.{call, of_int, call-of_int, and_function}
use spdz_yao.Yao.GarbleWire
use spdz_yao.Yao.EvalWire
use spdz_yao.Yao.Agreement.{Agrees, eval-Agrees, public_input-Agrees}
use spdz_yao.Tests.Fixtures.{
  test_primitives, test_delta, test_garbler, one_g, one_e, other_g, other_e, one, other,
}

call-of_int_example : call (of_int 0x0110) true false ≡ (true && false && (0x0110 % 2 == 1))
call-of_int_example = call-of_int 0x0110 true false

public_input-Agrees_example :
    Agrees test_delta (GarbleWire.public_input true one_g) (EvalWire.public_input true one_e) true
public_input-Agrees_example = public_input-Agrees test_delta true one_g one_e

eval-Agrees_example :
    Agrees test_delta one_g
      (EvalWire.eval test_primitives
        (GarbleWire.new_gate test_primitives test_garbler.party one_g one_g other_g and_function)
        one_e
        other_e
        2)
      (call and_function true true)
unfolding get_signal
eval-Agrees_example =
    eval-Agrees test_primitives test_garbler.party and_function one_g one_g other_g refl refl one
      other
