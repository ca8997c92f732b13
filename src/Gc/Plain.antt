-- ===== src/Gc/Plain.antt =====
-- The specification of the secret part of the machine: a wire is its value. The exclusive or and the
-- gates are those of booleans, and nothing is garbled, sent or evaluated. Random bits come from the
-- generator that the garbler has, which every gate moves on by a label and a mask.
use spdz_yao.Base.{Bool, false, true, xor, ok}
use spdz_yao.Function.{bit, call}
use spdz_yao.Yao.Primitives.{Primitives}
use spdz_yao.Gc.Phase.{Phase}

module _ (primitives : Primitives) where
  open primitives use {Prng, get_doubleword, get_bit}

  abbrev pub skip_wire : Prng → Prng
  skip_wire prng = (get_bit (get_doubleword prng).1).1

  abbrev pub plain_phase : Phase
  plain_phase = record {
    Wire = Bool;
    Party = Prng;
    new_reg = false;
    random = λ w prng. get_bit prng;
    public_input = λ value w. value;
    op_prepare = λ w prng. (w, skip_wire prng);
    op_finish = λ out left right func prng. ok (call func left right, prng);
    xor_wires = xor;
    get_output = λ w prng. ok (bit w, prng);
    prints = true;
  }
