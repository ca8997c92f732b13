-- ===== src/Yao/Phases.antt =====
-- The two parties' wires as template arguments of the virtual machine.
use spdz_yao.Base.{true, false, ok}
use spdz_yao.Gc.Phase.{Phase}
use spdz_yao.Yao.Primitives.{Primitives}
use spdz_yao.Yao.GarbleWire
use spdz_yao.Yao.GarbleWire.{GarbleWire, Garbler}
use spdz_yao.Yao.EvalWire
use spdz_yao.Yao.EvalWire.{EvalWire, Evaluator}

module _ (primitives : Primitives) where
  -- `T = YaoGarbleWire`, whose `out` is a `BlackHole`.
  abbrev pub garble_phase : Phase
  garble_phase = record {
    Wire = GarbleWire;
    Party = Garbler primitives;
    new_reg = GarbleWire.new_reg;
    random = GarbleWire.random primitives;
    public_input = GarbleWire.public_input;
    op_prepare = GarbleWire.op_prepare primitives;
    op_finish = λ out left right func party.
        ok (out, GarbleWire.op_finish primitives out left right func party);
    xor_wires = GarbleWire.xor_wires;
    get_output = λ w party. ok (GarbleWire.get_output primitives w party);
    prints = false;
  }

  -- `T = YaoEvalWire`.
  abbrev pub eval_phase : Phase
  eval_phase = record {
    Wire = EvalWire;
    Party = Evaluator;
    new_reg = EvalWire.new_reg;
    random = EvalWire.random;
    public_input = EvalWire.public_input;
    op_prepare = λ w party. (w, party);
    op_finish = λ out left right func party. EvalWire.op primitives left right party;
    xor_wires = EvalWire.xor_wires;
    get_output = EvalWire.get_output;
    prints = true;
  }
