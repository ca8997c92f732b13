-- ===== src/Gc/Machine.antt =====
-- `Processor::Processor`, `Processor::reset` and `Machine::reset`: the machine before a run.
use spdz_yao.Base.{ℕ, []}
use spdz_yao.Gc.Phase.{Phase}
use spdz_yao.Gc.Processor.{Processor, resize}

-- `num_reg(..)` and `direct_mem(..)` of the program, for SBIT, CBIT and INT.
pub record Sizes : Type 0 where
  pub reg_s : ℕ
  pub reg_c : ℕ
  pub reg_i : ℕ
  pub mem_s : ℕ
  pub mem_c : ℕ
  pub mem_i : ℕ

module _ {phase : Phase} where
  open phase use {Party}

  unfoldable pub new_processor : Party → Processor phase
  new_processor party = record {
    s = [];
    c = [];
    i = [];
    ms = [];
    mc = [];
    mi = [];
    pc = 0;
    complexity = 0;
    out = [];
    party = party;
  }

  -- A secret register starts without wires, a clear one and an integer as 0.
  unfoldable pub reset : Sizes → Processor phase → Processor phase
  reset sizes proc = record proc {
    s = resize sizes.reg_s [] proc.s;
    c = resize sizes.reg_c 0 proc.c;
    i = resize sizes.reg_i 0 proc.i;
    ms = resize sizes.mem_s [] proc.ms;
    mc = resize sizes.mem_c 0 proc.mc;
    mi = resize sizes.mem_i 0 proc.mi;
  }
