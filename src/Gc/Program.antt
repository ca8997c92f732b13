-- ===== src/Gc/Program.antt =====
-- GC/Program.cpp: the fetch-and-execute loop.
use spdz_yao.Base.{
  ℕ, zero, suc, ◌+◌, ◌%◌, ◌^◌, true, false, ltb, List, Option, none, some, get_elem?,
}
use spdz_yao.Gc.Phase.{Phase}
use spdz_yao.Gc.Processor.{M, pure, ◌>>=◌, ◌>>◌, get_pc, put_pc, get_complexity, put_complexity}
use spdz_yao.Gc.Instruction.{Instruction, execute}

pub data BreakType : Type 0 where
  done_break time_break : BreakType

module _ {phase : Phase} (t_andrs : List ℕ → M phase (Unit {0})) (p : List Instruction) where
  -- One instruction: `p[PC++].execute(Proc)`.
  unfoldable pub step : Instruction → M phase (Unit {0})
  step instruction = do pc ← get_pc; put_pc ((pc + 1) % 2 ^ 32); execute t_andrs instruction

  -- The loop of `Program::execute`, for so many rounds; `none` when they are used up.
  unfoldable pub execute_loop : ℕ → M phase (Option BreakType)
  execute_loop zero = pure none
  execute_loop (suc rounds) = do
    pc ← get_pc
    elim (get_elem? p pc) [
      | none ↦ pure (some done_break)
      | some instruction ↦ do
        step instruction
        complexity ← get_complexity
        elim (ltb complexity (2 ^ 20)) [
          | true ↦ execute_loop rounds
          | false ↦ pure (some time_break)
        ]
    ]

  -- `Program::execute(Proc, -1)`.
  unfoldable pub execute_program : ℕ → M phase (Option BreakType)
  execute_program rounds = do put_complexity 0; execute_loop rounds
