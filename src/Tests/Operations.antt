-- ===== src/Tests/Operations.antt =====
-- The theorems on the operations of the machine at concrete processors.
use spdz_yao.Base.{ℕ, ok, length, min, ◌≡◌, refl, Bool, true, xor, List, [], ◌∷◌, some, arith}
use spdz_yao.Function.{call, of_int}
use spdz_yao.Gc.Processor.{
  fetch, pure, throw, ◌>>=◌, lift, times, get_s, put_s, get_reg, put_reg, fetch_reg, store_reg,
  on_party, get_c, put_c, get_complexity, put_complexity, get_pc, put_pc, print, plain_reg,
}
use spdz_yao.Gc.Secret.{and_reg, resize_regs, andrs, reveal_from, reveal}
use spdz_yao.Gc.Instruction.{
  Instruction, andrs_, reveals, printregplain, execute, check_args, total_of, andrs_loop,
  processor_andrs,
}
use spdz_yao.Gc.Program.{step, execute_loop, execute_program, done_break}
use spdz_yao.Yao.GarbleWire.{GarbleWire}
use spdz_yao.Yao.Ands.{garble_andrs, eval_andrs}
use spdz_yao.Yao.Simulation.Relation.{Outcome, PlainProcessor}
use spdz_yao.Yao.Simulation.Rules.{Done, Revealed}
use spdz_yao.Yao.Simulation.Programs.{SameBreak}
use spdz_yao.Yao.Outputs.{AllApart}
use spdz_yao.Yao.Steps.{execute_lem, execute_program_lem, reveal_lem, andrs_lem}
use spdz_yao.Tests.Fixtures.{
  test_primitives, test_delta, test_garbler, test_evaluator, test_plain, test-Related,
}

-- The plain processor after operations that change secret registers and the generator.
abbrev after : List (List Bool) → ℕ → PlainProcessor test_primitives
after s prng = record test_plain { s = s; party = prng }

reveal_lem_example :
    (o : Outcome test_primitives test_delta Revealed
      (reveal 2)
      (reveal 2)
      test_garbler
      test_evaluator
      3
      test_plain)
    × (regs : List GarbleWire) × (fetch test_garbler.s 2 ≡ ok regs)
    × (length o.gates ≡ 0)
    × (length o.masks ≡ min 64 (length regs))
unfolding reveal reveal_from pure throw ◌>>=◌ lift times get_s put_s get_reg put_reg fetch_reg
    store_reg on_party xor
reveal_lem_example =
    reveal_lem test_primitives test_delta test_garbler test_evaluator test_plain test-Related 2 3
      test_plain refl

andrs_lem_example :
    (o : Outcome test_primitives test_delta Done
      (andrs 3 2 2 0)
      (andrs 3 2 2 0)
      test_garbler
      test_evaluator
      tt
      (after ((true ∷ []) ∷ (true ∷ []) ∷ (true ∷ true ∷ []) ∷ (true ∷ true ∷ []) ∷ [] ∷ []) 9))
    × (length o.gates ≡ 2)
    × (length o.masks ≡ 0)
unfolding andrs resize_regs and_reg call of_int pure throw ◌>>=◌ lift times get_s put_s get_reg
    put_reg fetch_reg store_reg on_party xor
andrs_lem_example =
    andrs_lem test_primitives test_delta test_garbler test_evaluator test_plain test-Related 3 2 2 0
      tt (after ((true ∷ []) ∷ (true ∷ []) ∷ (true ∷ true ∷ []) ∷ (true ∷ true ∷ []) ∷ [] ∷ []) 9)
      (omega arith) (omega arith) refl

execute_lem_example :
    Outcome test_primitives test_delta Done
      (execute (garble_andrs test_primitives) (andrs_ (2 ∷ 3 ∷ 2 ∷ 0 ∷ [])))
      (execute (eval_andrs test_primitives) (andrs_ (2 ∷ 3 ∷ 2 ∷ 0 ∷ [])))
      test_garbler
      test_evaluator
      tt
      (record (after
        ((true ∷ []) ∷ (true ∷ []) ∷ (true ∷ true ∷ []) ∷ (true ∷ true ∷ []) ∷ [] ∷ [])
        9) { complexity = 2 })
unfolding execute processor_andrs check_args total_of andrs_loop get_complexity put_complexity andrs
    resize_regs and_reg call of_int pure throw ◌>>=◌ lift times get_s put_s get_reg put_reg
    fetch_reg store_reg on_party xor
execute_lem_example =
    execute_lem test_primitives test_delta test_garbler test_evaluator test_plain test-Related
      (andrs_ (2 ∷ 3 ∷ 2 ∷ 0 ∷ [])) tt
      (record (after ((true ∷ []) ∷ (true ∷ []) ∷ (true ∷ true ∷ []) ∷ (true ∷ true ∷ []) ∷ [] ∷ [])
        9) { complexity = 2 })
      (refl, (omega arith, omega arith, tt)) refl

abbrev test_program : List Instruction
test_program = andrs_ (2 ∷ 3 ∷ 2 ∷ 0 ∷ []) ∷ reveals 0 3 ∷ printregplain 0 ∷ []

test-AllApart : AllApart test_program
unfolding total_of
test-AllApart = ((refl, (omega arith, omega arith, tt)), (tt, (tt, tt)))

execute_program_lem_example :
    Outcome test_primitives test_delta SameBreak
      (execute_program (garble_andrs test_primitives) test_program 4)
      (execute_program (eval_andrs test_primitives) test_program 4)
      test_garbler
      test_evaluator
      (some done_break)
      (record (after
        ((true ∷ []) ∷ (true ∷ []) ∷ (true ∷ true ∷ []) ∷ (true ∷ true ∷ []) ∷ [] ∷ [])
        9) { complexity = 2; c = 3 ∷ 0 ∷ []; pc = 3; out = plain_reg 3 ∷ [] })
unfolding execute_program execute_loop step get_pc put_pc get_c put_c print reveal reveal_from
    execute processor_andrs check_args total_of andrs_loop get_complexity put_complexity andrs
    resize_regs and_reg call of_int pure throw ◌>>=◌ lift times get_s put_s get_reg put_reg
    fetch_reg store_reg on_party xor
execute_program_lem_example =
    execute_program_lem test_primitives test_delta test_garbler test_evaluator test_plain
      test-Related test_program 4 (some done_break)
      (record (after ((true ∷ []) ∷ (true ∷ []) ∷ (true ∷ true ∷ []) ∷ (true ∷ true ∷ []) ∷ [] ∷ [])
        9) { complexity = 2; c = 3 ∷ 0 ∷ []; pc = 3; out = plain_reg 3 ∷ [] })
      test-AllApart refl
