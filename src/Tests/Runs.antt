-- ===== src/Tests/Runs.antt =====
-- A whole program, run by both parties.
use spdz_yao.Base.{◌≡◌, refl, true, false, xor, List, [], ◌∷◌, some, ok, arith}
use spdz_yao.Function.{call, of_int}
use spdz_yao.Gc.Processor.{
  Processor, pure, throw, ◌>>=◌, lift, times, get_s, put_s, get_reg, put_reg, fetch_reg, store_reg,
  on_party, get_c, put_c, get_complexity, put_complexity, get_pc, put_pc, print, plain_reg,
}
use spdz_yao.Gc.Secret.{
  and_reg, xor_reg, resize_regs, xor_, andrs, load_reg, load, too_long, random_reg, random_bits,
  reveal_from, reveal,
}
use spdz_yao.Gc.Instruction.{
  Instruction, xors, andrs_, ldbits, random_bit, reveals, printregplain, execute, check_args,
  total_of, xors_loop, processor_xors, andrs_loop, processor_andrs,
}
use spdz_yao.Gc.Program.{step, execute_loop, execute_program}
use spdz_yao.Gc.Plain.{plain_phase}
use spdz_yao.Gc.Machine.{Sizes, new_processor, reset}
use spdz_yao.Yao.Phases.{garble_phase, eval_phase}
use spdz_yao.Yao.Ands.{garble_andrs, eval_andrs}
use spdz_yao.Yao.Protocol.{
  Chunk, garbler_run, evaluator_run, plain_run, new_garbler_processor, new_evaluator_processor,
  new_plain_processor,
}
use spdz_yao.Yao.Outputs.{AllApart, outputs_correct}
use spdz_yao.Tests.Fixtures.{test_primitives}

-- The conjunction of 3 and 1, and its exclusive or with a random bit.
abbrev whole_program : List Instruction
whole_program =
    ldbits 0 2 3
    ∷ ldbits 1 1 1
    ∷ andrs_ (2 ∷ 2 ∷ 0 ∷ 1 ∷ [])
    ∷ random_bit 3
    ∷ xors (1 ∷ 4 ∷ 2 ∷ 3 ∷ [])
    ∷ reveals 0 2
    ∷ reveals 1 4
    ∷ printregplain 0
    ∷ []

abbrev whole_sizes : Sizes
whole_sizes = record { reg_s = 5; reg_c = 2; reg_i = 0; mem_s = 0; mem_c = 0; mem_i = 0 }

abbrev whole_end : Processor (plain_phase test_primitives)
whole_end = record {
  s = (true ∷ true ∷ []) ∷ (true ∷ []) ∷ (true ∷ true ∷ []) ∷ (false ∷ []) ∷ (true ∷ []) ∷ [];
  c = 3 ∷ 1 ∷ [];
  i = [];
  ms = [];
  mc = [];
  mi = [];
  pc = 8;
  complexity = 2;
  out = plain_reg 3 ∷ [];
  party = 13;
}

whole-AllApart : AllApart whole_program
unfolding total_of
whole-AllApart =
    (tt, (tt, ((refl, (omega arith, omega arith, tt)), (tt, (tt, (tt, (tt, (tt, tt))))))))

whole-ends :
    plain_run test_primitives whole_program 9 processor_andrs 1
      (new_plain_processor test_primitives 7 whole_sizes)
    ≡ ok (some tt, whole_end)
unfolding plain_run new_plain_processor new_processor reset execute_program execute_loop step get_pc
    put_pc get_c put_c print reveal reveal_from execute processor_andrs check_args total_of
    andrs_loop processor_xors xors_loop get_complexity put_complexity andrs resize_regs and_reg call
    of_int load too_long load_reg xor_ xor_reg random_bits random_reg pure throw ◌>>=◌ lift times
    get_s put_s get_reg put_reg fetch_reg store_reg on_party xor
whole-ends = refl

outputs_correct_example :
    (chunks : List Chunk) × (g' : Processor (garble_phase test_primitives)) × (e' : Processor
      (eval_phase test_primitives))
    × (garbler_run test_primitives whole_program 9
          (garble_andrs test_primitives)
          1
          (new_garbler_processor test_primitives 7 whole_sizes)
        ≡ ok (some chunks, g'))
    × (evaluator_run test_primitives whole_program 9
          (eval_andrs test_primitives)
          chunks
          (new_evaluator_processor test_primitives whole_sizes)
        ≡ ok (some tt, e'))
    × (e'.out ≡ plain_reg 3 ∷ [])
    × (e'.c ≡ 3 ∷ 1 ∷ [])
    × (e'.mc ≡ [])
    × (e'.i ≡ [])
    × (e'.mi ≡ [])
    × (e'.party.gates ≡ [])
    × (e'.party.output_masks ≡ [])
outputs_correct_example =
    outputs_correct test_primitives 7 whole_sizes whole_program 9 1 whole_end whole-AllApart
      whole-ends
