-- ===== src/Yao/Simulation/Execute.antt =====
-- The simulation of `Instruction::execute`.
use spdz_yao.Base.{ℕ, ◌≡◌, refl, ap, not, ◌==◌, ltb, List, bit_xor, fault}
use spdz_yao.Key.{Key}
use spdz_yao.Function.{bit}
use spdz_yao.Gc.Processor.{M, plain_reg, signed_reg, chr, int, reg}
use spdz_yao.Gc.Plain.{plain_phase}
use spdz_yao.Gc.Instruction.{
  Instruction, xors, andrs_, xorc, xorci, addci, mulci, shrci, addc, bitdecs, bitcoms, bitdecc,
  bitdecint, ldbits, ldms, stms, ldmc, stmc, ldmint, stmint, ldint, ldmsi, stmsi, ldminti, stminti,
  movs, movint, convsint, convcint, reveals, eqzc, ltzc, random_bit, printreg, printregplain,
  printint, printregsigned, printchr, addint, subint, mulint, ltc, gtc, eqc, jmp, jmpnz, jmpeqz,
  jmpi, execute, shift_right, add_word, sub_word, mul_word, less_word,
}
use spdz_yao.Yao.Primitives.{Primitives}
use spdz_yao.Yao.Phases.{garble_phase, eval_phase}
use spdz_yao.Yao.Simulation.Relation.{Simulates}
use spdz_yao.Yao.Simulation.Rules.{Done, throw-Simulates, bind-Simulates, if-Simulates}
use spdz_yao.Yao.Simulation.Integers.{
  get_i-Simulates, put_i-Simulates, get_mi-Simulates, put_mi-Simulates, print-Simulates,
}
use spdz_yao.Yao.Simulation.Registers.{
  get_s-Simulates, put_s-Simulates, get_ms-Simulates, put_ms-Simulates, get_c-Simulates,
  put_c-Simulates, get_mc-Simulates, put_mc-Simulates,
}
use spdz_yao.Yao.Simulation.Secrets.{
  load-Simulates, random_bits-Simulates, bitcom-Simulates, bitdec-Simulates, reveal-Simulates,
}
use spdz_yao.Yao.Simulation.Instructions.{
  Same-Simulates, processor_xors-Simulates, clear_1-Simulates, clear_2-Simulates, int_1-Simulates,
  int_2-Simulates, bitdecc_from-Simulates, bitdecint_from-Simulates, jump-Simulates,
  jump_if-Simulates,
}

module _ {primitives : Primitives} {delta : Key} where
  -- Whatever instruction the plain machine executes, the garbler's and the evaluator's machines
  -- execute, and stay related to it, if their `T::andrs` does so for the arguments of an ANDRS.
  pub execute-Simulates :
      (garble_andrs : List ℕ → M (garble_phase primitives) (Unit {0}))
      (eval_andrs : List ℕ → M (eval_phase primitives) (Unit {0}))
      (plain_andrs : List ℕ → M (plain_phase primitives) (Unit {0})) (instruction : Instruction)
      → ((args : List ℕ)
          → instruction ≡ andrs_ args
          → Simulates primitives delta Done
              (garble_andrs args)
              (eval_andrs args)
              (plain_andrs args))
      → Simulates primitives delta Done
          (execute garble_andrs instruction)
          (execute eval_andrs instruction)
          (execute plain_andrs instruction)
  unfolding execute
  execute-Simulates garble_andrs eval_andrs plain_andrs (xors args) ands =
      processor_xors-Simulates args
  execute-Simulates garble_andrs eval_andrs plain_andrs (andrs_ args) ands = ands args refl
  execute-Simulates garble_andrs eval_andrs plain_andrs (xorc r0 r1 r2) ands =
      clear_2-Simulates r0 r1 r2 bit_xor
  execute-Simulates garble_andrs eval_andrs plain_andrs (xorci r0 r1 n) ands =
      clear_1-Simulates r0 r1 (λ a. bit_xor a n)
  execute-Simulates garble_andrs eval_andrs plain_andrs (addc r0 r1 r2) ands =
      clear_2-Simulates r0 r1 r2 add_word
  execute-Simulates garble_andrs eval_andrs plain_andrs (addci r0 r1 n) ands =
      clear_1-Simulates r0 r1 (λ a. add_word a n)
  execute-Simulates garble_andrs eval_andrs plain_andrs (mulci r0 r1 n) ands =
      clear_1-Simulates r0 r1 (λ a. mul_word a n)
  execute-Simulates garble_andrs eval_andrs plain_andrs (shrci r0 r1 n) ands =
      if-Simulates (ltb n 64) (clear_1-Simulates r0 r1 (λ a. shift_right a n))
        (throw-Simulates fault)
  execute-Simulates garble_andrs eval_andrs plain_andrs (bitdecs r0 regs) ands =
      bitdec-Simulates r0 regs
  execute-Simulates garble_andrs eval_andrs plain_andrs (bitcoms r0 regs) ands =
      bitcom-Simulates r0 regs
  execute-Simulates garble_andrs eval_andrs plain_andrs (bitdecc r0 regs) ands =
      bitdecc_from-Simulates 0 regs r0
  execute-Simulates garble_andrs eval_andrs plain_andrs (bitdecint r0 regs) ands =
      bitdecint_from-Simulates 0 regs r0
  execute-Simulates garble_andrs eval_andrs plain_andrs (ldbits r0 r1 n) ands =
      load-Simulates r0 r1 n
  execute-Simulates garble_andrs eval_andrs plain_andrs (ldms r0 n) ands =
      bind-Simulates (get_ms-Simulates n) (λ xs ys zs h. put_s-Simulates r0 h)
  execute-Simulates garble_andrs eval_andrs plain_andrs (stms r0 n) ands =
      bind-Simulates (get_s-Simulates r0) (λ xs ys zs h. put_ms-Simulates n h)
  execute-Simulates garble_andrs eval_andrs plain_andrs (ldmsi r0 r1) ands =
      Same-Simulates (get_i-Simulates r1)
        λ a. bind-Simulates (get_ms-Simulates a) (λ xs ys zs h. put_s-Simulates r0 h)
  execute-Simulates garble_andrs eval_andrs plain_andrs (stmsi r0 r1) ands =
      Same-Simulates (get_i-Simulates r1)
        λ a. bind-Simulates (get_s-Simulates r0) (λ xs ys zs h. put_ms-Simulates a h)
  execute-Simulates garble_andrs eval_andrs plain_andrs (ldmc r0 n) ands =
      bind-Simulates (get_mc-Simulates n) (put_c-Simulates r0)
  execute-Simulates garble_andrs eval_andrs plain_andrs (stmc r0 n) ands =
      bind-Simulates (get_c-Simulates r0) (put_mc-Simulates n)
  execute-Simulates garble_andrs eval_andrs plain_andrs (convsint n r0 r1) ands =
      Same-Simulates (get_i-Simulates r1) (λ x. load-Simulates r0 n x)
  execute-Simulates garble_andrs eval_andrs plain_andrs (convcint r0 r1) ands =
      Same-Simulates (get_i-Simulates r1) (λ x. put_c-Simulates r0 x x x refl)
  execute-Simulates garble_andrs eval_andrs plain_andrs (movs r0 r1) ands =
      bind-Simulates (get_s-Simulates r1) (λ xs ys zs h. put_s-Simulates r0 h)
  execute-Simulates garble_andrs eval_andrs plain_andrs (random_bit r0) ands =
      random_bits-Simulates r0 1
  execute-Simulates garble_andrs eval_andrs plain_andrs (reveals r0 r1) ands =
      bind-Simulates (reveal-Simulates r1) (put_c-Simulates r0)
  execute-Simulates garble_andrs eval_andrs plain_andrs (printreg r0 n) ands =
      bind-Simulates (get_c-Simulates r0)
        (λ a b c h. print-Simulates (reg r0 n a) (reg r0 n b) (reg r0 n c) (ap (reg r0 n) h))
  execute-Simulates garble_andrs eval_andrs plain_andrs (printregplain r0) ands =
      bind-Simulates (get_c-Simulates r0)
        (λ a b c h. print-Simulates (plain_reg a) (plain_reg b) (plain_reg c) (ap plain_reg h))
  execute-Simulates garble_andrs eval_andrs plain_andrs (printregsigned n r0) ands =
      bind-Simulates (get_c-Simulates r0) (λ a b c h.
        print-Simulates (signed_reg n a) (signed_reg n b) (signed_reg n c) (ap (signed_reg n) h))
  execute-Simulates garble_andrs eval_andrs plain_andrs (printchr n) ands =
      print-Simulates (chr n) (chr n) (chr n) refl
  execute-Simulates garble_andrs eval_andrs plain_andrs (printint r0) ands =
      Same-Simulates (get_i-Simulates r0) (λ x. print-Simulates (int x) (int x) (int x) refl)
  execute-Simulates garble_andrs eval_andrs plain_andrs (ldint r0 n) ands =
      put_i-Simulates r0 _ _ _ (refl, refl)
  execute-Simulates garble_andrs eval_andrs plain_andrs (addint r0 r1 r2) ands =
      int_2-Simulates r0 r1 r2 add_word
  execute-Simulates garble_andrs eval_andrs plain_andrs (subint r0 r1 r2) ands =
      int_2-Simulates r0 r1 r2 sub_word
  execute-Simulates garble_andrs eval_andrs plain_andrs (mulint r0 r1 r2) ands =
      int_2-Simulates r0 r1 r2 mul_word
  execute-Simulates garble_andrs eval_andrs plain_andrs (movint r0 r1) ands =
      int_1-Simulates r0 r1 (λ a. a)
  execute-Simulates garble_andrs eval_andrs plain_andrs (eqzc r0 r1) ands =
      int_1-Simulates r0 r1 (λ a. bit (a == 0))
  execute-Simulates garble_andrs eval_andrs plain_andrs (ltzc r0 r1) ands =
      int_1-Simulates r0 r1 (λ a. bit (less_word a 0))
  execute-Simulates garble_andrs eval_andrs plain_andrs (ltc r0 r1 r2) ands =
      int_2-Simulates r0 r1 r2 (λ a b. bit (less_word a b))
  execute-Simulates garble_andrs eval_andrs plain_andrs (gtc r0 r1 r2) ands =
      int_2-Simulates r0 r1 r2 (λ a b. bit (less_word b a))
  execute-Simulates garble_andrs eval_andrs plain_andrs (eqc r0 r1 r2) ands =
      int_2-Simulates r0 r1 r2 (λ a b. bit (a == b))
  execute-Simulates garble_andrs eval_andrs plain_andrs (ldmint r0 n) ands =
      bind-Simulates (get_mi-Simulates n) (put_i-Simulates r0)
  execute-Simulates garble_andrs eval_andrs plain_andrs (stmint r0 n) ands =
      bind-Simulates (get_i-Simulates r0) (put_mi-Simulates n)
  execute-Simulates garble_andrs eval_andrs plain_andrs (ldminti r0 r1) ands =
      Same-Simulates (get_i-Simulates r1)
        λ a. bind-Simulates (get_mi-Simulates a) (put_i-Simulates r0)
  execute-Simulates garble_andrs eval_andrs plain_andrs (stminti r0 r1) ands =
      Same-Simulates (get_i-Simulates r1)
        λ a. bind-Simulates (get_i-Simulates r0) (put_mi-Simulates a)
  execute-Simulates garble_andrs eval_andrs plain_andrs (jmp n) ands = jump-Simulates n
  execute-Simulates garble_andrs eval_andrs plain_andrs (jmpnz r0 n) ands =
      Same-Simulates (get_i-Simulates r0) (λ x. jump_if-Simulates (not (x == 0)) n)
  execute-Simulates garble_andrs eval_andrs plain_andrs (jmpeqz r0 n) ands =
      Same-Simulates (get_i-Simulates r0) (λ x. jump_if-Simulates (x == 0) n)
  execute-Simulates garble_andrs eval_andrs plain_andrs (jmpi r0) ands =
      Same-Simulates (get_i-Simulates r0) jump-Simulates
