-- ===== src/Yao/Ands/Few.antt =====
-- `YaoGarbleWire::andrs` and `YaoEvalWire::andrs` for fewer than ten gates.
use spdz_yao.Base.{ℕ, ◌%◌, ◌≡◌, refl, true, Bool-cases, inl, inr, ltb, ◌==◌, length, List}
use spdz_yao.Gc.Processor.{Processor, pure, throw, ◌>>=◌}
use spdz_yao.Gc.Instruction.{check_args, total_of, processor_andrs}
use spdz_yao.Yao.Primitives.{Primitives}
use spdz_yao.Yao.Phases.{garble_phase, eval_phase}
use spdz_yao.Yao.Ands.{garble_andrs, eval_andrs}

module _ (primitives : Primitives) (args : List ℕ) (few : ltb (total_of args) 10 ≡ true) where
  -- Fewer than ten gates are garbled one by one.
  pub garble_andrs-few :
      (proc : Processor (garble_phase primitives))
      → garble_andrs primitives args proc ≡ processor_andrs args proc
  unfolding garble_andrs processor_andrs check_args pure throw ◌>>=◌
  garble_andrs-few proc = elim (Bool-cases (length args % 4 == 0)) [
    | inl whole ↦ rw (whole, few) refl
    | inr part ↦ rw part refl
  ]

  -- Fewer than ten gates are evaluated one by one.
  pub eval_andrs-few :
      (proc : Processor (eval_phase primitives))
      → eval_andrs primitives args proc ≡ processor_andrs args proc
  unfolding eval_andrs processor_andrs check_args pure throw ◌>>=◌
  eval_andrs-few proc = elim (Bool-cases (length args % 4 == 0)) [
    | inl whole ↦ rw (whole, few) refl
    | inr part ↦ rw part refl
  ]
