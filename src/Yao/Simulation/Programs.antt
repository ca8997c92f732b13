-- ===== src/Yao/Simulation/Programs.antt =====
-- The simulation of `Program::execute`.
use spdz_yao.Base.{
  ℕ, zero, suc, ◌^◌, ◌≡◌, refl, ap, ◌∙◌, Bool, true, false, ltb, List, Option, none, some,
  get_elem?,
}
use spdz_yao.Key.{Key}
use spdz_yao.Gc.Processor.{M}
use spdz_yao.Gc.Plain.{plain_phase}
use spdz_yao.Gc.Instruction.{Instruction, andrs_}
use spdz_yao.Gc.Program.{BreakType, done_break, time_break, step, execute_loop, execute_program}
use spdz_yao.Yao.Primitives.{Primitives}
use spdz_yao.Yao.Phases.{garble_phase, eval_phase}
use spdz_yao.Yao.Simulation.Relation.{Simulates}
use spdz_yao.Yao.Simulation.Rules.{Done, pure-Simulates, seq-Simulates}
use spdz_yao.Yao.Simulation.Integers.{
  get_pc-Simulates, put_pc-Simulates, get_complexity-Simulates, put_complexity-Simulates,
}
use spdz_yao.Yao.Simulation.Instructions.{Same-Simulates}
use spdz_yao.Yao.Simulation.Execute.{execute-Simulates}

-- The three runs stop for the same reason.
abbrev pub SameBreak : Option BreakType → Option BreakType → Option BreakType → Type 0
SameBreak a b c = (a ≡ c) × (b ≡ c)

module _ {primitives : Primitives} {delta : Key}
    (garble_andrs : List ℕ → M (garble_phase primitives) (Unit {0}))
    (eval_andrs : List ℕ → M (eval_phase primitives) (Unit {0}))
    (plain_andrs : List ℕ → M (plain_phase primitives) (Unit {0})) (program : List Instruction)
    (ands : (k : ℕ) (args : List ℕ)
      → get_elem? program k ≡ some (andrs_ args)
      → Simulates primitives delta Done
          (garble_andrs args)
          (eval_andrs args)
          (plain_andrs args)) where
  option-Simulates :
      {A B C : Type 0} {R : A → B → C → Type 0} (o : Option Instruction)
      {ng : M (garble_phase primitives) A} {ne : M (eval_phase primitives) B}
      {np : M (plain_phase primitives) C} {fg : Instruction → M (garble_phase primitives) A}
      {fe : Instruction → M (eval_phase primitives) B}
      {fp : Instruction → M (plain_phase primitives) C}
      → Simulates primitives delta R ng ne np
      → ((x : Instruction) → o ≡ some x → Simulates primitives delta R (fg x) (fe x) (fp x))
      → Simulates primitives delta R
          (elim o [ none ↦ ng | some x ↦ fg x ])
          (elim o [ none ↦ ne | some x ↦ fe x ])
          (elim o [ none ↦ np | some x ↦ fp x ])
  option-Simulates none n f = n
  option-Simulates (some x) n f = f x refl

  branch-Simulates :
      {A B C : Type 0} {R : A → B → C → Type 0} (test : Bool)
      {mg ng : M (garble_phase primitives) A} {me ne : M (eval_phase primitives) B}
      {mp np : M (plain_phase primitives) C}
      → Simulates primitives delta R mg me mp
      → Simulates primitives delta R ng ne np
      → Simulates primitives delta R
          (elim test [ true ↦ mg | false ↦ ng ])
          (elim test [ true ↦ me | false ↦ ne ])
          (elim test [ true ↦ mp | false ↦ np ])
  branch-Simulates true yes_part no_part = yes_part
  branch-Simulates false yes_part no_part = no_part

  step-Simulates :
      (k : ℕ) (instruction : Instruction)
      → get_elem? program k ≡ some instruction
      → Simulates primitives delta Done
          (step garble_andrs program instruction)
          (step eval_andrs program instruction)
          (step plain_andrs program instruction)
  unfolding step
  step-Simulates k instruction at = Same-Simulates get_pc-Simulates λ pc.
      seq-Simulates (put_pc-Simulates _ _ _ (refl, refl)) (
        execute-Simulates garble_andrs eval_andrs plain_andrs instruction
          (λ args is. ands k args (at ∙ ap some is)))

  execute_loop-Simulates :
      (rounds : ℕ)
      → Simulates primitives delta SameBreak
          (execute_loop garble_andrs program rounds)
          (execute_loop eval_andrs program rounds)
          (execute_loop plain_andrs program rounds)
  unfolding execute_loop
  execute_loop-Simulates zero = pure-Simulates none none none (refl, refl)
  execute_loop-Simulates (suc rounds) = Same-Simulates get_pc-Simulates λ pc.
      option-Simulates (get_elem? program pc)
        (pure-Simulates (some done_break) (some done_break) (some done_break) (refl, refl))
        λ instruction at. seq-Simulates (step-Simulates pc instruction at) (
          Same-Simulates get_complexity-Simulates λ complexity.
            branch-Simulates (ltb complexity (2 ^ 20)) (execute_loop-Simulates rounds)
              (pure-Simulates (some time_break) (some time_break) (some time_break) (refl, refl)))

  -- `Program::execute`: when the plain machine breaks within so many rounds, so do the garbler's and
  -- the evaluator's, for the same reason.
  pub execute_program-Simulates :
      (rounds : ℕ)
      → Simulates primitives delta SameBreak
          (execute_program garble_andrs program rounds)
          (execute_program eval_andrs program rounds)
          (execute_program plain_andrs program rounds)
  unfolding execute_program
  execute_program-Simulates rounds =
      seq-Simulates (put_complexity-Simulates 0 0 0 (refl, refl)) (execute_loop-Simulates rounds)
