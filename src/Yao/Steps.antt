-- ===== src/Yao/Steps.antt =====
-- GC/instructions.h, GC/Program.cpp and GC/Secret.cpp as the two parties run them: what each operation
-- does for the garbler and the evaluator when the plain run of it succeeds.
use spdz_yao.Base.{ℕ, ◌≡◌, ◌≢◌, List, length, min, Option, ok}
use mathlib.Core.Path.{subst}
use spdz_yao.Key.{Key}
use spdz_yao.Gc.Secret.{xor_, andrs, load, random_bits, bitcom, bitdec, reveal}
use spdz_yao.Gc.Instruction.{Instruction, execute, processor_andrs}
use spdz_yao.Gc.Program.{BreakType, execute_program}
use spdz_yao.Gc.Processor.{fetch}
use spdz_yao.Yao.GarbleWire.{GarbleWire}
use spdz_yao.Yao.Primitives.{Primitives}
use spdz_yao.Yao.Ands.{garble_andrs, eval_andrs}
use spdz_yao.Yao.Simulation.Relation.{
  Related, Outcome, GarblerProcessor, EvaluatorProcessor, PlainProcessor,
}
use spdz_yao.Yao.Simulation.Rules.{Done, Revealed}
use spdz_yao.Yao.Simulation.Secrets.{
  xor_-Simulates, andrs-Simulates, load-Simulates, random_bits-Simulates, bitcom-Simulates,
  bitdec-Simulates, reveal-Simulates,
}
use spdz_yao.Yao.Simulation.Counts.{reveal-masks, andrs-Sends, Longer-sent}
use spdz_yao.Yao.Simulation.Execute.{execute-Simulates}
use spdz_yao.Yao.Simulation.Programs.{SameBreak, execute_program-Simulates}
use spdz_yao.Yao.Outputs.{Apart, AllApart, Apart-at, few-Simulates}

module _ (primitives : Primitives) (delta : Key) (g : GarblerProcessor primitives)
    (e : EvaluatorProcessor primitives) (p : PlainProcessor primitives)
    (related : Related primitives delta g e p) where
  -- One instruction, from related processors: when the plain machine executes it, the garbler and
  -- the evaluator execute it, the evaluator reads just the gates and masks that the garbler sends, and
  -- the processors are related again. An ANDRS is to have fewer than ten gates, with results apart
  -- from the operands.
  pub execute_lem :
      (instruction : Instruction) (u : Unit {0}) (p' : PlainProcessor primitives)
      → Apart instruction
      → execute processor_andrs instruction p ≡ ok (u, p')
      → Outcome primitives delta Done
          (execute (garble_andrs primitives) instruction)
          (execute (eval_andrs primitives) instruction)
          g
          e
          u
          p'
  execute_lem instruction u p' apart eq =
      (execute-Simulates (garble_andrs primitives) (eval_andrs primitives) processor_andrs
          instruction (λ args is. few-Simulates primitives delta args (subst Apart is apart))).run
        g e p related u p' eq

  -- `Program::execute` from related processors, with such instructions only: when the plain run
  -- breaks, within so many rounds, the garbler's and the evaluator's runs break for the same reason,
  -- the evaluator reads just what the garbler sends, and the processors are related again.
  pub execute_program_lem :
      (program : List Instruction) (rounds : ℕ) (c : Option BreakType)
      (p' : PlainProcessor primitives)
      → AllApart program
      → execute_program processor_andrs program rounds p ≡ ok (c, p')
      → Outcome primitives delta SameBreak
          (execute_program (garble_andrs primitives) program rounds)
          (execute_program (eval_andrs primitives) program rounds)
          g
          e
          c
          p'
  execute_program_lem program rounds c p' apart eq =
      (execute_program-Simulates (garble_andrs primitives) (eval_andrs primitives) processor_andrs
          program
          (λ k args at. few-Simulates primitives delta args (Apart-at program k args apart at))
          rounds).run
        g e p related c p' eq

  -- `reveal` from related processors, when the plain run of it succeeds: the evaluator gets the value
  -- that the plain run gets, from just the masks that the garbler sends, which are one for each wire
  -- of the register, at most 64, and no gate; and the processors are related again.
  pub reveal_lem :
      (r : ℕ) (c : ℕ) (p' : PlainProcessor primitives)
      → reveal r p ≡ ok (c, p')
      → (o : Outcome primitives delta Revealed (reveal r) (reveal r) g e c p') × (regs : List
          GarbleWire)
        × (fetch g.s r ≡ ok regs)
        × (length o.gates ≡ 0)
        × (length o.masks ≡ min 64 (length regs))
  reveal_lem r c p' eq =
      let o = (reveal-Simulates r).run g e p related c p' eq in
      let (regs, there, longer) = reveal-masks r g o.a o.g' o.garbles in
      let (no_gates, masks) = Longer-sent g o.g' o.gates o.masks longer o.sends o.hides in
      (o, regs, there, no_gates, masks)

  -- `andrs` of `n` wires with one wire, from related processors, with a result apart from the
  -- operands, when the plain run of it succeeds: the evaluator gets wires of the conjunctions from just
  -- the gates that the garbler sends, which are `n`, and no mask; and the processors are related again.
  pub andrs_lem :
      (d n x y : ℕ) (u : Unit {0}) (p' : PlainProcessor primitives)
      → d ≢ x
      → d ≢ y
      → andrs d n x y p ≡ ok (u, p')
      → (o : Outcome primitives delta Done (andrs d n x y) (andrs d n x y) g e u p') × (length
            o.gates
          ≡ n)
        × (length o.masks ≡ 0)
  andrs_lem d n x y u p' d≢x d≢y eq =
      let o = (andrs-Simulates d n x y d≢x d≢y).run g e p related u p' eq in
      let longer = (andrs-Sends d n x y).counted g o.a o.g' o.garbles in
      let (gates, no_masks) = Longer-sent g o.g' o.gates o.masks longer o.sends o.hides in
      (o, gates, no_masks)

  -- `xor_` of `n` wires from related processors, also with a result among the operands: both parties
  -- compute it, and the wires stand for the exclusive ors.
  pub xor_lem :
      (d n x y : ℕ) (u : Unit {0}) (p' : PlainProcessor primitives)
      → xor_ d n x y p ≡ ok (u, p')
      → Outcome primitives delta Done (xor_ d n x y) (xor_ d n x y) g e u p'
  xor_lem d n x y u p' eq = (xor_-Simulates d n x y).run g e p related u p' eq

  -- `load` of a number from related processors: where it does not fail, both parties load it too, and
  -- their wires stand for its bits.
  pub load_lem :
      (r n x : ℕ) (u : Unit {0}) (p' : PlainProcessor primitives)
      → load r n x p ≡ ok (u, p')
      → Outcome primitives delta Done (load r n x) (load r n x) g e u p'
  load_lem r n x u p' eq = (load-Simulates r n x).run g e p related u p' eq

  -- `random_bits` from related processors: both parties get wires that stand for the bits that the
  -- garbler's generator yields, and nothing is sent that the evaluator does not read.
  pub random_bits_lem :
      (r n : ℕ) (u : Unit {0}) (p' : PlainProcessor primitives)
      → random_bits r n p ≡ ok (u, p')
      → Outcome primitives delta Done (random_bits r n) (random_bits r n) g e u p'
  random_bits_lem r n u p' eq = (random_bits-Simulates r n).run g e p related u p' eq

  -- `bitcom` from related processors: both parties join the same bits.
  pub bitcom_lem :
      (d : ℕ) (regs : List ℕ) (u : Unit {0}) (p' : PlainProcessor primitives)
      → bitcom d regs p ≡ ok (u, p')
      → Outcome primitives delta Done (bitcom d regs) (bitcom d regs) g e u p'
  bitcom_lem d regs u p' eq = (bitcom-Simulates d regs).run g e p related u p' eq

  -- `bitdec` from related processors: both parties split a register into the same bits.
  pub bitdec_lem :
      (x : ℕ) (regs : List ℕ) (u : Unit {0}) (p' : PlainProcessor primitives)
      → bitdec x regs p ≡ ok (u, p')
      → Outcome primitives delta Done (bitdec x regs) (bitdec x regs) g e u p'
  bitdec_lem x regs u p' eq = (bitdec-Simulates x regs).run g e p related u p' eq
