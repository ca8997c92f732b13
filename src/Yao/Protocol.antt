-- ===== src/Yao/Protocol.antt =====
-- Yao/YaoGarbler.cpp and Yao/YaoEvaluator.cpp: the two parties' runs of a program, the messages from
-- the one to the other in between, and the plain run that they stand for.
use spdz_yao.Base.{ℕ, zero, suc, Bool, List, [], ◌∷◌, Option, none, some, ok}
use mathlib.Core.Option
use spdz_yao.Gc.Processor.{Processor, M, pure, ◌>>=◌, ◌>>◌}
use spdz_yao.Gc.Plain.{plain_phase}
use spdz_yao.Gc.Instruction.{Instruction}
use spdz_yao.Gc.Program.{done_break, time_break, execute_program}
use spdz_yao.Gc.Machine.{Sizes, new_processor, reset}
use spdz_yao.Yao.Gate.{Gate}
use spdz_yao.Yao.Primitives.{Primitives}
use spdz_yao.Yao.GarbleWire.{new_garbler}
use spdz_yao.Yao.Phases.{garble_phase, eval_phase}

-- What `YaoGarbler::send` sends at once: the gates and the output masks since it was last called.
pub record Chunk : Type 0 where
  pub gates : List Gate
  pub output_masks : List Bool

module _ (primitives : Primitives) where
  -- `YaoGarbler::send`, and the two buffers cleared.
  unfoldable pub send : M (garble_phase primitives) Chunk
  send proc = ok (
    record { gates = proc.party.gates; output_masks = proc.party.output_masks },
    record proc { party = record (proc.party) { gates = []; output_masks = [] } },
  )

  -- `YaoEvaluator::receive`: what was received before is dropped.
  unfoldable pub receive : Chunk → M (eval_phase primitives) (Unit {0})
  receive chunk proc = ok (
    tt,
    record proc {
      party = record (proc.party) { gates = chunk.gates; output_masks = chunk.output_masks };
    },
  )

  -- The constructors, with the generator of the garbler seeded.
  unfoldable pub new_garbler_processor :
      primitives.Prng → Sizes → Processor (garble_phase primitives)
  new_garbler_processor prng sizes = reset sizes (new_processor (new_garbler primitives prng))

  unfoldable pub new_evaluator_processor : Sizes → Processor (eval_phase primitives)
  new_evaluator_processor sizes =
      reset sizes (new_processor (record { counter = 0; gates = []; output_masks = [] }))

  -- The generator has yielded delta.
  unfoldable pub new_plain_processor : primitives.Prng → Sizes → Processor (plain_phase primitives)
  new_plain_processor prng sizes = reset sizes (new_processor (primitives.get_doubleword prng).1)

  module _ (p : List Instruction) (rounds : ℕ) where
    module _ (garble_andrs : List ℕ → M (garble_phase primitives) (Unit {0})) where
      -- `YaoGarbler::run(Player&)`: everything that is sent, in so many messages at most. After a
      -- time break the program goes on.
      unfoldable pub garbler_run : ℕ → M (garble_phase primitives) (Option (List Chunk))
      garbler_run zero = pure none
      garbler_run (suc messages) = do
        break ← execute_program garble_andrs p rounds
        elim break [
          | none ↦ pure none
          | some done_break ↦ do chunk ← send; pure (some (chunk ∷ []))
          | some time_break ↦ do
            chunk ← send
            chunks ← garbler_run messages
            pure (Option.map (λ rest. chunk ∷ rest) chunks)
        ]

    module _ (eval_andrs : List ℕ → M (eval_phase primitives) (Unit {0})) where
      -- `YaoEvaluator::run(Player&)` on the messages that arrive. With none left it waits.
      unfoldable pub evaluator_run : List Chunk → M (eval_phase primitives) (Option (Unit {0}))
      evaluator_run [] = pure none
      evaluator_run (chunk ∷ chunks) = do
        receive chunk
        break ← execute_program eval_andrs p rounds
        elim break [
          | none ↦ pure none
          | some done_break ↦ pure (some tt)
          | some time_break ↦ evaluator_run chunks
        ]

    module _ (plain_andrs : List ℕ → M (plain_phase primitives) (Unit {0})) where
      -- `while (DONE_BREAK != program.execute(processor, -1))`, as in `YaoGarbler::run()`.
      unfoldable pub plain_run : ℕ → M (plain_phase primitives) (Option (Unit {0}))
      plain_run zero = pure none
      plain_run (suc messages) = do
        break ← execute_program plain_andrs p rounds
        elim break [
          | none ↦ pure none
          | some done_break ↦ pure (some tt)
          | some time_break ↦ plain_run messages
        ]
