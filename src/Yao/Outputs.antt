-- ===== src/Yao/Outputs.antt =====
-- YaoPlayer: the program as the garbler and the evaluator run it from the start, and what comes out.
use spdz_yao.Base.{ℕ, zero, suc, ◌≡◌, refl, true, ltb, List, [], ◌∷◌, some, get_elem?, ok}
use mathlib.Core.Path.{subst}
use spdz_yao.Key.{Key, set_signal}
use spdz_yao.Key.Laws.{get_signal-set_signal}
use spdz_yao.Gc.Processor.{Processor, resize}
use spdz_yao.Gc.Plain.{plain_phase}
use spdz_yao.Gc.Instruction.{Instruction, andrs_, total_of, processor_andrs}
use spdz_yao.Gc.Machine.{Sizes, new_processor, reset}
use spdz_yao.Yao.Primitives.{Primitives}
use spdz_yao.Yao.GarbleWire.{new_garbler}
use spdz_yao.Yao.Phases.{garble_phase, eval_phase}
use spdz_yao.Yao.Ands.{garble_andrs, eval_andrs}
use spdz_yao.Yao.Ands.Few.{garble_andrs-few, eval_andrs-few}
use spdz_yao.Yao.Protocol.{
  Chunk, garbler_run, evaluator_run, plain_run, new_garbler_processor, new_evaluator_processor,
  new_plain_processor,
}
use spdz_yao.Yao.Simulation.Lists.{All, nil, cons}
use spdz_yao.Yao.Simulation.Relation.{Related, Simulates}
use spdz_yao.Yao.Simulation.Rules.{Done, as_code-Simulates}
use spdz_yao.Yao.Simulation.Instructions.{Separate, processor_andrs-Simulates}
use spdz_yao.Yao.Correct.{runs-Related}

-- What the compiler sees to: the results of an ANDRS are not its operands. And it has few gates.
abbrev pub Apart : Instruction → Type 0
Apart (andrs_ args) = (ltb (total_of args) 10 ≡ true) × Separate args
Apart other = Unit {0}

abbrev pub AllApart : List Instruction → Type 0
AllApart [] = Unit {0}
AllApart (instruction ∷ p) = Apart instruction × AllApart p

pub Apart-at :
    (p : List Instruction) (k : ℕ) (args : List ℕ)
    → AllApart p
    → get_elem? p k ≡ some (andrs_ args)
    → Apart (andrs_ args)
Apart-at [] k args h eq = cc
Apart-at (x ∷ p) zero args h eq = let is : x ≡ andrs_ args = cc in subst Apart is h.0
Apart-at (x ∷ p) (suc k) args h eq = Apart-at p k args h.1 eq

blank-All :
    {A B C : Type 0} {P : A → B → C → Type 0} (n : ℕ)
    → All (All P) (resize n [] []) (resize n [] []) (resize n [] [])
blank-All zero = nil
blank-All (suc n) = cons nil (blank-All n)

module _ (primitives : Primitives) where
  pub few-Simulates :
      (delta : Key) (args : List ℕ)
      → Apart (andrs_ args)
      → Simulates primitives delta Done
          (garble_andrs primitives args)
          (eval_andrs primitives args)
          (processor_andrs args)
  few-Simulates delta args (few, apart) =
      as_code-Simulates (garble_andrs-few primitives args few) (eval_andrs-few primitives args few)
        (processor_andrs-Simulates args apart)

  -- The processors stand for one another before the run, whatever the garbler's generator yields.
  pub new-Related :
      (prng : primitives.Prng) (sizes : Sizes)
      → Related primitives
          (set_signal true (primitives.get_doubleword prng).0)
          (new_garbler_processor primitives prng sizes)
          (new_evaluator_processor primitives sizes)
          (new_plain_processor primitives prng sizes)
  unfolding new_garbler_processor new_evaluator_processor new_plain_processor new_garbler reset
      new_processor
  new-Related prng sizes = record {
    signal = get_signal-set_signal true (primitives.get_doubleword prng).0;
    delta_is = refl;
    s = blank-All sizes.reg_s;
    ms = blank-All sizes.mem_s;
    c_size = refl;
    c = refl;
    mc_size = refl;
    mc = refl;
    i_garbler = refl;
    i_evaluator = refl;
    mi_garbler = refl;
    mi_evaluator = refl;
    pc_garbler = refl;
    pc_evaluator = refl;
    complexity_garbler = refl;
    complexity_evaluator = refl;
    out = refl;
    counter = refl;
    prng = refl;
  }

  -- When the plain run of a program ends, the garbler and the evaluator, started with the same
  -- program and whatever seed, end too: the garbler on its own, the evaluator on the messages sent.
  -- Then the evaluator has printed what the plain run printed, its clear registers, its integers and
  -- its memories of them are those of the plain run, and every gate and every mask has been read. The
  -- ANDRS instructions are to have fewer than ten gates each, with results apart from the operands.
  pub outputs_correct :
      (prng : primitives.Prng) (sizes : Sizes) (program : List Instruction) (rounds messages : ℕ)
      (p' : Processor (plain_phase primitives))
      → AllApart program
      → plain_run primitives program rounds processor_andrs messages
          (new_plain_processor primitives prng sizes)
        ≡ ok (some tt, p')
      → (chunks : List Chunk) × (g' : Processor (garble_phase primitives)) × (e' : Processor
          (eval_phase primitives))
        × (garbler_run primitives program rounds
              (garble_andrs primitives)
              messages
              (new_garbler_processor primitives prng sizes)
            ≡ ok (some chunks, g'))
        × (evaluator_run primitives program rounds
              (eval_andrs primitives)
              chunks
              (new_evaluator_processor primitives sizes)
            ≡ ok (some tt, e'))
        × (e'.out ≡ p'.out)
        × (e'.c ≡ p'.c)
        × (e'.mc ≡ p'.mc)
        × (e'.i ≡ p'.i)
        × (e'.mi ≡ p'.mi)
        × (e'.party.gates ≡ [])
        × (e'.party.output_masks ≡ [])
  unfolding new_garbler_processor new_garbler reset new_processor
  outputs_correct prng sizes program rounds messages p' apart ends =
      let delta = set_signal true (primitives.get_doubleword prng).0 in
      let r =
        runs-Related delta (garble_andrs primitives) (eval_andrs primitives) processor_andrs program
          rounds (λ k args at. few-Simulates delta args (Apart-at program k args apart at)) messages
          (new_garbler_processor primitives prng sizes) (new_evaluator_processor primitives sizes)
          (new_plain_processor primitives prng sizes) p' refl refl (new-Related prng sizes) ends in
      let rel = r.related in
      (
        r.chunks, r.g', r.e', r.garbles, r.evaluates, rel.out, rel.c, rel.mc, rel.i_evaluator,
        rel.mi_evaluator, r.no_gates, r.no_masks,
      )
