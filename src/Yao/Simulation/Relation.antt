-- ===== src/Yao/Simulation/Relation.antt =====
-- When a garbler's, an evaluator's and a plain processor stand for one another, and when a piece of
-- code keeps them so.
use spdz_yao.Base.{◌≡◌, Bool, true, List, ◌++◌, length, ok}
use spdz_yao.Key.{Key, get_signal}
use spdz_yao.Gc.Processor.{Processor, M}
use spdz_yao.Gc.Plain.{plain_phase}
use spdz_yao.Yao.Gate.{Gate}
use spdz_yao.Yao.Primitives.{Primitives}
use spdz_yao.Yao.Agreement.{Agrees}
use spdz_yao.Yao.Phases.{garble_phase, eval_phase}
use spdz_yao.Yao.Simulation.Lists.{All}

module _ (primitives : Primitives) where
  abbrev pub GarblerProcessor : Type 0
  GarblerProcessor = Processor (garble_phase primitives)

  abbrev pub EvaluatorProcessor : Type 0
  EvaluatorProcessor = Processor (eval_phase primitives)

  abbrev pub PlainProcessor : Type 0
  PlainProcessor = Processor (plain_phase primitives)

  -- The secret registers agree wire by wire. The clear registers are the evaluator's; the garbler
  -- has as many, with other contents. The integers, the program counter and the complexity are
  -- the same everywhere, as are the two parties' gate counters.
  pub record Related (delta : Key) (g : GarblerProcessor) (e : EvaluatorProcessor)
      (p : PlainProcessor) : Type 0 where
    pub signal : get_signal delta ≡ true
    pub delta_is : g.party.delta ≡ delta
    pub s : All (All (Agrees delta)) g.s e.s p.s
    pub ms : All (All (Agrees delta)) g.ms e.ms p.ms
    pub c_size : length g.c ≡ length p.c
    pub c : e.c ≡ p.c
    pub mc_size : length g.mc ≡ length p.mc
    pub mc : e.mc ≡ p.mc
    pub i_garbler : g.i ≡ p.i
    pub i_evaluator : e.i ≡ p.i
    pub mi_garbler : g.mi ≡ p.mi
    pub mi_evaluator : e.mi ≡ p.mi
    pub pc_garbler : g.pc ≡ p.pc
    pub pc_evaluator : e.pc ≡ p.pc
    pub complexity_garbler : g.complexity ≡ p.complexity
    pub complexity_evaluator : e.complexity ≡ p.complexity
    pub out : e.out ≡ p.out
    pub counter : g.party.counter ≡ e.party.counter
    pub prng : g.party.prng ≡ p.party

  -- The evaluator with these gates and masks received and not yet read.
  abbrev pub feed : EvaluatorProcessor → List Gate → List Bool → EvaluatorProcessor
  feed e gates masks = record e { party = record (e.party) { gates = gates; output_masks = masks } }

  -- The garbler sends some gates and masks; whatever follows them, the evaluator reads just these;
  -- and the three are related again.
  pub record Outcome {A B C : Type 0} (delta : Key) (R : A → B → C → Type 0)
      (mg : M (garble_phase primitives) A) (me : M (eval_phase primitives) B) (g : GarblerProcessor)
      (e : EvaluatorProcessor) (c : C) (p' : PlainProcessor) : Type 0 where
    pub a : A
    pub b : B
    pub g' : GarblerProcessor
    pub e' : EvaluatorProcessor
    pub gates : List Gate
    pub masks : List Bool
    pub garbles : mg g ≡ ok (a, g')
    pub sends : g'.party.gates ≡ g.party.gates ++ gates
    pub hides : g'.party.output_masks ≡ g.party.output_masks ++ masks
    pub evaluates :
        (rest : List Gate) (more : List Bool)
        → me (feed e (gates ++ rest) (masks ++ more)) ≡ ok (b, feed e' rest more)
    pub agree : R a b c
    pub related : Related delta g' e' p'

  -- Whenever the plain code succeeds, the parties' code does, with an outcome as above.
  pub record Simulates {A B C : Type 0} (delta : Key) (R : A → B → C → Type 0)
      (mg : M (garble_phase primitives) A) (me : M (eval_phase primitives) B)
      (mp : M (plain_phase primitives) C) : Type 0 where
    pub run :
        (g : GarblerProcessor) (e : EvaluatorProcessor) (p : PlainProcessor)
        → Related delta g e p
        → (c : C) (p' : PlainProcessor) → mp p ≡ ok (c, p')
        → Outcome delta R mg me g e c p'
