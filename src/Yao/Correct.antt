-- ===== src/Yao/Correct.antt =====
-- Yao/YaoGarbler.cpp and Yao/YaoEvaluator.cpp: what a run of the two parties computes.
use spdz_yao.Base.{
  ℕ, zero, suc, ◌≡◌, refl, ap, ◌∙◌, List, [], ◌∷◌, ◌++◌, append-nil, Option, none, some, get_elem?,
  ok, >>=-eq-ok, ok-injective,
}
use mathlib.Core.Path.{subst}
use spdz_yao.Key.{Key}
use spdz_yao.Gc.Processor.{M, pure, ◌>>=◌}
use spdz_yao.Gc.Plain.{plain_phase}
use spdz_yao.Gc.Instruction.{Instruction, andrs_}
use spdz_yao.Gc.Program.{BreakType, done_break, time_break, execute_program}
use spdz_yao.Yao.Primitives.{Primitives}
use spdz_yao.Yao.Phases.{garble_phase, eval_phase}
use spdz_yao.Yao.Protocol.{Chunk, send, receive, garbler_run, evaluator_run, plain_run}
use spdz_yao.Yao.Simulation.Relation.{
  Related, Outcome, Simulates, feed, GarblerProcessor, EvaluatorProcessor, PlainProcessor,
}
use spdz_yao.Yao.Simulation.Rules.{Done}
use spdz_yao.Yao.Simulation.Programs.{SameBreak, execute_program-Simulates}

module _ {primitives : Primitives} (delta : Key)
    (garble_andrs : List ℕ → M (garble_phase primitives) (Unit {0}))
    (eval_andrs : List ℕ → M (eval_phase primitives) (Unit {0}))
    (plain_andrs : List ℕ → M (plain_phase primitives) (Unit {0})) (program : List Instruction)
    (rounds : ℕ) where
  -- The garbler's run ends, with messages on which the evaluator's run ends; every gate and mask of
  -- the last message has been read, and the processors stand for the plain one.
  pub record RunOutcome (messages : ℕ) (g : GarblerProcessor primitives)
      (e : EvaluatorProcessor primitives) (p' : PlainProcessor primitives) : Type 0 where
    pub chunks : List Chunk
    pub g' : GarblerProcessor primitives
    pub e' : EvaluatorProcessor primitives
    pub garbles :
        garbler_run primitives program rounds garble_andrs messages g ≡ ok (some chunks, g')
    pub evaluates : evaluator_run primitives program rounds eval_andrs chunks e ≡ ok (some tt, e')
    pub no_gates : e'.party.gates ≡ []
    pub no_masks : e'.party.output_masks ≡ []
    pub related : Related primitives delta g' e' p'

  -- What one execution and the message after it come to.
  record Sent (b : Option BreakType) (g : GarblerProcessor primitives)
      (e : EvaluatorProcessor primitives) (p' : PlainProcessor primitives) : Type 0 where
    pub chunk : Chunk
    pub g₁ : GarblerProcessor primitives
    pub g' : GarblerProcessor primitives
    pub e' : EvaluatorProcessor primitives
    pub garbles : execute_program garble_andrs program rounds g ≡ ok (b, g₁)
    pub sends : send primitives g₁ ≡ ok (chunk, g')
    pub evaluates :
        execute_program eval_andrs program rounds (feed primitives e chunk.gates chunk.output_masks)
        ≡ ok (b, e')
    pub clear_gates : g'.party.gates ≡ []
    pub clear_masks : g'.party.output_masks ≡ []
    pub no_gates : e'.party.gates ≡ []
    pub no_masks : e'.party.output_masks ≡ []
    pub related : Related primitives delta g' e' p'

  sent :
      (b : Option BreakType) (g : GarblerProcessor primitives) (e : EvaluatorProcessor primitives)
      (p' : PlainProcessor primitives)
      → g.party.gates ≡ []
      → g.party.output_masks ≡ []
      → Outcome primitives delta SameBreak
          (execute_program garble_andrs program rounds)
          (execute_program eval_andrs program rounds)
          g
          e
          b
          p'
      → Sent b g e p'
  unfolding send
  sent b g e p' h₁ h₂ o =
      let rel = o.related in
      let gates_eq : o.g'.party.gates ≡ o.gates = o.sends ∙ ap (λ l. l ++ o.gates) h₁ in
      let masks_eq : o.g'.party.output_masks ≡ o.masks = o.hides ∙ ap (λ l. l ++ o.masks) h₂ in
      let reads = o.evaluates [] [] in
      record {
        chunk = record { gates = o.g'.party.gates; output_masks = o.g'.party.output_masks };
        g₁ = o.g';
        g' = record (o.g') { party = record (o.g'.party) { gates = []; output_masks = [] } };
        e' = feed primitives (o.e') [] [];
        garbles = o.garbles ∙ ap (λ x. ok (x, o.g')) (o.agree.0);
        sends = refl;
        evaluates =
            rw (gates_eq, masks_eq, ← append-nil o.gates, ← append-nil o.masks)
              (reads ∙ ap (λ x. ok (x, feed primitives (o.e') [] [])) (o.agree.1));
        clear_gates = refl;
        clear_masks = refl;
        no_gates = refl;
        no_masks = refl;
        related = assumption;
      }

  finish :
      (n : ℕ) (g : GarblerProcessor primitives) (e : EvaluatorProcessor primitives)
      (p' : PlainProcessor primitives)
      → Sent (some done_break) g e p'
      → RunOutcome (suc n) g e p'
  unfolding garbler_run evaluator_run receive pure ◌>>=◌
  finish n g e p' o =
      let rel = o.related in
      record {
        chunks = o.chunk ∷ [];
        g' = o.g';
        e' = o.e';
        garbles = rw (o.garbles, o.sends);
        evaluates = rw o.evaluates;
        no_gates = o.no_gates;
        no_masks = o.no_masks;
        related = rel;
      }

  go_on :
      (n : ℕ) (g : GarblerProcessor primitives) (e : EvaluatorProcessor primitives)
      {p₁ p' : PlainProcessor primitives} (o : Sent (some time_break) g e p₁)
      → RunOutcome n o.g' o.e' p'
      → RunOutcome (suc n) g e p'
  unfolding garbler_run evaluator_run receive pure ◌>>=◌
  go_on n g e o r = record {
    chunks = o.chunk ∷ r.chunks;
    g' = r.g';
    e' = r.e';
    garbles = rw (o.garbles, o.sends, r.garbles);
    evaluates = rw o.evaluates r.evaluates;
    no_gates = r.no_gates;
    no_masks = r.no_masks;
    related = r.related;
  }

  -- The plain run from a break on.
  abbrev after_plain : ℕ → Option BreakType → M (plain_phase primitives) (Option (Unit {0}))
  after_plain n b = elim b [
    | none ↦ pure none
    | some done_break ↦ pure (some tt)
    | some time_break ↦ plain_run primitives program rounds plain_andrs n
  ]

  after_break :
      (n : ℕ) (b : Option BreakType) (g : GarblerProcessor primitives)
      (e : EvaluatorProcessor primitives) (p₁ p' : PlainProcessor primitives)
      → ((g' : GarblerProcessor primitives) (e' : EvaluatorProcessor primitives)
          → g'.party.gates ≡ []
          → g'.party.output_masks ≡ []
          → Related primitives delta g' e' p₁
          → plain_run primitives program rounds plain_andrs n p₁ ≡ ok (some tt, p')
          → RunOutcome n g' e' p')
      → Sent b g e p₁
      → after_plain n b p₁ ≡ ok (some tt, p')
      → RunOutcome (suc n) g e p'
  unfolding pure
  after_break n none g e p₁ p' rest o eq = cc
  after_break n (some done_break) g e p₁ p' rest o eq =
      subst (λ (r : Option (Unit {0}) × PlainProcessor primitives). RunOutcome (suc n) g e r.1)
        (ok-injective eq) (finish n g e p₁ o)
  after_break n (some time_break) g e p₁ p' rest o eq =
      go_on n g e o (rest o.g' o.e' o.clear_gates o.clear_masks o.related eq)

  -- When the plain run of a program ends, the garbler's run with as many messages ends, and so does
  -- the evaluator's on the messages that it sent, if their `T::andrs` are simulations of the plain
  -- one on the ANDRS instructions of the program. At the end all gates and masks have been read, and
  -- the three processors are related.
  pub runs-Related :
      ((k : ℕ) (args : List ℕ)
        → get_elem? program k ≡ some (andrs_ args)
        → Simulates primitives delta Done (garble_andrs args) (eval_andrs args) (plain_andrs args))
      → (n : ℕ) (g : GarblerProcessor primitives) (e : EvaluatorProcessor primitives)
        (p p' : PlainProcessor primitives)
      → g.party.gates ≡ []
      → g.party.output_masks ≡ []
      → Related primitives delta g e p
      → plain_run primitives program rounds plain_andrs n p ≡ ok (some tt, p')
      → RunOutcome n g e p'
  unfolding plain_run pure ◌>>=◌
  runs-Related ands zero g e p p' h₁ h₂ rel eq = cc
  runs-Related ands (suc n) g e p p' h₁ h₂ rel eq =
      let ((b, p₁), e₁, e₂) =
        >>=-eq-ok (execute_program plain_andrs program rounds p) (λ r. after_plain n r.0 r.1) eq in
      let o =
        (execute_program-Simulates garble_andrs eval_andrs plain_andrs program ands rounds).run g e
          p rel b p₁ e₁ in
      after_break n b g e p₁ p'
        (λ g' e' h₁' h₂' rel' eq'. runs-Related ands n g' e' p₁ p' h₁' h₂' rel' eq')
        (sent b g e p₁ h₁ h₂ o) e₂
