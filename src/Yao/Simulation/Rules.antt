-- ===== src/Yao/Simulation/Rules.antt =====
-- The simulation of code by its parts: results, errors, sequences, branches and counted loops.
use spdz_yao.Base.{
  ℕ, zero, suc, ◌+◌, ◌≡◌, refl, sym, ap, ◌∙◌, Bool, true, false, if◌then◌else◌, [], ◌++◌,
  append-nil, append_assoc, Error, Result, ok, >>=-eq-ok, ok-injective,
}
use mathlib.Core.Path.{subst}
use spdz_yao.Key.{Key}
use spdz_yao.Gc.Processor.{M, pure, throw, ◌>>=◌, ◌>>◌, lift, times}
use spdz_yao.Gc.Plain.{plain_phase}
use spdz_yao.Yao.Primitives.{Primitives}
use spdz_yao.Yao.Phases.{garble_phase, eval_phase}
use spdz_yao.Yao.Simulation.Relation.{
  Related, feed, Outcome, Simulates, GarblerProcessor, EvaluatorProcessor, PlainProcessor,
}

-- What code that yields nothing agrees on.
abbrev pub Done : Unit {0} → Unit {0} → Unit {0} → Type 0
Done a b c = Unit {0}

-- The parties have the same number as the plain run.
abbrev pub Same : ℕ → ℕ → ℕ → Type 0
Same a b c = (a ≡ c) × (b ≡ c)

-- Of a clear value only the evaluator's is the plain one.
abbrev pub Revealed : ℕ → ℕ → ℕ → Type 0
Revealed a b c = b ≡ c

module _ {primitives : Primitives} {delta : Key} where
  -- An outcome in which nothing is sent.
  pub silent :
      {A B C : Type 0} {R : A → B → C → Type 0} {mg : M (garble_phase primitives) A}
      {me : M (eval_phase primitives) B} {g : GarblerProcessor primitives}
      {e : EvaluatorProcessor primitives} {c : C} {p' : PlainProcessor primitives} (a : A) (b : B)
      (g' : GarblerProcessor primitives) (e' : EvaluatorProcessor primitives)
      → mg g ≡ ok (a, g')
      → ((rest : _) (more : _)
          → me (feed primitives e rest more) ≡ ok (b, feed primitives e' rest more))
      → g'.party.gates ≡ g.party.gates
      → g'.party.output_masks ≡ g.party.output_masks
      → R a b c
      → Related primitives delta g' e' p'
      → Outcome primitives delta R mg me g e c p'
  silent {g} a b g' e' garbles evaluates no_gates no_masks agree related = record {
    a = a;
    b = b;
    g' = g';
    e' = e';
    gates = [];
    masks = [];
    garbles = garbles;
    sends = no_gates ∙ sym (append-nil g.party.gates);
    hides = no_masks ∙ sym (append-nil g.party.output_masks);
    evaluates = evaluates;
    agree = agree;
    related = related;
  }

  -- The outcome of code whose plain result is known.
  pub as_result :
      {A B C : Type 0} {R : A → B → C → Type 0} {mg : M (garble_phase primitives) A}
      {me : M (eval_phase primitives) B} {g : GarblerProcessor primitives}
      {e : EvaluatorProcessor primitives} {c c' : C} {p p' : PlainProcessor primitives}
      → ◌≡◌ {A = Result (C × PlainProcessor primitives)} (ok (c, p)) (ok (c', p'))
      → Outcome primitives delta R mg me g e c p
      → Outcome primitives delta R mg me g e c' p'
  as_result {C} {R} {mg} {me} {g} {e} eq o =
      subst (λ (r : C × PlainProcessor primitives). Outcome primitives delta R mg me g e r.0 r.1)
        (ok-injective eq) o

  pub pure-Simulates :
      {A B C : Type 0} {R : A → B → C → Type 0} (a : A) (b : B) (c : C)
      → R a b c
      → Simulates primitives delta R (pure a) (pure b) (pure c)
  unfolding pure
  pure-Simulates a b c r = record {
    run =
        λ g e p rel c p' eq. as_result eq (silent a b g e refl (λ rest more. refl) refl refl r rel);
  }

  pub throw-Simulates :
      {A B C : Type 0} {R : A → B → C → Type 0} (error : Error)
      → Simulates primitives delta R
          (throw {A = A} error)
          (throw {A = B} error)
          (throw {A = C} error)
  unfolding throw
  throw-Simulates error = record { run = λ g e p rel c p' eq. cc }

  pub bind-Simulates :
      {A B C A' B' C' : Type 0} {R : A → B → C → Type 0} {Q : A' → B' → C' → Type 0}
      {mg : M (garble_phase primitives) A} {me : M (eval_phase primitives) B}
      {mp : M (plain_phase primitives) C} {fg : A → M (garble_phase primitives) A'}
      {fe : B → M (eval_phase primitives) B'} {fp : C → M (plain_phase primitives) C'}
      → Simulates primitives delta R mg me mp
      → ((a : A) (b : B) (c : C) → R a b c → Simulates primitives delta Q (fg a) (fe b) (fp c))
      → Simulates primitives delta Q (mg >>= fg) (me >>= fe) (mp >>= fp)
  unfolding ◌>>=◌
  bind-Simulates {fg} {fe} {fp} first next = record {
    run = λ g e p rel c p' eq.
        let ((c₁, p₁), e₁, e₂) = >>=-eq-ok _ (λ r. fp r.0 r.1) eq in
        let o = first.run g e p rel c₁ p₁ e₁ in
        let o' = (next o.a o.b c₁ o.agree).run o.g' o.e' p₁ o.related c p' e₂ in
        record {
          a = o'.a;
          b = o'.b;
          g' = o'.g';
          e' = o'.e';
          gates = o.gates ++ o'.gates;
          masks = o.masks ++ o'.masks;
          garbles = rw o.garbles o'.garbles;
          sends =
              o'.sends
              ∙ ap (λ gs. gs ++ o'.gates) o.sends
              ∙ append_assoc g.party.gates o.gates o'.gates;
          hides =
              o'.hides
              ∙ ap (λ ms. ms ++ o'.masks) o.hides
              ∙ append_assoc g.party.output_masks o.masks o'.masks;
          evaluates = λ rest more.
              rw
                (
                  append_assoc o.gates o'.gates rest,
                  append_assoc o.masks o'.masks more,
                  o.evaluates (o'.gates ++ rest) (o'.masks ++ more),
                )
                (o'.evaluates rest more);
          agree = o'.agree;
          related = o'.related;
        };
  }

  pub seq-Simulates :
      {A B C : Type 0} {R : A → B → C → Type 0} {mg : M (garble_phase primitives) (Unit {0})}
      {me : M (eval_phase primitives) (Unit {0})} {mp : M (plain_phase primitives) (Unit {0})}
      {ng : M (garble_phase primitives) A} {ne : M (eval_phase primitives) B}
      {np : M (plain_phase primitives) C}
      → Simulates primitives delta Done mg me mp
      → Simulates primitives delta R ng ne np
      → Simulates primitives delta R (mg >> ng) (me >> ne) (mp >> np)
  seq-Simulates first next = bind-Simulates first (λ a b c r. next)

  -- A branch on a test that is the same everywhere.
  pub if-Simulates :
      {A B C : Type 0} {R : A → B → C → Type 0} (test : Bool)
      {mg ng : M (garble_phase primitives) A} {me ne : M (eval_phase primitives) B}
      {mp np : M (plain_phase primitives) C}
      → Simulates primitives delta R mg me mp
      → Simulates primitives delta R ng ne np
      → Simulates primitives delta R
          (if test then mg else ng)
          (if test then me else ne)
          (if test then mp else np)
  if-Simulates true yes_part no_part = yes_part
  if-Simulates false yes_part no_part = no_part

  pub lift-Simulates :
      {A B C : Type 0} {R : A → B → C → Type 0} {rg : Result A} {re : Result B} {rp : Result C}
      → ((c : C) → rp ≡ ok c → (a : A) × (b : B) × (rg ≡ ok a) × (re ≡ ok b) × R a b c)
      → Simulates primitives delta R (lift rg) (lift re) (lift rp)
  unfolding lift
  lift-Simulates {rp} h = record {
    run = λ g e p rel c p' eq.
        let (c₁, e₁, e₂) = >>=-eq-ok rp (λ c. ok (c, p)) eq in
        let (a, b, ea, eb, r) = h c₁ e₁ in
        as_result e₂ (silent a b g e (rw ea) (λ rest more. rw eb) refl refl r rel);
  }

  pub times-Simulates :
      (n first : ℕ) {fg : ℕ → M (garble_phase primitives) (Unit {0})}
      {fe : ℕ → M (eval_phase primitives) (Unit {0})}
      {fp : ℕ → M (plain_phase primitives) (Unit {0})}
      → ((i : ℕ) → Simulates primitives delta Done (fg i) (fe i) (fp i))
      → Simulates primitives delta Done (times n first fg) (times n first fe) (times n first fp)
  unfolding times
  times-Simulates zero first body = pure-Simulates tt tt tt tt
  times-Simulates (suc n) first body =
      seq-Simulates (body first) (times-Simulates n (first + 1) body)

  -- Code that behaves the same may stand in.
  pub as_code-Simulates :
      {A B C : Type 0} {R : A → B → C → Type 0} {mg mg' : M (garble_phase primitives) A}
      {me me' : M (eval_phase primitives) B} {mp : M (plain_phase primitives) C}
      → ((proc : GarblerProcessor primitives) → mg' proc ≡ mg proc)
      → ((proc : EvaluatorProcessor primitives) → me' proc ≡ me proc)
      → Simulates primitives delta R mg me mp
      → Simulates primitives delta R mg' me' mp
  as_code-Simulates h k sim = record {
    run = λ g e p rel c p' eq.
        let o = sim.run g e p rel c p' eq in
        record {
          a = o.a;
          b = o.b;
          g' = o.g';
          e' = o.e';
          gates = o.gates;
          masks = o.masks;
          garbles = h g ∙ o.garbles;
          sends = o.sends;
          hides = o.hides;
          evaluates = λ rest more.
              k (feed primitives e (o.gates ++ rest) (o.masks ++ more)) ∙ o.evaluates rest more;
          agree = o.agree;
          related = o.related;
        };
  }
