-- ===== src/Yao/Simulation/Gates.antt =====
-- The simulation of what a wire does to its party: random bits, gates and outputs.
use spdz_yao.Base.{
  ℕ, ◌≡◌, refl, sym, ap, ◌∙◌, Bool, true, false, xor, [], ◌∷◌, append-nil, ok, arith,
}
use mathlib.Core.Path.{subst}
use spdz_yao.Key.{Key, get_signal}
use spdz_yao.Key.Laws.{get_signal-set_signal}
use spdz_yao.Function.{Function, call, bit}
use spdz_yao.Gc.Processor.{on_party}
use spdz_yao.Yao.Primitives.{Primitives}
use spdz_yao.Yao.Agreement.{Agrees, public_input-Agrees, eval-Agrees}
use spdz_yao.Yao.GarbleWire
use spdz_yao.Yao.GarbleWire.{GarbleWire, Garbler}
use spdz_yao.Yao.EvalWire
use spdz_yao.Yao.EvalWire.{EvalWire, Evaluator}
use spdz_yao.Yao.Simulation.Relation.{Simulates}
use spdz_yao.Yao.Simulation.Rules.{Revealed, silent, as_result}

xor_undo : (v m : Bool) → xor (xor v m) m ≡ v
unfolding xor
xor_undo v m = ground arith

-- The label that the garbler's `op` draws for its result has no signal.
pub op_prepare-clear :
    (primitives : Primitives) (w : GarbleWire) (party : Garbler primitives)
    → get_signal (GarbleWire.op_prepare primitives w party).0.key ≡ false
unfolding GarbleWire.op_prepare GarbleWire.randomize
op_prepare-clear primitives w party =
    get_signal-set_signal false (primitives.get_doubleword party.prng).0

module _ {primitives : Primitives} {delta : Key} where
  open primitives use {Prng, get_bit, get_doubleword}

  random-Agrees :
      (w : GarbleWire) (party : Garbler primitives) (e : EvalWire) (evaluator : Evaluator)
      (prng : Prng)
      → party.prng ≡ prng
      → Agrees delta
          (GarbleWire.random primitives w party).0
          (EvalWire.random e evaluator).0
          (get_bit prng).0
  unfolding GarbleWire.random EvalWire.random GarbleWire.public_input EvalWire.public_input
  random-Agrees w party e evaluator prng h =
      subst
        (λ q.
          Agrees delta (GarbleWire.random primitives w party).0 (EvalWire.random e evaluator).0
            (get_bit q).0)
        h (public_input-Agrees delta (get_bit party.prng).0 w e)

  -- A random wire of the parties is the bit that the generator yields.
  pub random-Simulates :
      (w : GarbleWire) (e : EvalWire) (v : Bool)
      → Simulates primitives delta
          (Agrees delta)
          (on_party (λ party. ok (GarbleWire.random primitives w party)))
          (on_party (λ party. ok (EvalWire.random e party)))
          (on_party (λ prng. ok (get_bit prng)))
  unfolding on_party GarbleWire.random EvalWire.random
  random-Simulates w e v = record {
    run = λ g ev p rel c p' eq. as_result eq (
        silent _ _ (record g { party = (GarbleWire.random primitives w g.party).1 }) ev refl
          (λ rest more. refl) refl refl (random-Agrees w g.party e ev.party p.party rel.prng)
          (assumption (ap (λ (q : Prng). (get_bit q).1) rel.prng)));
  }

  -- An output: the garbler sends its mask, and with it the evaluator has the value.
  pub output-Simulates :
      {w : GarbleWire} {e : EvalWire} {v : Bool}
      → Agrees delta w e v
      → Simulates primitives delta Revealed
          (on_party (λ party. ok (GarbleWire.get_output primitives w party)))
          (on_party (EvalWire.get_output e))
          (on_party (λ prng. ok (bit v, prng)))
  unfolding on_party GarbleWire.get_output EvalWire.get_output
  output-Simulates {w} {e} {v} h = record {
    run = λ g ev p rel c p' eq.
        let value : bit (xor e.external w.mask) ≡ bit v =
          ap bit (ap (λ x. xor x w.mask) h.external ∙ xor_undo v w.mask) in
        as_result eq (record {
          a = _;
          b = bit (xor e.external w.mask);
          g' = record g { party = (GarbleWire.get_output primitives w g.party).1 };
          e' = ev;
          gates = [];
          masks = w.mask ∷ [];
          garbles = refl;
          sends = sym (append-nil g.party.gates);
          hides = refl;
          evaluates = λ rest more. refl;
          agree = value;
          related = assumption;
        });
  }

  -- The gate that the garbler's `op` sends gives the evaluator the wire of the function's value.
  pub gate-Agrees :
      (party : Garbler primitives) (out left right : GarbleWire) (func : Function) {l r : EvalWire}
      {v w : Bool} {counter : ℕ}
      → get_signal delta ≡ true
      → party.delta ≡ delta
      → get_signal out.key ≡ false
      → party.counter ≡ counter
      → Agrees delta left l v
      → Agrees delta right r w
      → Agrees delta out
          (EvalWire.eval primitives
            (GarbleWire.new_gate primitives party out left right func)
            l
            r
            counter)
          (call func v w)
  gate-Agrees party out left right func {l} {r} {v} {w} signal delta_is clear counted p q =
      subst
        (λ n.
          Agrees delta out
            (EvalWire.eval primitives (GarbleWire.new_gate primitives party out left right func) l r
              n)
            (call func v w))
        counted
        (subst
          (λ k.
            Agrees k out
              (EvalWire.eval primitives (GarbleWire.new_gate primitives party out left right func) l
                r party.counter)
              (call func v w))
          delta_is
          (eval-Agrees primitives party func out left right (rw delta_is signal) clear
            (rw delta_is p) (rw delta_is q)))
