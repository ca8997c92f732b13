-- ===== src/Yao/Simulation/AndGate.antt =====
-- The simulation of an AND gate between registers, for `and_reg` of GC/Secret.h over the wires of
-- Yao/YaoGarbleWire.cpp and Yao/YaoEvalWire.cpp.
use spdz_yao.Base.{ℕ, ◌+◌, ◌≡◌, ◌≢◌, refl, sym, ap, ◌∙◌, Bool, [], ◌∷◌, append-nil, ok-injective}
use mathlib.Core.Path.{subst}
use spdz_yao.Key.{Key}
use spdz_yao.Function.{and_function, call}
use spdz_yao.Gc.Secret.{and_reg}
use spdz_yao.Gc.Secret.Apart.{and_reg_of_apart, apart_of_and_reg}
use spdz_yao.Yao.Primitives.{Primitives}
use spdz_yao.Yao.Agreement.{Agrees}
use spdz_yao.Yao.GarbleWire
use spdz_yao.Yao.GarbleWire.{GarbleWire, Garbler}
use spdz_yao.Yao.EvalWire
use spdz_yao.Yao.EvalWire.{EvalWire, Evaluator}
use spdz_yao.Yao.Simulation.Relation.{Simulates, feed}
use spdz_yao.Yao.Simulation.Rules.{Done, as_result}
use spdz_yao.Yao.Simulation.Gates.{op_prepare-clear, gate-Agrees}
use spdz_yao.Yao.Simulation.Wires.{fetch_reg-All, store_reg-All}

module _ {primitives : Primitives} {delta : Key} where
  open primitives use {Prng, get_bit, get_doubleword}

  -- An AND gate between registers other than the result's: the garbler sends one gate, and the
  -- evaluator gets the wire of the conjunction from it.
  pub and_reg-Simulates :
      (d i x j y k : ℕ)
      → d ≢ x
      → d ≢ y
      → Simulates primitives delta Done
          (and_reg d i x j y k)
          (and_reg d i x j y k)
          (and_reg d i x j y k)
  unfolding GarbleWire.op_prepare GarbleWire.randomize GarbleWire.op_finish EvalWire.op
  and_reg-Simulates d i x j y k d≢x d≢y = record {
    run = λ g e p rel u p' eq.
        let (r, eq') = apart_of_and_reg d i x j y k d≢x d≢y p eq in
        let (this_g, this_e, read_g, read_e, _) = fetch_reg-All rel.s d i r.reads in
        let (left_g, left_e, left_read_g, left_read_e, left_agree) =
          fetch_reg-All rel.s x j r.reads_left in
        let (right_g, right_e, right_read_g, right_read_e, right_agree) =
          fetch_reg-All rel.s y k r.reads_right in
        let (out, drawn) = GarbleWire.op_prepare primitives this_g g.party in
        let counted = record drawn { counter = drawn.counter + 1 } in
        let gate = GarbleWire.new_gate primitives counted out left_g right_g and_function in
        let res_e = EvalWire.eval primitives gate left_e right_e (e.party.counter + 1) in
        let value : call and_function r.left r.right ≡ r.res =
          ap (λ (q : Bool × Prng). q.0) (ok-injective r.finishes) in
        let agree : Agrees delta out res_e r.res = subst (Agrees delta out res_e) value (
          gate-Agrees counted out left_g right_g and_function rel.signal rel.delta_is
            (op_prepare-clear primitives this_g g.party) (ap (λ n. n + 1) rel.counter) left_agree
            right_agree) in
        let (s_g, s_e, store_g, store_e, stored) =
          store_reg-All rel.s d i out res_e r.res agree r.writes in
        let advanced =
          ap (λ (q : Prng). (get_bit (get_doubleword q).1).1) rel.prng
          ∙ ap (λ (q : Bool × Prng). q.1) r.prepares
          ∙ ap (λ (q : Bool × Prng). q.1) (ok-injective r.finishes) in
        let in_step = ap (λ n. n + 1) rel.counter in
        as_result eq' (record {
          a = tt;
          b = tt;
          g' = record g {
            s = s_g;
            party = GarbleWire.op_finish primitives out left_g right_g and_function drawn;
          };
          e' = record e { s = s_e; party = record (e.party) { counter = e.party.counter + 1 } };
          gates = gate ∷ [];
          masks = [];
          garbles = and_reg_of_apart d i x j y k d≢x d≢y g (record {
            this = this_g;
            this' = out;
            party' = drawn;
            left = left_g;
            right = right_g;
            res = out;
            party = GarbleWire.op_finish primitives out left_g right_g and_function drawn;
            s' = s_g;
            reads = read_g;
            prepares = refl;
            reads_left = left_read_g;
            reads_right = right_read_g;
            finishes = refl;
            writes = store_g;
          });
          sends = refl;
          hides = sym (append-nil g.party.output_masks);
          evaluates = λ rest more.
              let fed = feed primitives e (gate ∷ rest) more in
              and_reg_of_apart d i x j y k d≢x d≢y fed (record {
                this = this_e;
                this' = this_e;
                party' = fed.party;
                left = left_e;
                right = right_e;
                res = res_e;
                party = record { counter = e.party.counter + 1; gates = rest; output_masks = more };
                s' = s_e;
                reads = read_e;
                prepares = refl;
                reads_left = left_read_e;
                reads_right = right_read_e;
                finishes = refl;
                writes = store_e;
              });
          agree = tt;
          related = assumption (stored, advanced, in_step);
        });
  }
