-- ===== src/Yao/EvalWire.antt =====
-- Yao/YaoEvalWire.cpp: the wires of the evaluator, with the fields of YaoEvaluator that they reach.
use spdz_yao.Base.{ℕ, ◌+◌, Bool, false, xor, List, [], ◌∷◌, Result, ok, err, fault, ◌>>=◌}
use spdz_yao.Key.{Key, zero_key, ◌⊕◌, get_signal}
use spdz_yao.Function.{bit}
use spdz_yao.Yao.Gate.{Gate, get_entry, e_input, eval_entry}
use spdz_yao.Yao.Primitives.{Primitives}

pub record EvalWire : Type 0 where
  pub external : Bool
  pub key : Key

abbrev pub new_reg : EvalWire
new_reg = record { external = false; key = zero_key }

unfoldable pub set : Key → EvalWire
set key = record { external = get_signal key; key = key }

unfoldable pub public_input : Bool → EvalWire → EvalWire
unfolding set
public_input value w = set zero_key

unfoldable pub xor_wires : EvalWire → EvalWire → EvalWire
xor_wires left right = record {
  external = xor left.external right.external;
  key = left.key ⊕ right.key;
}

-- The fields of `YaoEvaluator` that evaluation uses: `gates` and `output_masks` are what has been
-- received and not yet read.
pub record Evaluator : Type 0 where
  pub counter : ℕ
  pub gates : List Gate
  pub output_masks : List Bool

unfoldable pub random : EvalWire → Evaluator → EvalWire × Evaluator
unfolding set
random w party = (set zero_key, party)

next_gate : List Gate → Evaluator → Result (Gate × Evaluator)
next_gate [] party = err fault
next_gate (gate ∷ rest) party = ok (gate, record party { gates = rest })

-- `YaoEvaluator::load_gate`. A read past the received data is not checked in C++.
unfoldable pub load_gate : Evaluator → Result (Gate × Evaluator)
unfolding next_gate
load_gate party = next_gate party.gates party

next_output : Bool → List Bool → Evaluator → Result (ℕ × Evaluator)
next_output external [] party = err fault
next_output external (mask ∷ rest) party =
    ok (bit (xor external mask), record party { output_masks = rest })

-- `YaoEvalWire::get_output`, its `bool` as a number.
unfoldable pub get_output : EvalWire → Evaluator → Result (ℕ × Evaluator)
unfolding next_output
get_output w party = next_output w.external party.output_masks party

module _ (primitives : Primitives) where
  open primitives use {hash}

  -- `YaoGate::eval` on wires: the entry that the external values select, decrypted.
  unfoldable pub eval : Gate → EvalWire → EvalWire → ℕ → EvalWire
  unfolding set
  eval gate left right counter = set (
      eval_entry (hash (e_input left.key right.key counter))
        (get_entry gate left.external right.external))

  -- `YaoEvalWire::op`; the function is the garbler's affair.
  unfoldable pub op : EvalWire → EvalWire → Evaluator → Result (EvalWire × Evaluator)
  unfolding load_gate eval
  op left right party = do
    (gate, party') ← load_gate party
    let counter = party'.counter + 1
    ok (eval gate left right counter, record party' { counter = counter })
