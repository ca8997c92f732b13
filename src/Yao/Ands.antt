-- ===== src/Yao/Ands.antt =====
-- Yao/YaoGarbleWire.cpp and Yao/YaoEvalWire.cpp: `andrs`, which takes an ANDRS instruction of ten
-- gates or more in one go: it hashes for all gates first, then garbles or evaluates one by one.
-- A wire or a hash that does not exist is a `fault`; references to wires are read where they are used.
pub mod Few
use spdz_yao.Base.{
  ℕ, zero, suc, ◌+◌, ◌*◌, Bool, false, true, ltb, if◌then◌else◌, List, [], ◌∷◌, ◌++◌, map, length,
  Result, ok, fault,
}
use spdz_yao.Base
use spdz_yao.Key.{Key, ◌⊕◌}
use spdz_yao.Function.{and_function}
use spdz_yao.Gc.Processor.{
  M, pure, throw, ◌>>=◌, ◌>>◌, lift, fetch, fetch_reg, get_s, get_reg, put_reg, get_complexity,
  put_complexity, on_party,
}
use spdz_yao.Gc.Secret.{resize_regs}
use spdz_yao.Gc.Instruction.{check_args, processor_andrs}
use spdz_yao.Yao.Gate.{Gate, blank_gate, garble, e_input, offset, get_entry, eval_entry}
use spdz_yao.Yao.Primitives.{Primitives}
use spdz_yao.Yao.GarbleWire
use spdz_yao.Yao.GarbleWire.{GarbleWire, Garbler}
use spdz_yao.Yao.EvalWire
use spdz_yao.Yao.EvalWire.{EvalWire, Evaluator}
use spdz_yao.Yao.Phases.{garble_phase, eval_phase}

-- The labels of one gate of the garbler, and those of a register of left wires.
unfoldable pub gate_labels : Key → Key → Key → ℕ → List Key
gate_labels delta left right counter =
    label false false ∷ label false true ∷ label true false ∷ label true true ∷ []
  where
    label : Bool → Bool → Key
    label i j = e_input (left ⊕ offset delta i) (right ⊕ offset delta j) counter

unfoldable pub garble_labels : Key → List GarbleWire → Key → ℕ → List Key
garble_labels delta [] right counter = []
garble_labels delta (w ∷ left) right counter =
    gate_labels delta w.key right (counter + 1) ++ garble_labels delta left right (counter + 1)

unfoldable pub eval_labels : List EvalWire → Key → ℕ → List Key
eval_labels [] right counter = []
eval_labels (w ∷ left) right counter =
    e_input w.key right (counter + 1) ∷ eval_labels left right (counter + 1)

-- The labels of all quadruples of arguments, and the counter after them. There are as many gates'
-- labels as the left register has wires.
unfoldable pub collect :
    {Wire : Type 0}
    → (List Wire → Wire → ℕ → List Key)
    → List (List Wire)
    → List ℕ
    → ℕ
    → Result (List Key × ℕ)
collect labels s (n ∷ d ∷ x ∷ y ∷ args) counter = Base.◌>>=◌ (fetch_reg s y 0) λ right.
    Base.◌>>=◌ (fetch s x) λ left.
      Base.◌>>=◌ (collect labels s args (counter + length left))
        λ rest. ok (labels left right counter ++ rest.0, rest.1)
collect labels s rest counter = ok ([], counter)

module _ (primitives : Primitives) where
  open primitives use {hash}

  -- The first loop and the hashing. The array of labels is on the stack for few gates.
  unfoldable pub garble_hashes : ℕ → List ℕ → M (garble_phase primitives) (List Key)
  garble_hashes total args proc =
      let party = proc.party in
      Base.◌>>=◌
        (collect (λ left right. garble_labels party.delta left right.key) proc.s args party.counter)
        λ labels.
          if ltb (if ltb total 100 then 400 else 4 * total) (length labels.0)
          then Result.err fault
          else ok (map hash labels.0, record proc { party = record party { counter = labels.1 } })

  unfoldable pub eval_hashes : ℕ → List ℕ → M (eval_phase primitives) (List Key)
  eval_hashes total args proc =
      let party = proc.party in
      Base.◌>>=◌ (collect (λ left right. eval_labels left right.key) proc.s args party.counter)
        λ labels.
          if ltb (if ltb total 1000 then 1000 else total) (length labels.0)
          then Result.err fault
          else ok (map hash labels.0, record proc { party = record party { counter = labels.1 } })

  -- `(gate++)->garble(..)`.
  unfoldable pub append_gate :
      GarbleWire
      → List Key
      → GarbleWire
      → GarbleWire
      → Garbler primitives
      → Result (Unit {0} × Garbler primitives)
  append_gate out hashes left right party =
      let gate =
        garble party.delta out.key out.mask hashes left.mask right.mask and_function blank_gate in
      ok (tt, record party { gates = party.gates ++ gate ∷ [] })

  -- The inner loop of the second loop, which uses up four hashes for each gate.
  unfoldable pub garble_each :
      ℕ → ℕ → (d x y : ℕ) → List Key → M (garble_phase primitives) (List Key)
  garble_each zero k d x y hashes = pure hashes
  garble_each (suc n) k d x y (h0 ∷ h1 ∷ h2 ∷ h3 ∷ hashes) = do
    this ← get_reg d k
    out ← on_party (λ q. ok (GarbleWire.op_prepare primitives this q))
    put_reg d k out
    left ← get_reg x k
    right ← get_reg y 0
    on_party (append_gate out (h0 ∷ h1 ∷ h2 ∷ h3 ∷ []) left right)
    garble_each n (k + 1) d x y hashes
  garble_each (suc n) k d x y few = throw fault

  unfoldable pub eval_each : ℕ → ℕ → (d x y : ℕ) → List Key → M (eval_phase primitives) (List Key)
  eval_each zero k d x y hashes = pure hashes
  eval_each (suc n) k d x y [] = throw fault
  eval_each (suc n) k d x y (h ∷ hashes) = do
    left ← get_reg x k
    right ← get_reg y 0
    gate ← on_party EvalWire.load_gate
    put_reg d k (EvalWire.set (eval_entry h (get_entry gate left.external right.external)))
    eval_each n (k + 1) d x y hashes

  unfoldable pub garble_all : List ℕ → List Key → M (garble_phase primitives) (Unit {0})
  garble_all (n ∷ d ∷ x ∷ y ∷ args) hashes = do
    resize_regs d n
    rest ← garble_each n 0 d x y hashes
    garble_all args rest
  garble_all rest hashes = pure tt

  unfoldable pub eval_all : List ℕ → List Key → M (eval_phase primitives) (Unit {0})
  eval_all (n ∷ d ∷ x ∷ y ∷ args) hashes = do
    resize_regs d n
    rest ← eval_each n 0 d x y hashes
    eval_all args rest
  eval_all rest hashes = pure tt

  -- `YaoGarbleWire::andrs_singlethread`, and with it `YaoGarbleWire::andrs` for fewer gates than
  -- `get_threshold()`.
  unfoldable pub garble_andrs : List ℕ → M (garble_phase primitives) (Unit {0})
  garble_andrs args = do
    total ← check_args args
    if ltb total 10 then processor_andrs args else do
      complexity ← get_complexity
      put_complexity (complexity + total)
      hashes ← garble_hashes total args
      garble_all args hashes

  -- `YaoEvalWire::andrs`.
  unfoldable pub eval_andrs : List ℕ → M (eval_phase primitives) (Unit {0})
  eval_andrs args = do
    total ← check_args args
    if ltb total 10 then processor_andrs args else do
      complexity ← get_complexity
      put_complexity (complexity + total)
      hashes ← eval_hashes total args
      eval_all args hashes
