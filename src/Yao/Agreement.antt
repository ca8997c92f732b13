-- ===== src/Yao/Agreement.antt =====
-- What ties a wire of the garbler to the evaluator's, and that every wire operation keeps it.
use spdz_yao.Base.{
  ℕ, ◌+◌, ◌*◌, ◌≡◌, refl, sym, ap, ap₂, ◌∙◌, Bool, true, false, xor, if◌then◌else◌, List, get_or,
  arith,
}
use spdz_yao.Key.{Key, zero_key, ◌⊕◌, add_assign, sub_assign, get_signal}
use spdz_yao.Key.Laws.{
  ⊕_cancel, ⊕-zero, ⊕_interchange, ⊕_self, zero-⊕, get_signal-⊕, get_signal-zero,
}
use spdz_yao.Function.{Function, bit, call}
use spdz_yao.Yao.Gate.{
  Gate, blank_gate, get_entry, offset, e_input, gate_hashes, garbled_key, garble, eval_entry,
}
use spdz_yao.Yao.Primitives.{Primitives}
use spdz_yao.Yao.GarbleWire
use spdz_yao.Yao.GarbleWire.{GarbleWire, Garbler}
use spdz_yao.Yao.EvalWire
use spdz_yao.Yao.EvalWire.{EvalWire, Evaluator}

-- The evaluator holds the label of `value`: the garbler's label, offset by delta when the value is
-- not the mask, with the masked value as its signal.
pub record Agrees (delta : Key) (g : GarbleWire) (e : EvalWire) (value : Bool) : Type 0 where
  pub clear : get_signal g.key ≡ false
  pub external : e.external ≡ xor value g.mask
  pub label : e.key ≡ g.key ⊕ offset delta (xor value g.mask)

signal_of_label :
    (delta k : Key) (b : Bool)
    → get_signal delta ≡ true
    → get_signal k ≡ false
    → get_signal (k ⊕ offset delta b) ≡ b
unfolding xor
signal_of_label delta k true hd hk = rw (get_signal-⊕, hd, hk)
signal_of_label delta k false hd hk = rw (get_signal-⊕, get_signal-zero, hk)

xor_cancel : (b : Bool) → xor b b ≡ false
unfolding xor
xor_cancel true = refl
xor_cancel false = refl

pub public_input-Agrees :
    (delta : Key) (value : Bool) (g : GarbleWire) (e : EvalWire)
    → Agrees delta (GarbleWire.public_input value g) (EvalWire.public_input value e) value
unfolding GarbleWire.public_input EvalWire.public_input
public_input-Agrees delta value g e = record {
  clear = get_signal-zero;
  external = rw (xor_cancel, get_signal-zero);
  label = rw (xor_cancel) (sym (⊕-zero zero_key));
}

-- A new register stands for the value 0.
pub new_reg-Agrees : (delta : Key) → Agrees delta GarbleWire.new_reg EvalWire.new_reg false
unfolding xor
new_reg-Agrees delta = record {
  clear = get_signal-zero;
  external = refl;
  label = sym (⊕-zero zero_key);
}

offset-xor : (delta : Key) (a b : Bool) → offset delta (xor a b) ≡ offset delta a ⊕ offset delta b
unfolding xor
offset-xor delta true true = sym (⊕_self delta)
offset-xor delta true false = sym (⊕-zero delta)
offset-xor delta false true = sym (zero-⊕ delta)
offset-xor delta false false = sym (⊕-zero zero_key)

xor_interchange : (a b c d : Bool) → xor (xor a b) (xor c d) ≡ xor (xor a c) (xor b d)
unfolding xor
xor_interchange a b c d = ground arith

-- The free exclusive or: without a gate both parties get the wire of the exclusive or.
pub xor_wires-Agrees :
    {delta : Key} {g h : GarbleWire} {e f : EvalWire} {v w : Bool}
    → Agrees delta g e v
    → Agrees delta h f w
    → Agrees delta (GarbleWire.xor_wires g h) (EvalWire.xor_wires e f) (xor v w)
unfolding GarbleWire.xor_wires EvalWire.xor_wires
xor_wires-Agrees {delta} {g} {h} {e} {f} {v} {w} p q = record {
  clear = rw (get_signal-⊕, p.clear, q.clear) (xor_cancel false);
  external = rw (p.external, q.external) (xor_interchange v g.mask w h.mask);
  label =
      ap₂ ◌⊕◌ p.label q.label
      ∙ ⊕_interchange g.key _ h.key _
      ∙ ap (◌⊕◌ (g.key ⊕ h.key))
          (sym (offset-xor delta _ _) ∙ ap (offset delta) (xor_interchange v g.mask w h.mask));
}

-- The entry for two values is where their masked values point.
get_entry-garble :
    (delta k : Key) (m : Bool) (hashes : List Key) (lm rm : Bool) (func : Function) (g : Gate)
    (lv rv : Bool)
    → get_entry (garble delta k m hashes lm rm func g) (xor lv lm) (xor rv rm)
      ≡ garbled_key delta k m hashes lm rm func lv rv
unfolding garble get_entry xor
get_entry-garble delta k m hashes lm rm func g lv rv = ground arith

gate_hash :
    (hash : Key → Key) (delta left right : Key) (t : ℕ) (i j : Bool)
    → get_or (gate_hashes hash delta left right t) (2 * bit i + bit j) zero_key
      ≡ hash (e_input (left ⊕ offset delta i) (right ⊕ offset delta j) t)
unfolding gate_hashes
gate_hash hash delta left right t true true = refl
gate_hash hash delta left right t true false = refl
gate_hash hash delta left right t false true = refl
gate_hash hash delta left right t false false = refl

add_offset : (delta k : Key) (b : Bool) → (if b then add_assign k delta else k) ≡ k ⊕ offset delta b
unfolding add_assign
add_offset delta k true = refl
add_offset delta k false = sym (⊕-zero k)

-- The entry that the evaluator's wires select decrypts to the label of the function's value.
eval_entry-garble :
    (hash : Key → Key) (delta k : Key) (m : Bool) (func : Function) (t : ℕ) (g h : GarbleWire)
    {e f : EvalWire} {v w : Bool}
    → Agrees delta g e v
    → Agrees delta h f w
    → let gate =
        garble delta k m (gate_hashes hash delta g.key h.key t) g.mask h.mask func blank_gate in
      eval_entry (hash (e_input e.key f.key t)) (get_entry gate e.external f.external)
      ≡ k ⊕ offset delta (xor (call func v w) m)
unfolding eval_entry sub_assign garbled_key
eval_entry-garble hash delta k m func t g h {v} {w} p q =
    rw (p.external, q.external, p.label, q.label, get_entry-garble, gate_hash, add_offset)
      (unfold add_assign in ⊕_cancel _ _)

-- A gate: the evaluator's `op` on the gate that the garbler's `op` sends, with the counters in step,
-- yields the wire of the function's value.
pub eval-Agrees :
    (primitives : Primitives) (party : Garbler primitives) (func : Function) (out g h : GarbleWire)
    {e f : EvalWire} {v w : Bool}
    → get_signal party.delta ≡ true
    → get_signal out.key ≡ false
    → Agrees party.delta g e v
    → Agrees party.delta h f w
    → Agrees party.delta out
        (EvalWire.eval primitives
          (GarbleWire.new_gate primitives party out g h func)
          e
          f
          party.counter)
        (call func v w)
unfolding EvalWire.eval GarbleWire.new_gate
eval-Agrees primitives party func out g h {v} {w} sd so p q =
    let e =
      eval_entry-garble primitives.hash party.delta out.key out.mask func party.counter g h p q in
    record {
      clear = so;
      external = ap get_signal e ∙ signal_of_label party.delta out.key _ sd so;
      label = e;
    }
