-- ===== src/Yao/GarbleWire.antt =====
-- Yao/YaoGarbleWire.cpp: the wires of the garbler, with the fields of YaoGarbler that they reach.
use spdz_yao.Base.{ℕ, ◌+◌, ◌-◌, ◌^◌, Bool, true, false, xor, List, [], ◌∷◌, ◌++◌}
use spdz_yao.Key.{Key, zero_key, ◌⊕◌, set_signal}
use spdz_yao.Function.{Function}
use spdz_yao.Yao.Gate.{Gate, blank_gate, garble, gate_hashes}
use spdz_yao.Yao.Primitives.{Primitives}

-- The label of the value 0 is `key`; `mask` hides the value that a label stands for.
pub record GarbleWire : Type 0 where
  pub key : Key
  pub mask : Bool

abbrev pub new_reg : GarbleWire
new_reg = record { key = zero_key; mask = false }

unfoldable pub public_input : Bool → GarbleWire → GarbleWire
public_input value w = record { key = zero_key; mask = value }

-- `YaoGarbleWire::XOR`: no gate is sent.
unfoldable pub xor_wires : GarbleWire → GarbleWire → GarbleWire
xor_wires left right = record { key = left.key ⊕ right.key; mask = xor left.mask right.mask }

module _ (primitives : Primitives) where
  open primitives use {Prng, get_doubleword, get_bit, hash}

  -- The fields of `YaoGarbler` that garbling uses. `gates` and `output_masks` are the buffers to
  -- be sent: one gate or one mask after the other.
  pub record Garbler : Type 0 where
    pub delta : Key
    pub counter : ℕ
    pub prng : Prng
    pub gates : List Gate
    pub output_masks : List Bool

  -- `YaoGarbler::YaoGarbler`, from the seeded generator on.
  unfoldable pub new_garbler : Prng → Garbler
  new_garbler prng =
      let (delta, prng') = get_doubleword prng in
      record {
        delta = set_signal true delta;
        counter = 0;
        prng = prng';
        gates = [];
        output_masks = [];
      }

  unfoldable pub randomize : Prng → GarbleWire × Prng
  randomize prng =
      let (key, prng') = get_doubleword prng in
      let (mask, prng'') = get_bit prng' in
      (record { key = set_signal false key; mask = mask }, prng'')

  unfoldable pub random : GarbleWire → Garbler → GarbleWire × Garbler
  random w party =
      let (mask, prng') = get_bit party.prng in
      (record { key = zero_key; mask = mask }, record party { prng = prng' })

  -- `YaoGate::YaoGate`, with the garbler's offset, hash and counter.
  unfoldable pub new_gate : Garbler → GarbleWire → GarbleWire → GarbleWire → Function → Gate
  new_gate party out left right func =
      let hashes = gate_hashes hash party.delta left.key right.key party.counter in
      garble party.delta out.key out.mask hashes left.mask right.mask func blank_gate

  -- `YaoGarbleWire::op` is in two parts. It first writes `*this`, which may be an operand.
  unfoldable pub op_prepare : GarbleWire → Garbler → GarbleWire × Garbler
  op_prepare w party =
      let (out, prng') = randomize party.prng in (out, record party { prng = prng' })

  -- Then it reads the operands, and counts, garbles and stores the gate.
  unfoldable pub op_finish : GarbleWire → GarbleWire → GarbleWire → Function → Garbler → Garbler
  unfolding new_gate
  op_finish out left right func party =
      let party' = record party { counter = party.counter + 1 } in
      record party' { gates = party.gates ++ new_gate party' out left right func ∷ [] }

  -- The `char` -1 that `get_output` returns, as the 64-bit word that it is extended to.
  unfoldable pub get_output : GarbleWire → Garbler → ℕ × Garbler
  get_output w party =
      (2 ^ 64 - 1, record party { output_masks = party.output_masks ++ w.mask ∷ [] })
