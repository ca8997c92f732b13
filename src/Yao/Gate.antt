-- ===== src/Yao/Gate.antt =====
-- Yao/YaoGate.h and Yao/YaoGate.cpp: a garbled gate is a table of four encrypted output labels.
use spdz_yao.Base.{ℕ, ◌+◌, ◌*◌, Bool, true, false, xor, if◌then◌else◌, List, [], ◌∷◌, get_or}
use spdz_yao.Key.{Key, zero_key, of_int, ◌⊕◌, add_assign, sub_assign, doubling}
use spdz_yao.Function.{Function, bit, call}

-- `Key entries[2][2]`, by the left and the right index.
pub record Gate : Type 0 where
  pub entry_00 : Key
  pub entry_01 : Key
  pub entry_10 : Key
  pub entry_11 : Key

unfoldable pub get_entry : Gate → Bool → Bool → Key
get_entry g false false = g.entry_00
get_entry g false true = g.entry_01
get_entry g true false = g.entry_10
get_entry g true true = g.entry_11

unfoldable pub set_entry : Gate → Bool → Bool → Key → Gate
set_entry g false false k = record g { entry_00 = k }
set_entry g false true k = record g { entry_01 = k }
set_entry g true false k = record g { entry_10 = k }
set_entry g true true k = record g { entry_11 = k }

-- The state of a new gate, before `garble` or a read from the network fills it.
abbrev pub blank_gate : Gate
blank_gate = record {
  entry_00 = zero_key;
  entry_01 = zero_key;
  entry_10 = zero_key;
  entry_11 = zero_key;
}

-- The input of the hash: gate number `t` is mixed in so that no two gates share one.
unfoldable pub e_input : Key → Key → ℕ → Key
e_input left right t = doubling 1 left ⊕ doubling 2 right ⊕ of_int t

-- `b ? delta : 0`.
abbrev pub offset : Key → Bool → Key
offset delta b = if b then delta else zero_key

module _ (delta out_key : Key) (out_mask : Bool) (hashes : List Key) (left_mask right_mask : Bool)
    (func : Function) where
  -- The body of the two loops of `garble`.
  unfoldable pub garbled_key : Bool → Bool → Key
  garbled_key left_value right_value =
      add_assign
        (if xor (call func left_value right_value) out_mask
          then add_assign out_key delta
          else out_key)
        (get_or hashes (2 * bit (xor left_value left_mask) + bit (xor right_value right_mask))
          zero_key)

  garble_row : Bool → Bool → Gate → Gate
  unfolding garbled_key set_entry
  garble_row left_value right_value g =
      set_entry g (xor left_value left_mask) (xor right_value right_mask)
        (garbled_key left_value right_value)

  -- `YaoGate::garble`; the output wire is given by its key and its mask.
  unfoldable pub garble : Gate → Gate
  unfolding garble_row
  garble g =
      garble_row true true
        (garble_row true false (garble_row false true (garble_row false false g)))

-- The four hashes of `YaoGate::YaoGate`, in the order of its loops.
unfoldable pub gate_hashes : (Key → Key) → Key → Key → Key → ℕ → List Key
gate_hashes hash delta left right counter =
    hash_of false false ∷ hash_of false true ∷ hash_of true false ∷ hash_of true true ∷ []
  where
    hash_of : Bool → Bool → Key
    hash_of i j = hash (e_input (left ⊕ offset delta i) (right ⊕ offset delta j) counter)

-- The label that `YaoGate::eval` recovers from an entry.
unfoldable pub eval_entry : Key → Key → Key
eval_entry hash entry = sub_assign entry hash
