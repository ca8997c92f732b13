-- ===== src/Yao/Simulation/Secrets.antt =====
-- The simulation of the operations on secret registers.
use spdz_yao.Base.{
  ℕ, zero, suc, ◌+◌, ◌*◌, ◌%◌, ◌^◌, min, ◌≢◌, refl, ap₂, Bool, ◌==◌, ltb, if◌then◌else◌, List, [],
  ◌∷◌, length, bit_xor, fault, out_of_range, processor_error, not_implemented,
}
use spdz_yao.Key.{Key}
use spdz_yao.Gc.Processor.{throw, lift, fetch}
use spdz_yao.Gc.Secret.{
  resize_regs, xor_reg, xor_, andrs, too_long, load_reg, load, random_reg, random_bits, push_bits,
  bitcom, split_bits, bitdec, reveal_from, reveal,
}
use spdz_yao.Yao.Primitives.{Primitives}
use spdz_yao.Yao.GarbleWire.{GarbleWire}
use spdz_yao.Yao.EvalWire.{EvalWire}
use spdz_yao.Yao.Agreement.{Agrees, new_reg-Agrees, public_input-Agrees, xor_wires-Agrees}
use spdz_yao.Yao.Simulation.Lists.{
  All, nil, cons, fetch-All, resize-All, append-All, length-All_left, length-All_right,
}
use spdz_yao.Yao.Simulation.Relation.{Simulates}
use spdz_yao.Yao.Simulation.Rules.{
  Done, Revealed, pure-Simulates, throw-Simulates, bind-Simulates, seq-Simulates, if-Simulates,
  lift-Simulates, times-Simulates,
}
use spdz_yao.Yao.Simulation.Registers.{get_s-Simulates, put_s-Simulates}
use spdz_yao.Yao.Simulation.Wires.{get_reg-Simulates, put_reg-Simulates}
use spdz_yao.Yao.Simulation.AndGate.{and_reg-Simulates}
use spdz_yao.Yao.Simulation.Gates.{random-Simulates, output-Simulates}

module _ {primitives : Primitives} {delta : Key} where
  resize_regs-Simulates :
      (r n : ℕ)
      → Simulates primitives delta Done (resize_regs r n) (resize_regs r n) (resize_regs r n)
  unfolding resize_regs
  resize_regs-Simulates r n =
      bind-Simulates (get_s-Simulates r)
        (λ xs ys zs h. put_s-Simulates r (resize-All _ _ _ (new_reg-Agrees delta) n h))

  xor_reg-Simulates :
      (d i x j y k : ℕ)
      → Simulates primitives delta Done
          (xor_reg d i x j y k)
          (xor_reg d i x j y k)
          (xor_reg d i x j y k)
  unfolding xor_reg
  xor_reg-Simulates d i x j y k = bind-Simulates (get_reg-Simulates x j) λ g e v p.
      bind-Simulates (get_reg-Simulates y k)
        λ h f w q. put_reg-Simulates d i _ _ _ (xor_wires-Agrees p q)

  -- `S[d].xor_(n, S[x], S[y])`, whatever the three registers are.
  pub xor_-Simulates :
      (d n x y : ℕ) → Simulates primitives delta Done (xor_ d n x y) (xor_ d n x y) (xor_ d n x y)
  unfolding xor_
  xor_-Simulates d n x y =
      seq-Simulates (resize_regs-Simulates d n)
        (times-Simulates n 0 (λ i. xor_reg-Simulates d i x i y i))

  -- `S[d].andrs(n, S[x], S[y])` with a result apart from the operands.
  pub andrs-Simulates :
      (d n x y : ℕ)
      → d ≢ x
      → d ≢ y
      → Simulates primitives delta Done (andrs d n x y) (andrs d n x y) (andrs d n x y)
  unfolding andrs
  andrs-Simulates d n x y d≢x d≢y =
      seq-Simulates (resize_regs-Simulates d n)
        (times-Simulates n 0 (λ i. and_reg-Simulates d i x i y 0 d≢x d≢y))

  load_reg-Simulates :
      (r x i : ℕ)
      → Simulates primitives delta Done (load_reg r x i) (load_reg r x i) (load_reg r x i)
  unfolding load_reg
  load_reg-Simulates r x i =
      bind-Simulates (get_reg-Simulates r i)
        (λ g e v h. put_reg-Simulates r i _ _ _ (public_input-Agrees delta _ g e))

  -- `S[r].load(n, x)`, its errors included.
  pub load-Simulates :
      (r n x : ℕ) → Simulates primitives delta Done (load r n x) (load r n x) (load r n x)
  unfolding load
  load-Simulates r n x = if-Simulates (too_long n x) (throw-Simulates out_of_range) (
      if-Simulates (ltb 64 n) (throw-Simulates fault)
        (seq-Simulates (resize_regs-Simulates r n) (times-Simulates n 0 (load_reg-Simulates r x))))

  random_reg-Simulates :
      (r i : ℕ) → Simulates primitives delta Done (random_reg r i) (random_reg r i) (random_reg r i)
  unfolding random_reg
  random_reg-Simulates r i = bind-Simulates (get_reg-Simulates r i) λ g e v h.
      bind-Simulates (random-Simulates g e v) (λ g' e' v' h'. put_reg-Simulates r i g' e' v' h')

  pub random_bits-Simulates :
      (r n : ℕ)
      → Simulates primitives delta Done (random_bits r n) (random_bits r n) (random_bits r n)
  unfolding random_bits
  random_bits-Simulates r n =
      if-Simulates (ltb 128 n) (throw-Simulates not_implemented)
        (seq-Simulates (resize_regs-Simulates r n) (times-Simulates n 0 (random_reg-Simulates r)))

  one_bit-Simulates :
      {xs : List GarbleWire} {ys : List EvalWire} {zs : List Bool}
      → All (Agrees delta) xs ys zs
      → Simulates primitives delta
          (Agrees delta)
          (if length xs == 1 then lift (fetch xs 0) else throw processor_error)
          (if length ys == 1 then lift (fetch ys 0) else throw processor_error)
          (if length zs == 1 then lift (fetch zs 0) else throw processor_error)
  one_bit-Simulates {zs} h =
      rw (length-All_left h, length-All_right h)
        (if-Simulates (length zs == 1)
          (lift-Simulates λ v e. let f = fetch-All h 0 e in (f.x, f.y, f.left, f.right, f.agree))
          (throw-Simulates processor_error))

  push_bits-Simulates :
      (d : ℕ) (regs : List ℕ)
      → Simulates primitives delta Done (push_bits d regs) (push_bits d regs) (push_bits d regs)
  unfolding push_bits
  push_bits-Simulates d [] = pure-Simulates tt tt tt tt
  push_bits-Simulates d (r ∷ regs) = bind-Simulates (get_s-Simulates r) λ xs ys zs bits.
      bind-Simulates (one_bit-Simulates bits) λ g e v one.
        bind-Simulates (get_s-Simulates d) λ xs' ys' zs' own.
          seq-Simulates (put_s-Simulates d (append-All own (cons one nil)))
            (push_bits-Simulates d regs)

  -- `S[d].bitcom(S, regs)`.
  pub bitcom-Simulates :
      (d : ℕ) (regs : List ℕ)
      → Simulates primitives delta Done (bitcom d regs) (bitcom d regs) (bitcom d regs)
  unfolding bitcom
  bitcom-Simulates d regs = seq-Simulates (put_s-Simulates d nil) (push_bits-Simulates d regs)

  split_bits-Simulates :
      (x i : ℕ) (regs : List ℕ)
      → Simulates primitives delta Done
          (split_bits x i regs)
          (split_bits x i regs)
          (split_bits x i regs)
  unfolding split_bits
  split_bits-Simulates x i [] = pure-Simulates tt tt tt tt
  split_bits-Simulates x i (r ∷ regs) = seq-Simulates (put_s-Simulates r nil) (
      bind-Simulates (get_reg-Simulates x i) λ g e v h.
        seq-Simulates (put_s-Simulates r (cons h nil)) (split_bits-Simulates x (i + 1) regs))

  -- `S[x].bitdec(S, regs)`.
  pub bitdec-Simulates :
      (x : ℕ) (regs : List ℕ)
      → Simulates primitives delta Done (bitdec x regs) (bitdec x regs) (bitdec x regs)
  unfolding bitdec
  bitdec-Simulates x regs = bind-Simulates (get_s-Simulates x) λ xs ys zs h.
      rw (length-All_left h, length-All_right h)
        (if-Simulates (ltb (length zs) (length regs)) (throw-Simulates out_of_range)
          (split_bits-Simulates x 0 regs))

  reveal_from-Simulates :
      (n r i a b c : ℕ)
      → Revealed a b c
      → Simulates primitives delta Revealed
          (reveal_from n r i a)
          (reveal_from n r i b)
          (reveal_from n r i c)
  unfolding reveal_from
  reveal_from-Simulates zero r i a b c h = pure-Simulates a b c h
  reveal_from-Simulates (suc n) r i a b c h = bind-Simulates (get_reg-Simulates r i) λ g e v p.
      bind-Simulates (output-Simulates p) λ x y z q.
        reveal_from-Simulates n r (i + 1) _ _ _
          (ap₂ (λ l out. bit_xor l (out * 2 ^ i % 2 ^ 64)) h q)

  -- `S[r].reveal(x)`: the evaluator gets the plain value.
  pub reveal-Simulates :
      (r : ℕ) → Simulates primitives delta Revealed (reveal r) (reveal r) (reveal r)
  unfolding reveal
  reveal-Simulates r = bind-Simulates (get_s-Simulates r) λ xs ys zs h.
      rw (length-All_left h, length-All_right h)
        (reveal_from-Simulates (min 64 (length zs)) r 0 0 0 0 refl)
