-- ===== src/Yao/Simulation/Counts.antt =====
-- How many gates and masks GC/Secret.cpp makes the garbler send.
use spdz_yao.Base
use spdz_yao.Base.{
  arith, ℕ, zero, suc, ◌+◌, ◌*◌, ◌≡◌, refl, sym, ap, min, Bool, List, [], ◌∷◌, ◌++◌, length,
  length-append, Result, ok, >>=-eq-ok, ok-injective,
}
use mathlib.Core.Path.{subst}
use spdz_yao.Gc.Processor.{
  M, pure, ◌>>=◌, times, fetch, get_s, put_s, get_reg, put_reg, on_party, fetch_reg, store_reg,
}
use spdz_yao.Function.{Function, and_function}
use spdz_yao.Gc.Secret.{resize_regs, and_reg, andrs, reveal_from, reveal}
use spdz_yao.Yao.Primitives.{Primitives}
use spdz_yao.Yao.Phases.{garble_phase}
use spdz_yao.Yao.Gate.{Gate}
use spdz_yao.Yao.GarbleWire
use spdz_yao.Yao.GarbleWire.{Garbler, GarbleWire}
use spdz_yao.Yao.Simulation.Relation.{GarblerProcessor}

module _ {primitives : Primitives} where
  -- The second party has so many more gates and masks to be sent than the first.
  abbrev pub Longer : ℕ → ℕ → Garbler primitives → Garbler primitives → Type 0
  Longer k l party party' =
      (length party'.gates ≡ length party.gates + k)
      × (length party'.output_masks ≡ length party.output_masks + l)

  -- Code that, when it returns, has made the garbler store so many gates and masks.
  pub record Sends {A : Type 0} (k l : ℕ) (m : M (garble_phase primitives) A) : Type 0 where
    pub counted :
        (g : GarblerProcessor primitives) (a : A) (g' : GarblerProcessor primitives)
        → m g ≡ ok (a, g')
        → Longer k l g.party g'.party

  pure-Sends : {A : Type 0} (a : A) → Sends 0 0 (pure {phase = garble_phase primitives} a)
  unfolding pure
  pure-Sends a = record {
    counted = λ g b g' eq.
        let same : g.party ≡ g'.party = ap (λ r. r.1.party) (ok-injective eq) in
        rw (← same) (omega arith, omega arith);
  }

  bind-Sends :
      {A B : Type 0} {k l k' l' : ℕ} {m : M (garble_phase primitives) A}
      {f : A → M (garble_phase primitives) B}
      → Sends k l m
      → ((a : A) → Sends k' l' (f a))
      → Sends (k + k') (l + l') (m >>= f)
  unfolding ◌>>=◌
  bind-Sends {m} {f} first later = record {
    counted = λ g b g' eq.
        let (r, runs, goes_on) = >>=-eq-ok (m g) (λ r. f r.0 r.1) eq in
        let one = first.counted g r.0 r.1 runs in
        let two = (later r.0).counted r.1 b g' goes_on in
        (omega (arith, one.0, two.0), omega (arith, one.1, two.1));
  }

  exactly :
      {A : Type 0} {k l k' l' : ℕ} {m : M (garble_phase primitives) A}
      → Sends k l m
      → k ≡ k'
      → l ≡ l'
      → Sends k' l' m
  exactly sends e e' = rw (← e, ← e') sends

  times-Sends :
      (n first : ℕ) (body : ℕ → M (garble_phase primitives) (Unit {0}))
      → ((i : ℕ) → Sends 1 0 (body i))
      → Sends n 0 (times n first body)
  unfolding times
  times-Sends zero first body each = pure-Sends tt
  times-Sends (suc n) first body each =
      exactly (bind-Sends (each first) (λ _. times-Sends n (first + 1) body each)) (omega arith)
        refl

  -- Code that reads or writes registers stores no gate and no mask.
  keeps-Sends :
      {X A : Type 0} (call : GarblerProcessor primitives → Result X)
      (next : GarblerProcessor primitives → X → A × GarblerProcessor primitives)
      → ((g : GarblerProcessor primitives) (x : X) → g.party ≡ (next g x).1.party)
      → Sends 0 0 (λ g. Base.◌>>=◌ (call g) (λ x. ok (next g x)))
  keeps-Sends call next keeps = record {
    counted = λ g a g' eq.
        let (x, runs, returns) = >>=-eq-ok (call g) (λ x. ok (next g x)) eq in
        let same : (next g x).1.party ≡ g'.party = ap (λ r. r.1.party) (ok-injective returns) in
        rw (← same, ← keeps g x) (omega arith, omega arith);
  }

  get_s-Sends : (r : ℕ) → Sends 0 0 (get_s {phase = garble_phase primitives} r)
  unfolding get_s
  get_s-Sends r = keeps-Sends (λ g. fetch g.s r) (λ g x. (x, g)) (λ g x. refl)

  put_s-Sends :
      (r : ℕ) (regs : List GarbleWire) → Sends 0 0 (put_s {phase = garble_phase primitives} r regs)
  unfolding put_s
  put_s-Sends r regs = keeps-Sends _ (λ g s. (tt, record g { s = s })) (λ g x. refl)

  get_reg-Sends : (r i : ℕ) → Sends 0 0 (get_reg {phase = garble_phase primitives} r i)
  unfolding get_reg
  get_reg-Sends r i = keeps-Sends (λ g. fetch_reg g.s r i) (λ g x. (x, g)) (λ g x. refl)

  put_reg-Sends :
      (r i : ℕ) (w : GarbleWire) → Sends 0 0 (put_reg {phase = garble_phase primitives} r i w)
  unfolding put_reg
  put_reg-Sends r i w =
      keeps-Sends (λ g. store_reg g.s r i w) (λ g s. (tt, record g { s = s })) (λ g x. refl)

  on_party-Sends :
      {A : Type 0} {k l : ℕ} (f : Garbler primitives → A × Garbler primitives)
      → ((party : Garbler primitives) → Longer k l party (f party).1)
      → Sends k l (on_party {phase = garble_phase primitives} (λ party. ok (f party)))
  unfolding on_party
  on_party-Sends f longer = record {
    counted = λ g a g' eq.
        let same : (f g.party).1 ≡ g'.party = ap (λ r. r.1.party) (ok-injective eq) in
        rw (← same) (longer g.party);
  }

  op_prepare-Longer :
      (w : GarbleWire) (party : Garbler primitives)
      → Longer 0 0 party (GarbleWire.op_prepare primitives w party).1
  unfolding GarbleWire.op_prepare
  op_prepare-Longer w party = (omega arith, omega arith)

  op_finish-Longer :
      (out left right : GarbleWire) (func : Function) (party : Garbler primitives)
      → Longer 1 0 party (GarbleWire.op_finish primitives out left right func party)
  unfolding GarbleWire.op_finish
  op_finish-Longer out left right func party = (length-append party.gates _, omega arith)

  get_output-Longer :
      (w : GarbleWire) (party : Garbler primitives)
      → Longer 0 1 party (GarbleWire.get_output primitives w party).1
  unfolding GarbleWire.get_output
  get_output-Longer w party = (omega arith, length-append party.output_masks _)

  -- One AND has one gate.
  and_reg-Sends :
      (d i x j y k : ℕ) → Sends 1 0 (and_reg {phase = garble_phase primitives} d i x j y k)
  unfolding and_reg
  and_reg-Sends d i x j y k = bind-Sends (get_reg-Sends d i) (λ this.
      bind-Sends (on_party-Sends _ (op_prepare-Longer this)) (λ this'.
        bind-Sends (put_reg-Sends d i this') (λ _. bind-Sends (get_reg-Sends x j) (λ left.
          bind-Sends (get_reg-Sends y k) (λ right.
            bind-Sends
              (on_party-Sends _ (λ party. op_finish-Longer this' left right and_function party))
              (λ res. put_reg-Sends d i res))))))

  -- `andrs` has a gate for each wire.
  pub andrs-Sends : (d n x y : ℕ) → Sends n 0 (andrs {phase = garble_phase primitives} d n x y)
  unfolding andrs resize_regs
  andrs-Sends d n x y =
      exactly
        (bind-Sends (bind-Sends (get_s-Sends d) (λ regs. put_s-Sends d _))
          (λ _. times-Sends n 0 _ (λ i. and_reg-Sends d i x i y 0)))
        (omega arith) refl

  -- `reveal` has a mask for each wire that it reads.
  pub reveal_from-Sends :
      (n r i x : ℕ) → Sends 0 n (reveal_from {phase = garble_phase primitives} n r i x)
  unfolding reveal_from
  reveal_from-Sends zero r i x = pure-Sends x
  reveal_from-Sends (suc n) r i x =
      exactly
        (bind-Sends (get_reg-Sends r i) (λ w.
          bind-Sends (on_party-Sends _ (get_output-Longer w))
            (λ out. reveal_from-Sends n r (i + 1) _)))
        refl (omega arith)

  pub reveal-masks :
      (r : ℕ) (g : GarblerProcessor primitives) (c : ℕ) (g' : GarblerProcessor primitives)
      → reveal r g ≡ ok (c, g')
      → (regs : List GarbleWire) × (fetch g.s r ≡ ok regs)
        × Longer 0 (min 64 (length regs)) g.party g'.party
  unfolding reveal ◌>>=◌ get_s
  reveal-masks r g c g' eq =
      let (read, reads, goes_on) =
        >>=-eq-ok (get_s r g) (λ read. reveal_from (min 64 (length read.0)) r 0 0 read.1) eq in
      let (regs, there, returns) = >>=-eq-ok (fetch g.s r) (λ regs. ok (regs, g)) reads in
      let same : g.party ≡ read.1.party = ap (λ x. x.1.party) (ok-injective returns) in
      let wires : regs ≡ read.0 = ap (λ x. x.0) (ok-injective returns) in
      (
        regs,
        there,
        subst (λ n. Longer 0 (min 64 (length n)) g.party g'.party) (sym wires)
            (subst (λ party. Longer 0 (min 64 (length read.0)) party g'.party) (sym same)
              ((reveal_from-Sends (min 64 (length read.0)) r 0 0).counted read.1 c g' goes_on)),
      )

  -- What was sent, when the buffers are longer by so many.
  pub Longer-sent :
      {k l : ℕ} (g g' : GarblerProcessor primitives) (gates : List Gate) (masks : List Bool)
      → Longer k l g.party g'.party
      → g'.party.gates ≡ g.party.gates ++ gates
      → g'.party.output_masks ≡ g.party.output_masks ++ masks
      → (length gates ≡ k) × (length masks ≡ l)
  Longer-sent g g' gates masks longer sends hides =
      let all_gates = ap length sends in
      let all_masks = ap length hides in
      (
        omega (arith, longer.0, all_gates, length-append g.party.gates gates),
        omega (arith, longer.1, all_masks, length-append g.party.output_masks masks),
      )
