-- ===== src/Yao/Simulation/Instructions.antt =====
-- The simulation of the instructions.
use spdz_yao.Base.{
  ℕ, ◌+◌, ◌%◌, ◌^◌, ◌≢◌, refl, ap, ap₂, Bool, ◌==◌, ltb, List, [], ◌∷◌, length, fault,
  runtime_error,
}
use spdz_yao.Key.{Key}
use spdz_yao.Gc.Processor.{M, ◌>>=◌, ◌>>◌, get_complexity, put_complexity}
use spdz_yao.Gc.Plain.{plain_phase}
use spdz_yao.Gc.Instruction.{
  total_of, check_args, xors_loop, processor_xors, andrs_loop, processor_andrs, bit_at,
  bitdecc_from, bitdecint_from, jump, clear_1, clear_2, int_1, int_2, jump_if, shift_right,
}
use spdz_yao.Yao.Primitives.{Primitives}
use spdz_yao.Yao.Phases.{garble_phase, eval_phase}
use spdz_yao.Yao.Simulation.Relation.{Simulates}
use spdz_yao.Yao.Simulation.Rules.{
  Done, Same, Revealed, pure-Simulates, throw-Simulates, bind-Simulates, seq-Simulates,
  if-Simulates,
}
use spdz_yao.Yao.Simulation.Integers.{
  get_i-Simulates, put_i-Simulates, get_pc-Simulates, put_pc-Simulates, get_complexity-Simulates,
  put_complexity-Simulates,
}
use spdz_yao.Yao.Simulation.Registers.{get_c-Simulates, put_c-Simulates}
use spdz_yao.Yao.Simulation.Secrets.{xor_-Simulates, andrs-Simulates}

-- In no quadruple of an ANDRS instruction is the result one of the operands.
abbrev pub Separate : List ℕ → Type 0
Separate (n ∷ d ∷ x ∷ y ∷ args) = (d ≢ x) × (d ≢ y) × Separate args
Separate rest = Unit {0}

module _ {primitives : Primitives} {delta : Key} where
  -- Code after a number that is the same everywhere.
  pub Same-Simulates :
      {A B C : Type 0} {R : A → B → C → Type 0} {mg : M (garble_phase primitives) ℕ}
      {me : M (eval_phase primitives) ℕ} {mp : M (plain_phase primitives) ℕ}
      {fg : ℕ → M (garble_phase primitives) A} {fe : ℕ → M (eval_phase primitives) B}
      {fp : ℕ → M (plain_phase primitives) C}
      → Simulates primitives delta Same mg me mp
      → ((x : ℕ) → Simulates primitives delta R (fg x) (fe x) (fp x))
      → Simulates primitives delta R (mg >>= fg) (me >>= fe) (mp >>= fp)
  Same-Simulates first next = bind-Simulates first (λ a b c h. rw (h.0, h.1) (next c))

  pub check_args-Simulates :
      (args : List ℕ)
      → Simulates primitives delta Same (check_args args) (check_args args) (check_args args)
  unfolding check_args
  check_args-Simulates args =
      if-Simulates (length args % 4 == 0)
        (pure-Simulates (total_of args) (total_of args) (total_of args) (refl, refl))
        (throw-Simulates runtime_error)

  xors_loop-Simulates :
      (args : List ℕ)
      → Simulates primitives delta Done (xors_loop args) (xors_loop args) (xors_loop args)
  unfolding xors_loop
  xors_loop-Simulates [] = pure-Simulates tt tt tt tt
  xors_loop-Simulates (n ∷ []) = pure-Simulates tt tt tt tt
  xors_loop-Simulates (n ∷ d ∷ []) = pure-Simulates tt tt tt tt
  xors_loop-Simulates (n ∷ d ∷ x ∷ []) = pure-Simulates tt tt tt tt
  xors_loop-Simulates (n ∷ d ∷ x ∷ y ∷ args) =
      seq-Simulates (xor_-Simulates d n x y) (xors_loop-Simulates args)

  pub processor_xors-Simulates :
      (args : List ℕ)
      → Simulates primitives delta Done
          (processor_xors args)
          (processor_xors args)
          (processor_xors args)
  unfolding processor_xors
  processor_xors-Simulates args =
      Same-Simulates (check_args-Simulates args) (λ total. xors_loop-Simulates args)

  count-Simulates :
      {mg : M (garble_phase primitives) (Unit {0})} {me : M (eval_phase primitives) (Unit {0})}
      {mp : M (plain_phase primitives) (Unit {0})} (n : ℕ)
      → Simulates primitives delta Done mg me mp
      → Simulates primitives delta Done
          (get_complexity >>= λ k. put_complexity (k + n) >> mg)
          (get_complexity >>= λ k. put_complexity (k + n) >> me)
          (get_complexity >>= λ k. put_complexity (k + n) >> mp)
  count-Simulates n next =
      Same-Simulates get_complexity-Simulates
        (λ k. seq-Simulates (put_complexity-Simulates (k + n) (k + n) (k + n) (refl, refl)) next)

  andrs_loop-Simulates :
      (args : List ℕ)
      → Separate args
      → Simulates primitives delta Done (andrs_loop args) (andrs_loop args) (andrs_loop args)
  unfolding andrs_loop
  andrs_loop-Simulates [] apart = pure-Simulates tt tt tt tt
  andrs_loop-Simulates (n ∷ []) apart = pure-Simulates tt tt tt tt
  andrs_loop-Simulates (n ∷ d ∷ []) apart = pure-Simulates tt tt tt tt
  andrs_loop-Simulates (n ∷ d ∷ x ∷ []) apart = pure-Simulates tt tt tt tt
  andrs_loop-Simulates (n ∷ d ∷ x ∷ y ∷ args) (d≢x, d≢y, apart) =
      seq-Simulates (andrs-Simulates d n x y d≢x d≢y)
        (count-Simulates n (andrs_loop-Simulates args apart))

  -- `Processor::andrs`, with results apart from the operands.
  pub processor_andrs-Simulates :
      (args : List ℕ)
      → Separate args
      → Simulates primitives delta Done
          (processor_andrs args)
          (processor_andrs args)
          (processor_andrs args)
  unfolding processor_andrs
  processor_andrs-Simulates args apart =
      Same-Simulates (check_args-Simulates args) (λ total. andrs_loop-Simulates args apart)

  pub clear_1-Simulates :
      (r0 r1 : ℕ) (f : ℕ → ℕ)
      → Simulates primitives delta Done (clear_1 r0 r1 f) (clear_1 r0 r1 f) (clear_1 r0 r1 f)
  unfolding clear_1
  clear_1-Simulates r0 r1 f =
      bind-Simulates (get_c-Simulates r1) (λ a b c h. put_c-Simulates r0 (f a) (f b) (f c) (ap f h))

  pub clear_2-Simulates :
      (r0 r1 r2 : ℕ) (f : ℕ → ℕ → ℕ)
      → Simulates primitives delta Done
          (clear_2 r0 r1 r2 f)
          (clear_2 r0 r1 r2 f)
          (clear_2 r0 r1 r2 f)
  unfolding clear_2
  clear_2-Simulates r0 r1 r2 f = bind-Simulates (get_c-Simulates r1) λ a b c h.
      bind-Simulates (get_c-Simulates r2)
        λ a' b' c' h'. put_c-Simulates r0 (f a a') (f b b') (f c c') (ap₂ f h h')

  pub int_1-Simulates :
      (r0 r1 : ℕ) (f : ℕ → ℕ)
      → Simulates primitives delta Done (int_1 r0 r1 f) (int_1 r0 r1 f) (int_1 r0 r1 f)
  unfolding int_1
  int_1-Simulates r0 r1 f =
      Same-Simulates (get_i-Simulates r1) (λ a. put_i-Simulates r0 (f a) (f a) (f a) (refl, refl))

  pub int_2-Simulates :
      (r0 r1 r2 : ℕ) (f : ℕ → ℕ → ℕ)
      → Simulates primitives delta Done (int_2 r0 r1 r2 f) (int_2 r0 r1 r2 f) (int_2 r0 r1 r2 f)
  unfolding int_2
  int_2-Simulates r0 r1 r2 f = Same-Simulates (get_i-Simulates r1) λ a.
      Same-Simulates (get_i-Simulates r2)
        λ b. put_i-Simulates r0 (f a b) (f a b) (f a b) (refl, refl)

  -- Below 64 a bit of the garbler's clear value is some bit, and the evaluator's is the plain one.
  bit_at-Simulates :
      (a b c i : ℕ)
      → Revealed a b c
      → Simulates primitives delta Revealed (bit_at a i) (bit_at b i) (bit_at c i)
  unfolding bit_at
  bit_at-Simulates a b c i h =
      if-Simulates (ltb i 64)
        (pure-Simulates (shift_right a i % 2) (shift_right b i % 2) (shift_right c i % 2)
          (ap (λ x. shift_right x i % 2) h))
        (throw-Simulates fault)

  bit_at-Same : (x i : ℕ) → Simulates primitives delta Same (bit_at x i) (bit_at x i) (bit_at x i)
  unfolding bit_at
  bit_at-Same x i =
      if-Simulates (ltb i 64)
        (pure-Simulates (shift_right x i % 2) (shift_right x i % 2) (shift_right x i % 2)
          (refl, refl))
        (throw-Simulates fault)

  pub bitdecc_from-Simulates :
      (i : ℕ) (regs : List ℕ) (r0 : ℕ)
      → Simulates primitives delta Done
          (bitdecc_from i regs r0)
          (bitdecc_from i regs r0)
          (bitdecc_from i regs r0)
  unfolding bitdecc_from
  bitdecc_from-Simulates i [] r0 = pure-Simulates tt tt tt tt
  bitdecc_from-Simulates i (r ∷ regs) r0 = bind-Simulates (get_c-Simulates r0) λ a b c h.
      bind-Simulates (bit_at-Simulates a b c i h) λ a' b' c' h'.
        seq-Simulates (put_c-Simulates r a' b' c' h') (bitdecc_from-Simulates (i + 1) regs r0)

  pub bitdecint_from-Simulates :
      (i : ℕ) (regs : List ℕ) (r0 : ℕ)
      → Simulates primitives delta Done
          (bitdecint_from i regs r0)
          (bitdecint_from i regs r0)
          (bitdecint_from i regs r0)
  unfolding bitdecint_from
  bitdecint_from-Simulates i [] r0 = pure-Simulates tt tt tt tt
  bitdecint_from-Simulates i (r ∷ regs) r0 = Same-Simulates (get_i-Simulates r0) λ x.
      Same-Simulates (bit_at-Same x i) λ bit.
        seq-Simulates (put_i-Simulates r bit bit bit (refl, refl))
          (bitdecint_from-Simulates (i + 1) regs r0)

  pub jump-Simulates : (n : ℕ) → Simulates primitives delta Done (jump n) (jump n) (jump n)
  unfolding jump
  jump-Simulates n = Same-Simulates get_pc-Simulates (λ pc.
      put_pc-Simulates ((pc + n) % 2 ^ 32) ((pc + n) % 2 ^ 32) ((pc + n) % 2 ^ 32) (refl, refl))

  pub jump_if-Simulates :
      (test : Bool) (n : ℕ)
      → Simulates primitives delta Done (jump_if test n) (jump_if test n) (jump_if test n)
  unfolding jump_if
  jump_if-Simulates test n = if-Simulates test (jump-Simulates n) (pure-Simulates tt tt tt tt)
