-- ===== src/Gc/Instruction.antt =====
-- GC/instructions.h, GC/Processor.cpp and the arithmetic of Math/Integer.h: what each instruction
-- of a boolean program does.
use spdz_yao.Base.{
  ℕ, ◌+◌, ◌-◌, ◌*◌, ◌/◌, ◌%◌, ◌^◌, Bool, not, ◌==◌, ltb, if◌then◌else◌, List, [], ◌∷◌, length,
  bit_xor, runtime_error, fault,
}
use spdz_yao.Function.{bit}
use spdz_yao.Gc.Phase.{Phase}
use spdz_yao.Gc.Processor.{
  M, pure, throw, ◌>>=◌, ◌>>◌, plain_reg, signed_reg, chr, int, reg, print, get_s, put_s, get_ms,
  put_ms, get_c, put_c, get_mc, put_mc, get_i, put_i, get_mi, put_mi, get_pc, put_pc,
  get_complexity, put_complexity,
}
use spdz_yao.Gc.Secret.{xor_, andrs, load, random_bits, bitcom, bitdec, reveal}

-- `n` and `get_r(..)` are the operands; the vectors are `get_start()`. An immediate is a 32-bit
-- `unsigned`.
pub data Instruction : Type 0 where
  xors andrs_ : List ℕ → Instruction
  xorc : (r0 r1 r2 : ℕ) → Instruction
  xorci addci mulci shrci : (r0 r1 n : ℕ) → Instruction
  addc : (r0 r1 r2 : ℕ) → Instruction
  bitdecs bitcoms bitdecc bitdecint : (r0 : ℕ) → List ℕ → Instruction
  ldbits : (r0 r1 n : ℕ) → Instruction
  ldms stms ldmc stmc ldmint stmint ldint : (r0 n : ℕ) → Instruction
  ldmsi stmsi ldminti stminti movs movint : (r0 r1 : ℕ) → Instruction
  convsint : (n r0 r1 : ℕ) → Instruction
  convcint reveals eqzc ltzc : (r0 r1 : ℕ) → Instruction
  random_bit : (r0 : ℕ) → Instruction
  printreg : (r0 n : ℕ) → Instruction
  printregplain printint : (r0 : ℕ) → Instruction
  printregsigned : (n r0 : ℕ) → Instruction
  printchr : (n : ℕ) → Instruction
  addint subint mulint ltc gtc eqc : (r0 r1 r2 : ℕ) → Instruction
  jmp : (n : ℕ) → Instruction
  jmpnz jmpeqz : (r0 n : ℕ) → Instruction
  jmpi : (r0 : ℕ) → Instruction

-- The arithmetic of `long` on 64-bit patterns.
abbrev pub word_mod : ℕ
word_mod = 2 ^ 64

unfoldable pub add_word : ℕ → ℕ → ℕ
add_word a b = (a + b) % word_mod

unfoldable pub sub_word : ℕ → ℕ → ℕ
sub_word a b = (a + word_mod - b) % word_mod

unfoldable pub mul_word : ℕ → ℕ → ℕ
mul_word a b = a * b % word_mod

-- The order of two's complement: moving both by 2^63 makes it that of the patterns.
unfoldable pub less_word : ℕ → ℕ → Bool
less_word a b = ltb ((a + 2 ^ 63) % word_mod) ((b + 2 ^ 63) % word_mod)

-- `a >> n` keeps the sign.
unfoldable pub shift_right : ℕ → ℕ → ℕ
shift_right a n = if ltb a (2 ^ 63) then a / 2 ^ n else word_mod - 1 - (word_mod - 1 - a) / 2 ^ n

-- `int(N)` as a `long`.
unfoldable pub sign_extend : ℕ → ℕ
sign_extend n = if ltb n (2 ^ 31) then n else n + word_mod - 2 ^ 32

-- The sum of the first ones of the quadruples of arguments.
unfoldable pub total_of : List ℕ → ℕ
total_of (n ∷ d ∷ x ∷ y ∷ args) = n + total_of args
total_of rest = 0

module _ {phase : Phase} where
  -- `Processor::check_args(args, 4)`.
  unfoldable pub check_args : List ℕ → M phase ℕ
  check_args args = if length args % 4 == 0 then pure (total_of args) else throw runtime_error

  unfoldable pub xors_loop : List ℕ → M phase (Unit {0})
  xors_loop (n ∷ d ∷ x ∷ y ∷ args) = do xor_ d n x y; xors_loop args
  xors_loop rest = pure tt

  -- `Processor::xors`, where exclusive or is free.
  unfoldable pub processor_xors : List ℕ → M phase (Unit {0})
  processor_xors args = do total ← check_args args; xors_loop args

  unfoldable pub andrs_loop : List ℕ → M phase (Unit {0})
  andrs_loop (n ∷ d ∷ x ∷ y ∷ args) = do
    andrs d n x y
    complexity ← get_complexity
    put_complexity (complexity + n)
    andrs_loop args
  andrs_loop rest = pure tt

  -- `Processor::andrs`.
  unfoldable pub processor_andrs : List ℕ → M phase (Unit {0})
  processor_andrs args = do total ← check_args args; andrs_loop args

  -- `(x >> i) & 1`, undefined from 64 bits on.
  unfoldable pub bit_at : ℕ → ℕ → M phase ℕ
  bit_at x i = if ltb i 64 then pure (shift_right x i % 2) else throw fault

  -- `Processor::bitdecc` and `Processor::bitdecint`, from bit `i` on. The argument is a reference
  -- to a register, which is read anew for each bit.
  unfoldable pub bitdecc_from : ℕ → List ℕ → ℕ → M phase (Unit {0})
  bitdecc_from i [] r0 = pure tt
  bitdecc_from i (r ∷ regs) r0 = do
    x ← get_c r0
    bit ← bit_at x i
    put_c r bit
    bitdecc_from (i + 1) regs r0

  unfoldable pub bitdecint_from : ℕ → List ℕ → ℕ → M phase (Unit {0})
  bitdecint_from i [] r0 = pure tt
  bitdecint_from i (r ∷ regs) r0 = do
    x ← get_i r0
    bit ← bit_at x i
    put_i r bit
    bitdecint_from (i + 1) regs r0

  -- `P.PC += n`, on an `unsigned int`.
  unfoldable pub jump : ℕ → M phase (Unit {0})
  jump n = do pc ← get_pc; put_pc ((pc + n) % 2 ^ 32)

  -- An assignment to a clear register from one or two others, and the same of the integers.
  unfoldable pub clear_2 : ℕ → ℕ → ℕ → (ℕ → ℕ → ℕ) → M phase (Unit {0})
  clear_2 r0 r1 r2 f = do a ← get_c r1; b ← get_c r2; put_c r0 (f a b)

  unfoldable pub clear_1 : ℕ → ℕ → (ℕ → ℕ) → M phase (Unit {0})
  clear_1 r0 r1 f = do a ← get_c r1; put_c r0 (f a)

  unfoldable pub int_2 : ℕ → ℕ → ℕ → (ℕ → ℕ → ℕ) → M phase (Unit {0})
  int_2 r0 r1 r2 f = do a ← get_i r1; b ← get_i r2; put_i r0 (f a b)

  unfoldable pub int_1 : ℕ → ℕ → (ℕ → ℕ) → M phase (Unit {0})
  int_1 r0 r1 f = do a ← get_i r1; put_i r0 (f a)

  -- `if (I0 ...) P.PC += N`.
  unfoldable pub jump_if : Bool → ℕ → M phase (Unit {0})
  jump_if test n = if test then jump n else pure tt

  -- `Instruction::execute`; `t_andrs` is `T::andrs`.
  unfoldable pub execute : (List ℕ → M phase (Unit {0})) → Instruction → M phase (Unit {0})
  execute t_andrs (xors args) = processor_xors args
  execute t_andrs (andrs_ args) = t_andrs args
  execute t_andrs (xorc r0 r1 r2) = clear_2 r0 r1 r2 bit_xor
  execute t_andrs (xorci r0 r1 n) = clear_1 r0 r1 (λ a. bit_xor a n)
  execute t_andrs (addc r0 r1 r2) = clear_2 r0 r1 r2 add_word
  execute t_andrs (addci r0 r1 n) = clear_1 r0 r1 (λ a. add_word a n)
  execute t_andrs (mulci r0 r1 n) = clear_1 r0 r1 (λ a. mul_word a n)
  execute t_andrs (shrci r0 r1 n) =
      if ltb n 64 then clear_1 r0 r1 (λ a. shift_right a n) else throw fault
  execute t_andrs (bitdecs r0 regs) = bitdec r0 regs
  execute t_andrs (bitcoms r0 regs) = bitcom r0 regs
  execute t_andrs (bitdecc r0 regs) = bitdecc_from 0 regs r0
  execute t_andrs (bitdecint r0 regs) = bitdecint_from 0 regs r0
  execute t_andrs (ldbits r0 r1 n) = load r0 r1 n
  execute t_andrs (ldms r0 n) = get_ms n >>= put_s r0
  execute t_andrs (stms r0 n) = get_s r0 >>= put_ms n
  execute t_andrs (ldmsi r0 r1) = do a ← get_i r1; get_ms a >>= put_s r0
  execute t_andrs (stmsi r0 r1) = do a ← get_i r1; get_s r0 >>= put_ms a
  execute t_andrs (ldmc r0 n) = get_mc n >>= put_c r0
  execute t_andrs (stmc r0 n) = get_c r0 >>= put_mc n
  execute t_andrs (convsint n r0 r1) = get_i r1 >>= load r0 n
  execute t_andrs (convcint r0 r1) = get_i r1 >>= put_c r0
  execute t_andrs (movs r0 r1) = get_s r1 >>= put_s r0
  execute t_andrs (random_bit r0) = random_bits r0 1
  execute t_andrs (reveals r0 r1) = reveal r1 >>= put_c r0
  execute t_andrs (printreg r0 n) = get_c r0 >>= λ x. print (reg r0 n x)
  execute t_andrs (printregplain r0) = get_c r0 >>= λ x. print (plain_reg x)
  execute t_andrs (printregsigned n r0) = get_c r0 >>= λ x. print (signed_reg n x)
  execute t_andrs (printchr n) = print (chr n)
  execute t_andrs (printint r0) = get_i r0 >>= λ x. print (int x)
  execute t_andrs (ldint r0 n) = put_i r0 (sign_extend n)
  execute t_andrs (addint r0 r1 r2) = int_2 r0 r1 r2 add_word
  execute t_andrs (subint r0 r1 r2) = int_2 r0 r1 r2 sub_word
  execute t_andrs (mulint r0 r1 r2) = int_2 r0 r1 r2 mul_word
  execute t_andrs (movint r0 r1) = int_1 r0 r1 (λ a. a)
  execute t_andrs (eqzc r0 r1) = int_1 r0 r1 (λ a. bit (a == 0))
  execute t_andrs (ltzc r0 r1) = int_1 r0 r1 (λ a. bit (less_word a 0))
  execute t_andrs (ltc r0 r1 r2) = int_2 r0 r1 r2 (λ a b. bit (less_word a b))
  execute t_andrs (gtc r0 r1 r2) = int_2 r0 r1 r2 (λ a b. bit (less_word b a))
  execute t_andrs (eqc r0 r1 r2) = int_2 r0 r1 r2 (λ a b. bit (a == b))
  execute t_andrs (ldmint r0 n) = get_mi n >>= put_i r0
  execute t_andrs (stmint r0 n) = get_i r0 >>= put_mi n
  execute t_andrs (ldminti r0 r1) = do a ← get_i r1; get_mi a >>= put_i r0
  execute t_andrs (stminti r0 r1) = do a ← get_i r1; get_i r0 >>= put_mi a
  execute t_andrs (jmp n) = jump n
  execute t_andrs (jmpnz r0 n) = get_i r0 >>= λ x. jump_if (not (x == 0)) n
  execute t_andrs (jmpeqz r0 n) = get_i r0 >>= λ x. jump_if (x == 0) n
  execute t_andrs (jmpi r0) = get_i r0 >>= jump
