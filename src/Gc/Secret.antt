-- ===== src/Gc/Secret.antt =====
-- GC/Secret.cpp and GC/Secret_inline.h: secret registers, each a vector of wires. The operations
-- address the registers of the processor, so that a register may be operand and result at once.
pub mod Wires
pub mod Gates
pub mod Apart
pub mod Shift
use spdz_yao.Base.{
  ℕ, zero, suc, ◌+◌, ◌-◌, ◌*◌, ◌/◌, ◌%◌, ◌^◌, min, Bool, true, false, ◌||◌, ◌==◌, ltb,
  if◌then◌else◌, List, [], ◌∷◌, ◌++◌, length, bit_xor, Result, ok, err, out_of_range,
  processor_error, not_implemented, fault,
}
use spdz_yao.Function.{and_function}
use spdz_yao.Gc.Phase.{Phase}
use spdz_yao.Gc.Processor.{
  M, pure, throw, ◌>>=◌, ◌>>◌, lift, fetch, store, resize, times, get_s, put_s, get_reg, put_reg,
  on_party,
}

-- `abs(x) > (1LL << n)` for `n` below 64; the shift by 63 gives the least integer.
unfoldable pub too_long : ℕ → ℕ → Bool
too_long n x = if ltb n 63 then ltb (2 ^ n) (min x (2 ^ 64 - x)) else n == 63

module _ {phase : Phase} where
  open phase use {
    Wire, Party, new_reg, random, public_input, op_prepare, op_finish, xor_wires, get_output,
  }

  unfoldable pub resize_regs : ℕ → ℕ → M phase (Unit {0})
  resize_regs r n = do regs ← get_s r; put_s r (resize n new_reg regs)

  -- `XOR<T>(S[d][i], S[x][j], S[y][k])`.
  unfoldable pub xor_reg : ℕ → ℕ → ℕ → ℕ → ℕ → ℕ → M phase (Unit {0})
  xor_reg d i x j y k = do
    left ← get_reg x j
    right ← get_reg y k
    put_reg d i (xor_wires left right)

  -- `AND<T>(S[d][i], S[x][j], S[y][k])`. The operands are read after `op` has written `*this`.
  unfoldable pub and_reg : ℕ → ℕ → ℕ → ℕ → ℕ → ℕ → M phase (Unit {0})
  and_reg d i x j y k = do
    this ← get_reg d i
    this' ← on_party (λ party. ok (op_prepare this party))
    put_reg d i this'
    left ← get_reg x j
    right ← get_reg y k
    res ← on_party (op_finish this' left right and_function)
    put_reg d i res

  -- `S[d].xor_(n, S[x], S[y])`.
  unfoldable pub xor_ : ℕ → ℕ → ℕ → ℕ → M phase (Unit {0})
  xor_ d n x y = do resize_regs d n; times n 0 (λ i. xor_reg d i x i y i)

  -- `S[d].andrs(n, S[x], S[y])`.
  unfoldable pub andrs : ℕ → ℕ → ℕ → ℕ → M phase (Unit {0})
  andrs d n x y = do resize_regs d n; times n 0 (λ i. and_reg d i x i y 0)

  unfoldable pub load_reg : ℕ → ℕ → ℕ → M phase (Unit {0})
  load_reg r x i = do w ← get_reg r i; put_reg r i (public_input (x / 2 ^ i % 2 == 1) w)

  -- `S[r].load(n, x)`. A shift by 64 or more is undefined.
  unfoldable pub load : ℕ → ℕ → ℕ → M phase (Unit {0})
  unfolding too_long
  load r n x = if too_long n x then throw out_of_range else if ltb 64 n then throw fault else body
    where
      body : M phase (Unit {0})
      body = do resize_regs r n; times n 0 (load_reg r x)

  unfoldable pub random_reg : ℕ → ℕ → M phase (Unit {0})
  random_reg r i = do w ← get_reg r i; w' ← on_party (λ party. ok (random w party)); put_reg r i w'

  -- `S[r].random(n_bits, share)` without private inputs.
  unfoldable pub random_bits : ℕ → ℕ → M phase (Unit {0})
  random_bits r n_bits = if ltb 128 n_bits then throw not_implemented else body
    where
      body : M phase (Unit {0})
      body = do resize_regs r n_bits; times n_bits 0 (random_reg r)

  -- `S[d].bitcom(S, regs)`, after its first line: one register of one bit after the other.
  unfoldable pub push_bits : ℕ → List ℕ → M phase (Unit {0})
  push_bits d [] = pure tt
  push_bits d (r ∷ regs) = do
    bits ← get_s r
    one ← if length bits == 1 then lift (fetch bits 0) else throw processor_error
    own ← get_s d
    put_s d (own ++ one ∷ [])
    push_bits d regs

  unfoldable pub bitcom : ℕ → List ℕ → M phase (Unit {0})
  bitcom d regs = do put_s d []; push_bits d regs

  -- `S[x].bitdec(S, regs)`, from bit `i` on.
  unfoldable pub split_bits : ℕ → ℕ → List ℕ → M phase (Unit {0})
  split_bits x i [] = pure tt
  split_bits x i (r ∷ regs) = do
    put_s r []
    w ← get_reg x i
    put_s r (w ∷ [])
    split_bits x (i + 1) regs

  unfoldable pub bitdec : ℕ → List ℕ → M phase (Unit {0})
  bitdec x regs = do
    own ← get_s x
    if ltb (length own) (length regs) then throw out_of_range else split_bits x 0 regs

  -- The loop of `reveal`, from bit `i` on, for a 64-bit result.
  unfoldable pub reveal_from : ℕ → ℕ → ℕ → ℕ → M phase ℕ
  reveal_from zero r i x = pure x
  reveal_from (suc n) r i x = do
    w ← get_reg r i
    out ← on_party (get_output w)
    reveal_from n r (i + 1) (bit_xor x (out * 2 ^ i % 2 ^ 64))

  -- `S[r].reveal(x)`.
  unfoldable pub reveal : ℕ → M phase ℕ
  reveal r = do regs ← get_s r; reveal_from (min 64 (length regs)) r 0 0
