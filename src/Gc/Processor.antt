-- ===== src/Gc/Processor.antt =====
-- GC/Processor.h, GC/Machine.h and GC/Memory.h: the registers and memories of the machine, and
-- access to them. A register that does not exist is not checked for in C++: `fault`.
use spdz_yao.Base.{
  ℕ, zero, suc, ◌+◌, Bool, if◌then◌else◌, List, [], ◌∷◌, ◌++◌, Option, none, some, get_elem?,
  length, Result, ok, err, Error, fault,
}
use spdz_yao.Base
use spdz_yao.Gc.Phase.{Phase}

-- A write into a vector, at an index that it has.
abbrev pub store {ℓ} : {A : Type ℓ} → List A → ℕ → A → Result (List A)
store [] i v = err fault
store (x ∷ xs) zero v = ok (v ∷ xs)
store (x ∷ xs) (suc i) v = Base.◌>>=◌ (store xs i v) (λ ys. ok (x ∷ ys))

abbrev pub fetch {ℓ} : {A : Type ℓ} → List A → ℕ → Result A
fetch [] i = err fault
fetch (x ∷ xs) zero = ok x
fetch (x ∷ xs) (suc i) = fetch xs i

-- The wire `i` of register `r`, and an assignment to it.
unfoldable pub fetch_reg {ℓ} : {A : Type ℓ} → List (List A) → ℕ → ℕ → Result A
fetch_reg s r i = Base.◌>>=◌ (fetch s r) (λ regs. fetch regs i)

unfoldable pub store_reg {ℓ} : {A : Type ℓ} → List (List A) → ℕ → ℕ → A → Result (List (List A))
store_reg s r i w =
    Base.◌>>=◌ (fetch s r) (λ regs. Base.◌>>=◌ (store regs i w) (λ regs'. store s r regs'))

-- `vector::resize(n, value)`.
abbrev pub resize {ℓ} : {A : Type ℓ} → ℕ → A → List A → List A
resize zero value xs = []
resize (suc n) value [] = value ∷ resize n value []
resize (suc n) value (x ∷ xs) = x ∷ resize n value xs

-- What is written to `T::out`: the content of a clear register, whole or in the bits given first, a
-- character, an integer, and the four bytes of a string with the value of a register before them.
pub data Printed : Type 0 where
  plain_reg : ℕ → Printed
  signed_reg : ℕ → ℕ → Printed
  chr : ℕ → Printed
  int : ℕ → Printed
  reg : ℕ → ℕ → ℕ → Printed

module _ (phase : Phase) where
  open phase use {Wire, Party}

  -- S, C and I are the registers; MS, MC and MI the memories of the machine. A clear register or
  -- an integer is its 64-bit pattern.
  pub record Processor : Type 0 where
    pub s : List (List Wire)
    pub c : List ℕ
    pub i : List ℕ
    pub ms : List (List Wire)
    pub mc : List ℕ
    pub mi : List ℕ
    pub pc : ℕ
    pub complexity : ℕ
    pub out : List Printed
    pub party : Party

  -- Code that runs on the processor, with a result or an error.
  abbrev pub M : Type 0 → Type 0
  M A = Processor → Result (A × Processor)

module _ {phase : Phase} where
  unfoldable pub pure : {A : Type 0} → A → M phase A
  pure a proc = ok (a, proc)

  unfoldable pub throw : {A : Type 0} → Error → M phase A
  throw e proc = err e

  infixl 5 ◌>>=◌ ◌>>◌
  unfoldable pub ◌>>=◌ : {A B : Type 0} → M phase A → (A → M phase B) → M phase B
  ◌>>=◌ m f proc = Base.◌>>=◌ (m proc) (λ r. f r.0 r.1)

  abbrev pub ◌>>◌ : {B : Type 0} → M phase (Unit {0}) → M phase B → M phase B
  m >> k = m >>= λ _. k

  unfoldable pub lift : {A : Type 0} → Result A → M phase A
  lift r proc = Base.◌>>=◌ r (λ a. ok (a, proc))

  -- `for (i = first; i < first + n; i++) body(i)`.
  unfoldable pub times : ℕ → ℕ → (ℕ → M phase (Unit {0})) → M phase (Unit {0})
  times zero first body = pure tt
  times (suc n) first body = body first >> times n (first + 1) body

module _ {phase : Phase} where
  open phase use {Wire, Party}

  -- `S[r]`, `C[r]` and `I[r]`, and the machine's `MS[a]`, `MC[a]` and `MI[a]`.
  unfoldable pub get_s : ℕ → M phase (List Wire)
  get_s r proc = Base.◌>>=◌ (fetch proc.s r) (λ x. ok (x, proc))

  unfoldable pub put_s : ℕ → List Wire → M phase (Unit {0})
  put_s r regs proc = Base.◌>>=◌ (store proc.s r regs) (λ s. ok (tt, record proc { s = s }))

  -- `get_reg(i)` of S[r].
  unfoldable pub get_reg : ℕ → ℕ → M phase Wire
  get_reg r i proc = Base.◌>>=◌ (fetch_reg proc.s r i) (λ w. ok (w, proc))

  unfoldable pub put_reg : ℕ → ℕ → Wire → M phase (Unit {0})
  put_reg r i w proc = Base.◌>>=◌ (store_reg proc.s r i w) (λ s. ok (tt, record proc { s = s }))

  unfoldable pub get_ms : ℕ → M phase (List Wire)
  get_ms a proc = Base.◌>>=◌ (fetch proc.ms a) (λ x. ok (x, proc))

  unfoldable pub put_ms : ℕ → List Wire → M phase (Unit {0})
  put_ms a regs proc = Base.◌>>=◌ (store proc.ms a regs) (λ ms. ok (tt, record proc { ms = ms }))

  unfoldable pub get_c : ℕ → M phase ℕ
  get_c r proc = Base.◌>>=◌ (fetch proc.c r) (λ x. ok (x, proc))

  unfoldable pub put_c : ℕ → ℕ → M phase (Unit {0})
  put_c r x proc = Base.◌>>=◌ (store proc.c r x) (λ c. ok (tt, record proc { c = c }))

  unfoldable pub get_mc : ℕ → M phase ℕ
  get_mc a proc = Base.◌>>=◌ (fetch proc.mc a) (λ x. ok (x, proc))

  unfoldable pub put_mc : ℕ → ℕ → M phase (Unit {0})
  put_mc a x proc = Base.◌>>=◌ (store proc.mc a x) (λ mc. ok (tt, record proc { mc = mc }))

  unfoldable pub get_i : ℕ → M phase ℕ
  get_i r proc = Base.◌>>=◌ (fetch proc.i r) (λ x. ok (x, proc))

  unfoldable pub put_i : ℕ → ℕ → M phase (Unit {0})
  put_i r x proc = Base.◌>>=◌ (store proc.i r x) (λ i. ok (tt, record proc { i = i }))

  unfoldable pub get_mi : ℕ → M phase ℕ
  get_mi a proc = Base.◌>>=◌ (fetch proc.mi a) (λ x. ok (x, proc))

  unfoldable pub put_mi : ℕ → ℕ → M phase (Unit {0})
  put_mi a x proc = Base.◌>>=◌ (store proc.mi a x) (λ mi. ok (tt, record proc { mi = mi }))

  unfoldable pub get_pc : M phase ℕ
  get_pc proc = ok (proc.pc, proc)

  unfoldable pub put_pc : ℕ → M phase (Unit {0})
  put_pc pc proc = ok (tt, record proc { pc = pc })

  unfoldable pub get_complexity : M phase ℕ
  get_complexity proc = ok (proc.complexity, proc)

  unfoldable pub put_complexity : ℕ → M phase (Unit {0})
  put_complexity n proc = ok (tt, record proc { complexity = n })

  -- `T::out << value`.
  unfoldable pub print : Printed → M phase (Unit {0})
  print value proc =
      ok (tt, if phase.prints then record proc { out = proc.out ++ value ∷ [] } else proc)

  -- What a wire operation does to the party.
  unfoldable pub on_party : {A : Type 0} → (Party → Result (A × Party)) → M phase A
  on_party f proc = Base.◌>>=◌ (f proc.party) (λ r. ok (r.0, record proc { party = r.1 }))
