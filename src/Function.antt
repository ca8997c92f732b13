-- ===== src/Function.antt =====
-- `class Function` of BMR/common.h: the truth table of a binary gate.
use spdz_yao.Base.{
  ℕ, ◌+◌, ◌-◌, ◌*◌, ◌%◌, ◌^◌, ◌≡◌, refl, Bool, true, false, not, ◌&&◌, ◌==◌, if◌then◌else◌, arith,
  List, [], ◌∷◌, get_or,
}

-- `bool rep[4]`.
pub record Function : Type 0 where
  pub rep : List Bool

abbrev pub bit : Bool → ℕ
bit b = if b then 1 else 0

pub shift : ℕ → ℕ
shift i = 4 * (3 - i)

-- `rep[i] = (int_rep << shift(i)) & 1`, on the 32 bits of an `int`.
rep_of_int : ℕ → ℕ → Bool
unfolding shift
rep_of_int int_rep i = int_rep * 2 ^ shift i % 2 ^ 32 % 2 == 1

-- `Function(int)`.
unfoldable pub of_int : ℕ → Function
unfolding rep_of_int
of_int int_rep = record {
  rep =
      rep_of_int int_rep 0
      ∷ rep_of_int int_rep 1
      ∷ rep_of_int int_rep 2
      ∷ rep_of_int int_rep 3
      ∷ [];
}

-- `Function(std::string&)`; a position past the end reads the closing NUL.
rep_of_text : List ℕ → ℕ → Bool
rep_of_text func i = not (get_or func i 0 == b'0')

unfoldable pub of_text : List ℕ → Function
unfolding rep_of_text
of_text func = record {
  rep = rep_of_text func 0 ∷ rep_of_text func 1 ∷ rep_of_text func 2 ∷ rep_of_text func 3 ∷ [];
}

unfoldable pub call : Function → Bool → Bool → Bool
call f left right = get_or f.rep (2 * bit left + bit right) false

-- The function of an AND gate.
abbrev pub and_function : Function
and_function = of_int 0x0001

pub call-and : (left right : Bool) → call and_function left right ≡ (left && right)
unfolding call of_int
call-and true true = refl
call-and true false = refl
call-and false true = refl
call-and false false = refl

-- The constructor from an `int` keeps the lowest bit of the number only: whatever the other
-- digits are, the gate is the conjunction or constantly false.
pub call-of_int :
    (int_rep : ℕ) (left right : Bool)
    → call (of_int int_rep) left right ≡ (left && right && (int_rep % 2 == 1))
unfolding call of_int
call-of_int int_rep true true = ground arith
call-of_int int_rep true false = ground arith
call-of_int int_rep false true = ground arith
call-of_int int_rep false false = ground arith
