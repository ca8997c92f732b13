-- ===== src/Tests/Shares.antt =====
-- Two players that share bits, for the theorems on Math/Share.h and Auth/MAC_Check.h.
use spdz_yao.Base.{ℕ, ◌≡◌, ◌↔◌, refl, arith, Bool, true, false, ◌&&◌, [], ◌∷◌, ok}
use spdz_yao.Math.Value.{Value, ◌⊗◌}
use spdz_yao.Math.Share.{Share, check_macs}
use spdz_yao.Math.Share.Opening.{check_macs_iff, shared, shared_mac}
use spdz_yao.Math.Share.Sharing.{Party, Shares, key_of}
use spdz_yao.Math.Share.Affine.{
  Affine, register, plus_constant, times_constant, share_of, value_of, share_of-Shares,
}

-- The field of two elements, as a type of values.
abbrev pub differ : Bool → Bool → Bool
differ true true = false
differ true false = true
differ false b = b

abbrev pub is_false : Bool → Bool
is_false true = false
is_false false = true

pub differ_assoc : (a b c : Bool) → differ (differ a b) c ≡ differ a (differ b c)
differ_assoc a b c = ground arith

pub differ_comm : (a b : Bool) → differ a b ≡ differ b a
differ_comm a b = ground arith

pub differ-false : (a : Bool) → differ a false ≡ a
differ-false a = ground arith

pub differ_self : (a : Bool) → differ a a ≡ false
differ_self a = ground arith

pub and_comm : (a b : Bool) → (a && b) ≡ (b && a)
and_comm a b = ground arith

pub and_assoc : (a b c : Bool) → ((a && b) && c) ≡ (a && (b && c))
and_assoc a b c = ground arith

pub and-differ : (a b c : Bool) → (a && differ b c) ≡ differ (a && b) (a && c)
and-differ a b c = ground arith

pub is_false_iff : (a : Bool) → (is_false a ≡ true) ↔ (a ≡ false)
is_false_iff a = ground arith

instance abbrev pub bits : Value Bool
bits = record {
  nil_value = false;
  plus_value = differ;
  minus_value = differ;
  times_value = ◌&&◌;
  negate_value = λ b. b;
  is_zero_value = is_false;
  plus_assoc = differ_assoc;
  plus_comm = differ_comm;
  plus_nil = differ-false;
  plus_negate = differ_self;
  minus_eq = λ a b. refl;
  times_comm = and_comm;
  times_assoc = and_assoc;
  times_plus = and-differ;
  is_zero_iff = is_false_iff;
}

-- The first player.
abbrev pub first : Bool → ℕ
first true = 0
first false = 1

abbrev pub key_share : Bool → Bool
key_share p = p

-- The players' shares of 1, and those of 0.
abbrev pub share_of_one : Bool → Share Bool
share_of_one true = record { a = true; mac = false }
share_of_one false = record { a = false; mac = true }

abbrev party : Bool → Party Bool
party p = record { my_num = first p; alphai = key_share p; registers = λ _. share_of_one p }

abbrev test_expression : Affine Bool
test_expression = plus_constant (times_constant (register 0) true) true

one_shared : (i : ℕ) → Shares (party true ∷ party false ∷ []) (λ q. q.registers i) true
unfolding key_of
one_shared i = record { value_shared = refl; mac_shared = refl }

share_of-Shares_example :
    Shares
      (party true ∷ party false ∷ [])
      (share_of test_expression)
      (value_of test_expression (λ _. true))
share_of-Shares_example =
    share_of-Shares (party true) (party false ∷ []) (refl, (refl, tt)) (λ _. true) one_shared
      test_expression

-- The MAC of the two shares fits.
check_macs_one : check_macs (share_of_one true ∷ share_of_one false ∷ []) true ≡ ok true
unfolding shared shared_mac
check_macs_one = (check_macs_iff (share_of_one true) (share_of_one false ∷ []) true).1 sums_fit
  where
    sums_fit :
        shared_mac (share_of_one true ∷ share_of_one false ∷ [])
        ≡ shared (share_of_one true ∷ share_of_one false ∷ []) ⊗ true
    sums_fit = refl
