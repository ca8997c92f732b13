-- ===== src/Key.antt =====
-- BMR/Key.h: the 128-bit wire labels, as the two 64-bit lanes of an `__m128i`.
pub mod Laws
use spdz_yao.Base.{ℕ, ◌*◌, ◌-◌, ◌%◌, ◌^◌, Bool, true, ◌&&◌, ◌==◌, if◌then◌else◌, bit_xor, bit_and}

pub record Key : Type 0 where
  pub hi : ℕ
  pub lo : ℕ

abbrev pub lane : ℕ
lane = 2 ^ 64

-- `Key(long long a)` for an `a` that is not negative.
unfoldable pub of_int : ℕ → Key
of_int a = record { hi = 0; lo = a % lane }

abbrev pub zero_key : Key
zero_key = record { hi = 0; lo = 0 }

-- `operator^`, and with it `operator+=` and `operator-=`.
infixl 60 ◌⊕◌
unfoldable pub ◌⊕◌ : Key → Key → Key
a ⊕ b = record { hi = bit_xor a.hi b.hi; lo = bit_xor a.lo b.lo }

unfoldable pub add_assign : Key → Key → Key
add_assign r other = r ⊕ other

unfoldable pub sub_assign : Key → Key → Key
sub_assign r other = r ⊕ other

-- `operator==` tests the exclusive or of the two for zero.
unfoldable pub equal : Key → Key → Bool
unfolding ◌⊕◌
equal a b = let neq = a ⊕ b in neq.hi == 0 && neq.lo == 0

unfoldable pub get_signal : Key → Bool
get_signal k = k.lo % 2 == 1

unfoldable pub set_signal : Bool → Key → Key
set_signal signal k = record {
  hi = bit_and k.hi (lane - 1);
  lo = bit_xor (bit_and k.lo (lane - 2)) (if signal then 1 else 0);
}

-- `_mm_sllv_epi64` shifts each lane by itself.
unfoldable pub doubling : ℕ → Key → Key
doubling i k = record { hi = k.hi * 2 ^ i % lane; lo = k.lo * 2 ^ i % lane }
