-- ===== src/Tests/Vectors.antt =====
-- Vectors of bits, for the theorems on OT/BitVector.h.
use spdz_yao.Base.{arith, ℕ, ◌+◌, ◌%◌, ◌^◌, ◌<◌, ◌≡◌, refl, if◌then◌else◌, ◌==◌, [], ◌∷◌, ok}
use spdz_yao.Tools.OctetStream.{OctetStream}
use spdz_yao.Ot.BitVector.{BitVector, get_bit, set_bit, add}
use spdz_yao.Ot.BitVector.Sizes.{WellFormed}
use spdz_yao.Ot.BitVector.Bits.{bit_at, get_bit-set_bit, get_bit-add}

-- Twelve bits in two octets.
abbrev twelve : BitVector
twelve = record { bytes = 5 ∷ 9 ∷ []; nbytes = 2; nbits = 12 }

abbrev others : BitVector
others = record { bytes = 255 ∷ 1 ∷ []; nbytes = 2; nbits = 12 }

abbrev short : BitVector
short = record { bytes = 1 ∷ []; nbytes = 1; nbits = 3 }

twelve-WellFormed : WellFormed twelve
twelve-WellFormed = record { enough_bytes = refl; allocated = omega arith }

others-WellFormed : WellFormed others
others-WellFormed = record { enough_bytes = refl; allocated = omega arith }

short-WellFormed : WellFormed short
short-WellFormed = record { enough_bytes = refl; allocated = omega arith }

get_bit-set_bit_example :
    (v' : BitVector) × (set_bit 9 1 twelve ≡ ok v')
    × WellFormed v'
    × ((j : ℕ) → j < 12 → get_bit j v' ≡ (if j == 9 then ok 1 else get_bit j twelve))
get_bit-set_bit_example = get_bit-set_bit twelve 9 1 twelve-WellFormed (omega arith) (omega arith)

get_bit-add_example :
    (v' : BitVector) × (add twelve others short ≡ ok v')
    × WellFormed v'
    × (v'.nbits ≡ 12)
    × ((j : ℕ) → j < 12 → j < 2 ^ 31 → get_bit j v' ≡ ok ((bit_at j twelve + bit_at j others) % 2))
get_bit-add_example =
    get_bit-add twelve others short twelve-WellFormed others-WellFormed short-WellFormed refl
      (omega arith)
