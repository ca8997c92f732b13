-- ===== src/Ot/BitVector/Sizes.antt =====
-- The sizes of a vector of OT/BitVector.h: the buffer has an octet for every eight bits.
use spdz_yao.Base.{
  arith, ℕ, suc, ◌+◌, ◌-◌, ◌/◌, ◌^◌, ◌≤◌, ◌<◌, ◌≡◌, refl, ap, inl, inr, Bool, true, false,
  Bool-cases, ◌==◌, ==_iff, ltb, lt→ltb, if◌then◌else◌, List, [], ◌∷◌, ◌++◌, length, length-append,
  length-take, length-replicate, take, drop, replicate, ok,
}
use spdz_yao.Ot.BitVector.{
  BitVector, div_ceil, int_of, rounds_to, new_bit_vector, resized, resize, read_bytes, copy_bytes,
  xor_bytes,
}

pub record WellFormed (v : BitVector) : Type 0 where
  pub enough_bytes : v.nbytes ≡ (v.nbits + 7) / 8
  pub allocated : v.nbytes ≤ length v.bytes

pub new_bit_vector-WellFormed : (n : ℕ) → WellFormed (new_bit_vector n)
unfolding new_bit_vector div_ceil
new_bit_vector-WellFormed n = record {
  enough_bytes = omega arith;
  allocated = omega (arith, length-replicate {A = ℕ} ((n + 8 - 1) / 8) 0);
}

resized-WellFormed :
    (n : ℕ) (v : BitVector) → WellFormed v → WellFormed (resized n (div_ceil n 8) v)
unfolding resized div_ceil
resized-WellFormed n v w = record {
  enough_bytes = omega arith;
  allocated = fits (ltb v.nbits n) refl;
}
  where
    grown : List ℕ
    grown = take v.nbytes v.bytes ++ replicate ((n + 8 - 1) / 8 - v.nbytes) 0

    fits :
        (grows : Bool)
        → ltb v.nbits n ≡ grows
        → (n + 8 - 1) / 8 ≤ length (if grows then grown else v.bytes)
    fits true e = omega (
      arith,
      length-append (take v.nbytes v.bytes) (replicate ((n + 8 - 1) / 8 - v.nbytes) 0),
      length-take v.nbytes v.bytes,
      length-replicate {A = ℕ} ((n + 8 - 1) / 8 - v.nbytes) 0,
      w.allocated,
    )
    fits false e =
        let smaller : n ≤ v.nbits = ground (arith, e) in omega (arith, w.allocated, w.enough_bytes)

resized-nbits : (n : ℕ) (v : BitVector) → (resized n (div_ceil n 8) v).nbits ≡ n
unfolding resized
resized-nbits n v = refl

pub int_of-ok : (n : ℕ) → n < 2 ^ 31 → int_of n ≡ ok n
unfolding int_of
int_of-ok n h = rw (lt→ltb n _ h) refl

pub rounds_to-ok : (n : ℕ) → n < 2 ^ 32 → rounds_to n ≡ ok n
unfolding rounds_to
rounds_to-ok n h = rw (lt→ltb n _ h) refl

-- A vector takes any number of bits of which an `int` holds the number of octets.
pub resize-WellFormed :
    (n : ℕ) (v : BitVector)
    → WellFormed v
    → (n + 7) / 8 < 2 ^ 31
    → (v' : BitVector) × (resize n v ≡ ok v') × WellFormed v' × (v'.nbits ≡ n)
unfolding resize div_ceil
resize-WellFormed n v w h = elim (Bool-cases (v.nbits == n)) [
  | inl same ↦ (v, rw same refl, w, (==_iff v.nbits n).0 same)
  | inr other ↦ (
    resized n (div_ceil n 8) v,
    rw (other, int_of-ok ((n + 8 - 1) / 8) (omega arith)) refl,
    resized-WellFormed n v w,
    resized-nbits n v,
  )
]

-- Within the buffer, a read and a copy have no fault.
pub read_bytes-ok :
    (n : ℕ) (v : BitVector) → n ≤ length v.bytes → read_bytes n v ≡ ok (take n v.bytes)
unfolding read_bytes
read_bytes-ok n v h = let inside : ltb (length v.bytes) n ≡ false = ground arith in rw inside refl

pub copy_bytes-ok :
    (xs : List ℕ) (v : BitVector)
    → length xs ≤ length v.bytes
    → copy_bytes xs v ≡ ok (record v { bytes = xs ++ drop (length xs) v.bytes })
unfolding copy_bytes
copy_bytes-ok xs v h =
    let inside : ltb (length v.bytes) (length xs) ≡ false = ground arith in rw inside refl

pub length-xor_bytes :
    (xs ys : List ℕ) → length xs ≡ length ys → length (xor_bytes xs ys) ≡ length xs
unfolding xor_bytes
length-xor_bytes [] ys e = refl
length-xor_bytes (x ∷ xs) [] e = absurd (omega arith)
length-xor_bytes (x ∷ xs) (y ∷ ys) e = ap suc (length-xor_bytes xs ys (omega arith))
