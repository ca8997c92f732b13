-- ===== src/Ot/BitVector.antt =====
-- OT/BitVector.h and OT/BitVector.cpp: bits packed into octets.
pub mod Bits
pub mod Sizes
pub mod Streams
use spdz_yao.Base.{
  ℕ, zero, suc, ◌+◌, ◌-◌, ◌*◌, ◌/◌, ◌%◌, ◌^◌, ◌≤◌, ◌≡◌, Bool, true, false, not, ◌==◌, ltb,
  if◌then◌else◌, bit_xor, bit_and, List, [], ◌∷◌, ◌++◌, length, set, element, take, drop, replicate,
  Result, ok, err, ◌>>=◌, fault, invalid_length,
}
use Prim.Native.Nat.{bit_or}
use spdz_yao.Base.Bits.Digits.{digit}
use spdz_yao.Tools.OctetStream.{OctetStream, append, consume}

-- `bytes` is the whole buffer, of which `nbytes` octets are in use. The field `length` is written
-- once and never read.
pub record BitVector : Type 0 where
  pub bytes : List ℕ
  pub nbytes : ℕ
  pub nbits : ℕ

unfoldable pub div_ceil : ℕ → ℕ → ℕ
div_ceil n k = (n + k - 1) / k

-- `BitVector(n)`.
unfoldable pub new_bit_vector : ℕ → BitVector
unfolding div_ceil
new_bit_vector n = record { bytes = replicate (div_ceil n 8) 0; nbytes = div_ceil n 8; nbits = n }

-- An argument or a variable of type `int`. A number that it does not hold is a fault here.
unfoldable pub int_of : ℕ → Result ℕ
int_of n = if ltb n (2 ^ 31) then ok n else err fault

-- What new octets of a buffer are is left open in C++; here they are 0.
unfoldable pub resized : ℕ → ℕ → BitVector → BitVector
resized new_nbits new_nbytes v =
    let grown = take v.nbytes v.bytes ++ replicate (new_nbytes - v.nbytes) 0 in
    record v {
      bytes = if ltb v.nbits new_nbits then grown else v.bytes;
      nbits = new_nbits;
      nbytes = new_nbytes;
    }

unfoldable pub resize : ℕ → BitVector → Result BitVector
unfolding div_ceil int_of resized
resize new_nbits v =
    if v.nbits == new_nbits
    then ok v
    else (do new_nbytes ← int_of (div_ceil new_nbits 8); ok (resized new_nbits new_nbytes v))

-- `memcpy(bytes, xs, length xs)`.
unfoldable pub copy_bytes : List ℕ → BitVector → Result BitVector
copy_bytes xs v =
    if ltb (length v.bytes) (length xs)
    then err fault
    else ok (record v { bytes = xs ++ drop (length xs) v.bytes })

-- The first octets of a buffer, as a `memcpy` reads them.
unfoldable pub read_bytes : ℕ → BitVector → Result (List ℕ)
read_bytes n v = if ltb (length v.bytes) n then err fault else ok (take n v.bytes)

-- The rounds of a loop from 0 to a size on an `unsigned int`, which does not end, a fault here, if
-- the size is more than it holds.
unfoldable pub rounds_to : ℕ → Result ℕ
rounds_to n = if ltb n (2 ^ 32) then ok n else err fault

unfoldable pub assign : BitVector → BitVector → Result BitVector
unfolding resize read_bytes copy_bytes
assign k v = do sized ← resize k.nbits v; xs ← read_bytes sized.nbytes k; copy_bytes xs sized

-- `BitVector(K)`.
unfoldable pub copy_of : BitVector → Result BitVector
unfolding assign
copy_of k = assign k (record { bytes = replicate k.nbytes 0; nbytes = k.nbytes; nbits = k.nbits })

unfoldable pub assign_zero : BitVector → Result BitVector
unfolding copy_bytes
assign_zero v = copy_bytes (replicate v.nbytes 0) v

unfoldable pub assign_bytes : List ℕ → BitVector → Result BitVector
unfolding int_of resize copy_bytes
assign_bytes new_bytes v = do
  new_nbits ← int_of (length new_bytes * 8)
  sized ← resize new_nbits v
  copy_bytes new_bytes sized

-- `bytes[i]`.
unfoldable pub get_byte : ℕ → BitVector → Result ℕ
unfolding int_of
get_byte i v = do j ← int_of i; element v.bytes j

unfoldable pub set_byte : ℕ → ℕ → BitVector → Result BitVector
unfolding int_of
set_byte i b v = do
  j ← int_of i
  if ltb j (length v.bytes) then ok (record v { bytes = set v.bytes j b }) else err fault

unfoldable pub get_bit : ℕ → BitVector → Result ℕ
unfolding int_of get_byte
get_bit i v = do k ← int_of i; b ← get_byte (k / 8) v; ok (digit (k % 8) b)

-- The octet with its bit `k` set, if `a` is 1, and cleared otherwise.
unfoldable pub with_bit : ℕ → ℕ → ℕ → ℕ
with_bit k a b = if a == 1 then bit_or b (2 ^ k) else bit_and b (255 - 2 ^ k)

unfoldable pub set_bit : ℕ → ℕ → BitVector → Result BitVector
unfolding int_of get_byte set_byte with_bit
set_bit i a v = do k ← int_of i; b ← get_byte (k / 8) v; set_byte (k / 8) (with_bit (k % 8) a b) v

unfoldable pub xor_bytes : List ℕ → List ℕ → List ℕ
xor_bytes [] ys = []
xor_bytes (x ∷ xs) [] = []
xor_bytes (x ∷ xs) (y ∷ ys) = bit_xor x y ∷ xor_bytes xs ys

-- `add(A, B)`.
unfoldable pub add : BitVector → BitVector → BitVector → Result BitVector
unfolding xor_bytes resize rounds_to read_bytes copy_bytes
add a b v =
    if a.nbits == b.nbits
    then (do
      sized ← resize a.nbits v
      rounds ← rounds_to sized.nbytes
      xs ← read_bytes rounds a
      ys ← read_bytes rounds b
      copy_bytes (xor_bytes xs ys) sized)
    else err invalid_length

-- `add(A)`.
unfoldable pub add_to : BitVector → BitVector → Result BitVector
unfolding xor_bytes rounds_to read_bytes copy_bytes
add_to a v =
    if v.nbits == a.nbits
    then (do
      rounds ← rounds_to v.nbytes
      xs ← read_bytes rounds v
      ys ← read_bytes rounds a
      copy_bytes (xor_bytes xs ys) v)
    else err invalid_length

unfoldable pub same_bytes : List ℕ → List ℕ → Bool
same_bytes [] ys = true
same_bytes (x ∷ xs) [] = false
same_bytes (x ∷ xs) (y ∷ ys) = let rest = same_bytes xs ys in if x == y then rest else false

-- A loop that would not end does when it has found a difference.
unfoldable pub equals : BitVector → BitVector → Result Bool
unfolding same_bytes rounds_to read_bytes
equals k v =
    if v.nbits == k.nbits
    then (do
      xs ← read_bytes v.nbytes v
      ys ← read_bytes v.nbytes k
      if same_bytes (take (2 ^ 32) xs) (take (2 ^ 32) ys)
          then rounds_to v.nbytes >>= (λ rounds. ok true)
          else ok false)
    else err invalid_length

unfoldable pub pack : BitVector → OctetStream → Result OctetStream
unfolding read_bytes
pack v os = do xs ← read_bytes v.nbytes v; append xs os

unfoldable pub unpack : BitVector → OctetStream → Result (BitVector × OctetStream)
unfolding copy_bytes
unpack v os = do (xs, os') ← consume v.nbytes os; v' ← copy_bytes xs v; ok (v', os')
