-- ===== src/Ot/BitVector/Bits.antt =====
-- The bits of a vector of OT/BitVector.h: reads, writes and sums.
use spdz_yao.Base.{
  arith, ℕ, suc, zero, ◌+◌, ◌-◌, ◌/◌, ◌%◌, ◌^◌, ◌<◌, ◌≡◌, ◌≢◌, refl, sym, ap, ap₂, ◌∙◌, inl, inr,
  false, Bool-cases, ℕ_discrete, ◌==◌, ==_iff, ltb, lt→ltb, if◌then◌else◌, bit_xor, List, [], ◌∷◌,
  ◌++◌, length, length-set, length-append, length-take, element-get_or, get_or, get_or-append_left,
  get_or-take, set, take, drop, ok,
}
use spdz_yao.Base.Bits.Digits.{
  digit, digit-bit_or, digit-bit_and, digit-bit_xor, digit-pow, digit-mask, digit_small,
}
use spdz_yao.Ot.BitVector.{
  BitVector, get_byte, set_byte, get_bit, set_bit, int_of, with_bit, xor_bytes, resize, add,
}
use spdz_yao.Ot.BitVector.Sizes.{
  WellFormed, int_of-ok, rounds_to-ok, resize-WellFormed, read_bytes-ok, copy_bytes-ok,
  length-xor_bytes,
}

-- Bit `j` of the buffer.
unfoldable pub bit_at : ℕ → BitVector → ℕ
bit_at j v = digit (j % 8) (get_or v.bytes (j / 8) 0)

pub get_bit-bit_at :
    (j : ℕ) (v : BitVector)
    → WellFormed v
    → j < v.nbits
    → j < 2 ^ 31
    → get_bit j v ≡ ok (bit_at j v)
unfolding get_bit get_byte bit_at
get_bit-bit_at j v w h fits =
    rw
      (
        int_of-ok j fits,
        int_of-ok (j / 8) (omega arith),
        element-get_or v.bytes (j / 8) 0 (omega (arith, w.enough_bytes, w.allocated)),
      )
      refl

-- get_bit of vectors that agree on a bit, whether or not an `int` holds its place.
pub get_bit-ext :
    (j : ℕ) (u v : BitVector)
    → WellFormed u
    → WellFormed v
    → j < u.nbits
    → j < v.nbits
    → bit_at j u ≡ bit_at j v
    → get_bit j u ≡ get_bit j v
unfolding get_bit int_of
get_bit-ext j u v wu wv hu hv e = elim (Bool-cases (ltb j (2 ^ 31))) [
  | inl fits ↦
      let small : j < 2 ^ 31 = ground (arith, fits) in
      get_bit-bit_at j u wu hu small ∙ ap ok e ∙ sym (get_bit-bit_at j v wv hv small)
  | inr large ↦ rw large refl
]

digit-with_bit :
    (j k a b : ℕ)
    → j < 8
    → k < 8
    → digit j (with_bit k a b) ≡ (if j == k then (if a == 1 then 1 else 0) else digit j b)
unfolding with_bit
digit-with_bit j k a b hj hk = elim (Bool-cases (a == 1)) [
  | inl sets ↦ rw sets (digit-bit_or j b (2 ^ k) ∙ ground (arith, digit-pow j k, digit_small j b))
  | inr clears ↦
      rw clears
        (digit-bit_and j b (255 - 2 ^ k) ∙ ground (arith, digit-mask 8 j k hj hk, digit_small j b))
]

get_or-set_self : (xs : List ℕ) (i x : ℕ) → i < length xs → get_or (set xs i x) i 0 ≡ x
get_or-set_self [] i x h = elim h [ ]
get_or-set_self (y ∷ xs) zero x h = refl
get_or-set_self (y ∷ xs) (suc i) x h = get_or-set_self xs i x (omega arith)

get_or-set_ne : (xs : List ℕ) (i j x : ℕ) → i ≢ j → get_or (set xs i x) j 0 ≡ get_or xs j 0
get_or-set_ne [] i j x e = refl
get_or-set_ne (y ∷ xs) zero zero x e = absurd (e refl)
get_or-set_ne (y ∷ xs) zero (suc j) x e = refl
get_or-set_ne (y ∷ xs) (suc i) zero x e = refl
get_or-set_ne (y ∷ xs) (suc i) (suc j) x e = get_or-set_ne xs i j x (λ same. e (ap suc same))

-- set_bit of a bit of a well-formed vector, at a place that an `int` holds, returns; the bit is then 1
-- if it was set to 1 and 0 if it was set to anything else, and get_bit of any other bit does as before.
pub get_bit-set_bit :
    (v : BitVector) (i a : ℕ)
    → WellFormed v
    → i < v.nbits
    → i < 2 ^ 31
    → (v' : BitVector) × (set_bit i a v ≡ ok v')
      × WellFormed v'
      × ((j : ℕ)
          → j < v.nbits
          → get_bit j v' ≡ (if j == i then ok (if a == 1 then 1 else 0) else get_bit j v))
unfolding set_bit set_byte get_byte bit_at
get_bit-set_bit v i a w h small = (v', runs, w', read)
  where
    inside : i / 8 < length v.bytes
    inside = omega (arith, w.enough_bytes, w.allocated)

    old : ℕ
    old = get_or v.bytes (i / 8) 0

    v' : BitVector
    v' = record v { bytes = set v.bytes (i / 8) (with_bit (i % 8) a old) }

    runs : set_bit i a v ≡ ok v'
    runs =
        rw
          (
            int_of-ok i small,
            int_of-ok (i / 8) (omega arith),
            element-get_or v.bytes (i / 8) 0 inside,
            lt→ltb _ _ inside,
          )
          refl

    w' : WellFormed v'
    w' = record {
      enough_bytes = w.enough_bytes;
      allocated = omega (arith, w.allocated, length-set v.bytes (i / 8) (with_bit (i % 8) a old));
    }

    written : ℕ
    written = if a == 1 then 1 else 0

    same_place : (j : ℕ) → i / 8 ≡ j / 8 → (j % 8 == i % 8) ≡ (j == i)
    same_place j e = ground (arith, e)

    other_place : (j : ℕ) → i / 8 ≢ j / 8 → (j == i) ≡ false
    other_place j e = ground (arith, e)

    new_bit : (j : ℕ) → bit_at j v' ≡ (if j == i then written else bit_at j v)
    new_bit j = elim (ℕ_discrete (i / 8) (j / 8)) [
      | yes same ↦ rw (← same) (
          ap (digit (j % 8)) (get_or-set_self v.bytes (i / 8) (with_bit (i % 8) a old) inside)
          ∙ digit-with_bit (j % 8) (i % 8) a old (omega arith) (omega arith)
          ∙ ap (λ t. if t then written else digit (j % 8) old) (same_place j same))
      | no different ↦ rw (other_place j different) (
          ap (digit (j % 8))
            (get_or-set_ne v.bytes (i / 8) (j / 8) (with_bit (i % 8) a old) different))
    ]

    read : (j : ℕ) → j < v.nbits → get_bit j v' ≡ (if j == i then ok written else get_bit j v)
    read j hj = elim (Bool-cases (j == i)) [
      | inl same ↦
          let place : j ≡ i = (==_iff j i).0 same in
          rw same (
            get_bit-bit_at j v' w' hj (rw place small)
            ∙ ap ok (new_bit j ∙ ap (λ t. if t then written else bit_at j v) same))
      | inr other ↦ rw other (
          get_bit-ext j v' v w' w hj hj
            (new_bit j ∙ ap (λ t. if t then written else bit_at j v) other))
    ]

get_or-xor_bytes :
    (xs ys : List ℕ) (i : ℕ)
    → length xs ≡ length ys
    → i < length xs
    → get_or (xor_bytes xs ys) i 0 ≡ bit_xor (get_or xs i 0) (get_or ys i 0)
unfolding xor_bytes
get_or-xor_bytes [] ys i e h = elim h [ ]
get_or-xor_bytes (x ∷ xs) [] i e h = absurd (omega arith)
get_or-xor_bytes (x ∷ xs) (y ∷ ys) zero e h = refl
get_or-xor_bytes (x ∷ xs) (y ∷ ys) (suc i) e h =
    get_or-xor_bytes xs ys i (omega arith) (omega arith)

-- add of two well-formed vectors of one length, of fewer than 2^31 octets, into any well-formed vector
-- returns a vector of their length, and every bit at a place that an `int` holds is the sum modulo two
-- of theirs.
pub get_bit-add :
    (a b v : BitVector)
    → WellFormed a
    → WellFormed b
    → WellFormed v
    → a.nbits ≡ b.nbits
    → a.nbytes < 2 ^ 31
    → (v' : BitVector) × (add a b v ≡ ok v')
      × WellFormed v'
      × (v'.nbits ≡ a.nbits)
      × ((j : ℕ) → j < a.nbits → j < 2 ^ 31 → get_bit j v' ≡ ok ((bit_at j a + bit_at j b) % 2))
unfolding add bit_at
get_bit-add a b v wa wb wv same small = (v', runs, w', roomy.3, read)
  where
    roomy :
        (room : BitVector) × (resize a.nbits v ≡ ok room) × WellFormed room × (room.nbits ≡ a.nbits)
    roomy = resize-WellFormed a.nbits v wv (omega (arith, wa.enough_bytes))

    room : BitVector
    room = roomy.0

    wroom : WellFormed room
    wroom = roomy.2

    sizes : (room.nbytes ≡ a.nbytes) × (room.nbytes ≡ b.nbytes)
    sizes =
        let nbits : room.nbits ≡ a.nbits = roomy.3 in
        (
          omega (arith, wroom.enough_bytes, wa.enough_bytes),
          omega (arith, wroom.enough_bytes, wb.enough_bytes),
        )

    xs : List ℕ
    xs = take room.nbytes a.bytes

    ys : List ℕ
    ys = take room.nbytes b.bytes

    length-xs : length xs ≡ room.nbytes
    length-xs = omega (arith, length-take room.nbytes a.bytes, wa.allocated, sizes)

    length-ys : length ys ≡ room.nbytes
    length-ys = omega (arith, length-take room.nbytes b.bytes, wb.allocated, sizes)

    length-sum : length (xor_bytes xs ys) ≡ room.nbytes
    length-sum = length-xor_bytes xs ys (length-xs ∙ sym length-ys) ∙ length-xs

    v' : BitVector
    v' = record room { bytes = xor_bytes xs ys ++ drop (length (xor_bytes xs ys)) room.bytes }

    runs : add a b v ≡ ok v'
    runs =
        rw
          (
            (==_iff a.nbits b.nbits).1 same,
            roomy.1,
            rounds_to-ok room.nbytes (omega (arith, sizes)),
            read_bytes-ok room.nbytes a (omega (arith, wa.allocated, sizes)),
            read_bytes-ok room.nbytes b (omega (arith, wb.allocated, sizes)),
          )
          (copy_bytes-ok (xor_bytes xs ys) room (omega (arith, length-sum, wroom.allocated)))

    w' : WellFormed v'
    w' = record {
      enough_bytes = wroom.enough_bytes;
      allocated = omega (
        arith,
        length-append (xor_bytes xs ys) (drop (length (xor_bytes xs ys)) room.bytes),
        length-sum,
      );
    }

    read : (j : ℕ) → j < a.nbits → j < 2 ^ 31 → get_bit j v' ≡ ok ((bit_at j a + bit_at j b) % 2)
    read j h fits =
        let below : j / 8 < room.nbytes = omega (arith, wa.enough_bytes, sizes) in
        get_bit-bit_at j v' w' (rw roomy.3 h) fits
        ∙ ap (λ x. ok (digit (j % 8) x))
            (get_or-append_left (xor_bytes xs ys) _ (j / 8) 0 (omega (arith, length-sum))
              ∙ get_or-xor_bytes xs ys (j / 8) (length-xs ∙ sym length-ys)
                  (omega (arith, length-xs))
              ∙ ap₂ bit_xor (get_or-take room.nbytes a.bytes (j / 8) 0 below)
                  (get_or-take room.nbytes b.bytes (j / 8) 0 below))
        ∙ ap ok (digit-bit_xor (j % 8) _ _)
