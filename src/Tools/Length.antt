-- ===== src/Tools/Length.antt =====
-- Networking/data.h: numbers as octets, the lowest first.
use spdz_yao.Base.{
  ℕ, zero, suc, ◌+◌, ◌-◌, ◌*◌, ◌/◌, ◌%◌, ◌^◌, ◌≤◌, ◌<◌, ◌≡◌, refl, sym, ap, ap₂, ◌∙◌, Bool, false,
  not, ◌&&◌, ◌==◌, Bool-cases, inl, inr, ltb, if◌then◌else◌, List, [], ◌∷◌, length, Result, ok, err,
  invalid_length, fault, arith,
}
use mathlib.Core.Path.{subst}
use native.Mathlib.Nat.{
  pow-le-pow_right, div-eq_of_lt, lt_of_lt_of_le, add-mul, mul_assoc, div-div-eq-div-mul,
  mod-eq-sub-div-mul, mod-lt, mod-eq_of_lt, pow-suc,
}

-- `buff[i] = len >> (8 * i)` from `i` on, for `n` octets.
unfoldable pub encode_from : ℕ → ℕ → ℕ → List ℕ
encode_from zero i len = []
encode_from (suc n) i len = len / 2 ^ (8 * i) % 256 ∷ encode_from n (i + 1) len

-- `long long upper = len; upper >>= (8 * n_bytes)` is neither 0 nor -1.
unfoldable pub too_large : ℕ → ℕ → Bool
too_large len n_bytes =
    if ltb len (2 ^ 63)
    then not (len / 2 ^ (8 * n_bytes) == 0)
    else not ((2 ^ 64 - 1 - len) / 2 ^ (8 * n_bytes) == 0)

-- `encode_length`: the octets that it writes.
unfoldable pub encode_length : ℕ → ℕ → Result (List ℕ)
encode_length len n_bytes =
    if ltb 8 n_bytes
    then err invalid_length
    else if ltb n_bytes 8 && too_large len n_bytes
    then err invalid_length
    else ok (encode_from n_bytes 0 len)

unfoldable pub decode_from : ℕ → List ℕ → ℕ
decode_from i [] = 0
decode_from i (octet ∷ buff) = octet * 2 ^ (8 * i) + decode_from (i + 1) buff

-- `decode_length`, for eight octets at most: a shift by 64 is undefined.
unfoldable pub decode_length : List ℕ → Result ℕ
decode_length buff = if ltb 8 (length buff) then err fault else ok (decode_from 0 buff % 2 ^ 64)

pow-octet : (i : ℕ) → 2 ^ (8 * (i + 1)) ≡ 256 * 2 ^ (8 * i)
pow-octet i =
    let k = 8 * i in
    let e : 8 * (i + 1) ≡ suc (suc (suc (suc (suc (suc (suc (suc k))))))) = omega arith in
    rw e (
      omega (
        arith,
        pow-suc 2 k,
        pow-suc 2 (suc k),
        pow-suc 2 (suc (suc k)),
        pow-suc 2 (suc (suc (suc k))),
        pow-suc 2 (suc (suc (suc (suc k)))),
        pow-suc 2 (suc (suc (suc (suc (suc k))))),
        pow-suc 2 (suc (suc (suc (suc (suc (suc k)))))),
        pow-suc 2 (suc (suc (suc (suc (suc (suc (suc k))))))),
      ))

-- A number in units of `p` is its lowest octet and the rest, in units 256 times as large.
split_octet : (x p : ℕ) → x % 256 * p + x / 256 * (256 * p) ≡ x * p
split_octet x p =
    let e : x % 256 + x / 256 * 256 ≡ x = omega arith in
    ap (λ t. x % 256 * p + t) (sym (mul_assoc (x / 256) 256 p))
    ∙ sym (add-mul (x % 256) (x / 256 * 256) p)
    ∙ ap (λ t. t * p) e

next_octet :
    (i len : ℕ)
    → len / 2 ^ (8 * i) % 256 * 2 ^ (8 * i) + len / 2 ^ (8 * (i + 1)) * 2 ^ (8 * (i + 1))
      ≡ len / 2 ^ (8 * i) * 2 ^ (8 * i)
next_octet i len =
    let p = 2 ^ (8 * i) in
    let up : 2 ^ (8 * (i + 1)) ≡ p * 256 = omega (arith, pow-octet i) in
    let down : len / 2 ^ (8 * (i + 1)) ≡ len / p / 256 =
      ap (λ t. len / t) up ∙ sym (div-div-eq-div-mul len p 256) in
    ap₂ (λ t u. len / p % 256 * p + t * u) down (pow-octet i) ∙ split_octet (len / p) p

-- The octets and what is above them make up the number.
decode_from-encode_from :
    (n i len : ℕ)
    → decode_from i (encode_from n i len) + len / 2 ^ (8 * (i + n)) * 2 ^ (8 * (i + n))
      ≡ len / 2 ^ (8 * i) * 2 ^ (8 * i)
unfolding decode_from encode_from
decode_from-encode_from zero i len = let e : i + 0 ≡ i = omega arith in rw e (omega arith)
decode_from-encode_from (suc n) i len =
    let e : i + suc n ≡ i + 1 + n = omega arith in
    rw e (omega (arith, decode_from-encode_from n (i + 1) len, next_octet i len))

length-encode_from : (n i len : ℕ) → length (encode_from n i len) ≡ n
unfolding encode_from
length-encode_from zero i len = refl
length-encode_from (suc n) i len = ap suc (length-encode_from n (i + 1) len)

decode_from_low : (n len : ℕ) → decode_from 0 (encode_from n 0 len) ≡ len % 2 ^ (8 * n)
decode_from_low n len =
    let whole : decode_from 0 (encode_from n 0 len) + len / 2 ^ (8 * n) * 2 ^ (8 * n)
        ≡ len / 1 * 1 =
      subst
        (λ k. decode_from 0 (encode_from n 0 len) + len / 2 ^ (8 * k) * 2 ^ (8 * k) ≡ len / 1 * 1)
        (omega arith) (decode_from-encode_from n 0 len) in
    omega (arith, whole, mod-eq-sub-div-mul len (2 ^ (8 * n)))

power_pos : (n : ℕ) → 0 < 2 ^ n
power_pos zero = omega arith
power_pos (suc n) = omega (arith, power_pos n, pow-suc 2 n)

word_fits : (n : ℕ) → n ≤ 8 → 2 ^ (8 * n) ≤ 2 ^ 64
word_fits n h = pow-le-pow_right (omega arith) {j = 64} (omega arith)

encode_length-inv :
    (len n_bytes : ℕ) {buff : List ℕ}
    → encode_length len n_bytes ≡ ok buff
    → (n_bytes ≤ 8) × (encode_from n_bytes 0 len ≡ buff)
unfolding encode_length
encode_length-inv len n_bytes h = elim (Bool-cases (ltb 8 n_bytes)) [
  | inl long ↦ cc
  | inr short ↦ elim (Bool-cases (ltb n_bytes 8 && too_large len n_bytes)) [
    | inl large ↦ cc
    | inr fits ↦ (ground arith, cc)
  ]
]

-- It writes as many octets as the field has.
pub length-encode_length :
    (len n_bytes : ℕ) {buff : List ℕ} → encode_length len n_bytes ≡ ok buff → length buff ≡ n_bytes
length-encode_length len n_bytes h =
    ap length (sym (encode_length-inv len n_bytes h).1) ∙ length-encode_from n_bytes 0 len

-- What `encode_length` writes for a 64-bit number, when it does not throw, `decode_length` reads as
-- the number modulo the width of the field.
pub decode_length-encode_length :
    (len n_bytes : ℕ) (buff : List ℕ)
    → encode_length len n_bytes ≡ ok buff
    → decode_length buff ≡ ok (len % 2 ^ (8 * n_bytes))
unfolding encode_length decode_length
decode_length-encode_length len n_bytes buff h =
    let (short, written) = encode_length-inv len n_bytes h in
    let size : length buff ≡ n_bytes = ap length (sym written) ∙ length-encode_from n_bytes 0 len in
    let below : len % 2 ^ (8 * n_bytes) < 2 ^ 64 =
      lt_of_lt_of_le (mod-lt len (power_pos (8 * n_bytes))) (word_fits n_bytes short) in
    let value : decode_from 0 buff % 2 ^ 64 ≡ len % 2 ^ (8 * n_bytes) =
      ap (λ x. decode_from 0 x % 2 ^ 64) (sym written)
      ∙ ap (λ x. x % 2 ^ 64) (decode_from_low n_bytes len)
      ∙ mod-eq_of_lt below in
    let fits : ltb 8 (length buff) ≡ false = ground arith in rw (fits, value)

-- `encode_length` takes every number that fits into the field.
pub encode_length-fits :
    (len n_bytes : ℕ)
    → n_bytes ≤ 8
    → len < 2 ^ (8 * n_bytes)
    → encode_length len n_bytes ≡ ok (encode_from n_bytes 0 len)
unfolding encode_length too_large
encode_length-fits len n_bytes h fits =
    let small : n_bytes < 8 → len < 2 ^ 56 =
      λ below. lt_of_lt_of_le fits (pow-le-pow_right (omega arith) {j = 56} (omega arith)) in
    let none_above : len / 2 ^ (8 * n_bytes) ≡ 0 = div-eq_of_lt fits in ground arith
