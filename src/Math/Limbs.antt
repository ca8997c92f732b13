-- ===== src/Math/Limbs.antt =====
-- The arrays of limbs of Math/Zp_Data.h and Math/modp.h: numbers of `t` digits in the base of a
-- 64-bit `mp_limb_t`, the lowest first.
use spdz_yao.Base.{
  ◌≡◌, refl, ap, ap₂, ◌∙◌, ℕ, zero, suc, ◌+◌, ◌*◌, ◌^◌, ◌≤◌, ◌<◌, List, [], ◌∷◌, ◌++◌, length,
  get_or, replicate, take, arith,
}
use native.Mathlib.Nat.{pow-suc}

-- 2 ^ (8 * sizeof(mp_limb_t)).
abbrev pub limb_base : ℕ
limb_base = 18446744073709551616

-- The number that an array stands for.
unfoldable pub value : List ℕ → ℕ
value [] = 0
value (x ∷ xs) = x + limb_base * value xs

-- An array of `t` limbs.
pub data Limbs : ℕ → List ℕ → Type 0 where
  empty : Limbs 0 []
  limb : {t x : ℕ} {xs : List ℕ} → x < limb_base → Limbs t xs → Limbs (suc t) (x ∷ xs)

-- What one limb and the `t` limbs below it can hold.
unfoldable pub radix : ℕ → ℕ
radix t = limb_base ^ t

pub radix-suc : (t : ℕ) → radix (suc t) ≡ limb_base * radix t
unfolding radix
radix-suc t = omega (arith, pow-suc limb_base t)

pub radix_pos : (t : ℕ) → 0 < radix t
radix_pos zero = unfold radix in omega arith
radix_pos (suc t) = omega (arith, radix-suc t, radix_pos t)

pub value-lt : {t : ℕ} {xs : List ℕ} → Limbs t xs → value xs < radix t
unfolding value
value-lt empty = radix_pos 0
value-lt (limb {t = t} h l) = omega (arith, radix-suc t, value-lt l, h)

pub radix-zero : radix 0 ≡ 1
unfolding radix
radix-zero = refl

pub radix_one : radix 1 ≡ limb_base
unfolding radix
radix_one = refl

pub radix_mono : (s t : ℕ) → s ≤ t → radix s ≤ radix t
radix_mono zero t h = omega (arith, radix_pos t, radix-zero)
radix_mono (suc s) zero h = elim h [ ]
radix_mono (suc s) (suc t) h = omega (arith, radix-suc s, radix-suc t, radix_mono s t (omega arith))

pub length-Limbs : {t : ℕ} {xs : List ℕ} → Limbs t xs → length xs ≡ t
length-Limbs empty = refl
length-Limbs (limb h l) = ap suc (length-Limbs l)

-- Arrays of one length are equal if their numbers are.
pub value-injective :
    {t : ℕ} {xs ys : List ℕ} → Limbs t xs → Limbs t ys → value xs ≡ value ys → xs ≡ ys
unfolding value
value-injective empty empty e = refl
value-injective (limb h l) (limb k m) e =
    ap₂ ◌∷◌ (omega (arith, h, k, e)) (value-injective l m (omega (arith, h, k, e)))

pub value-append : (xs ys : List ℕ) → value (xs ++ ys) ≡ value xs + radix (length xs) * value ys
unfolding value
value-append [] ys = unfold radix in omega arith
value-append (x ∷ xs) ys = rw (radix-suc (length xs), value-append xs ys) (omega arith)

pub Limbs-take : {t n : ℕ} {xs : List ℕ} → Limbs t xs → n ≤ t → Limbs n (take n xs)
Limbs-take {n = zero} l h = empty
Limbs-take {n = suc n} empty h = elim h [ ]
Limbs-take {n = suc n} (limb k l) h = limb k (Limbs-take l (omega arith))

-- One limb more, at the top.
pub Limbs-snoc : {t c : ℕ} {xs : List ℕ} → Limbs t xs → c < limb_base → Limbs (suc t) (xs ++ c ∷ [])
Limbs-snoc empty h = limb h empty
Limbs-snoc (limb k l) h = limb k (Limbs-snoc l h)

pub value-snoc :
    {t : ℕ} {xs : List ℕ} (c : ℕ) → Limbs t xs → value (xs ++ c ∷ []) ≡ value xs + radix t * c
value-snoc {xs = xs} c l =
    value-append xs (c ∷ []) ∙ unfold value in rw (length-Limbs l) (omega arith)

-- The top limb of an array, and the limbs below it.
pub value-top :
    {t : ℕ} {xs : List ℕ}
    → Limbs (suc t) xs
    → value xs ≡ value (take t xs) + radix t * get_or xs t 0
unfolding value
value-top {t = zero} (limb {x = x} h empty) = unfold radix in omega arith
value-top {t = suc t} (limb {x = x} {xs = xs} h l) = rw (radix-suc t, value-top l) (omega arith)

pub top-lt : {t : ℕ} {xs : List ℕ} → Limbs (suc t) xs → get_or xs t 0 < limb_base
top-lt {t = zero} (limb h l) = h
top-lt {t = suc t} (limb h l) = top-lt l

-- Zeros at the top.
pub value-replicate : (n : ℕ) → value (replicate n 0) ≡ 0
unfolding value
value-replicate zero = refl
value-replicate (suc n) = omega (arith, value-replicate n)

pub replicate-Limbs : (n : ℕ) → Limbs n (replicate n 0)
replicate-Limbs zero = empty
replicate-Limbs (suc n) = limb (omega arith) (replicate-Limbs n)

-- A number that fits the lower limbs leaves the top one zero.
pub value-take :
    {t : ℕ} {xs : List ℕ} → Limbs (suc t) xs → value xs < radix t → value (take t xs) ≡ value xs
value-take {t = t} {xs = xs} l h = zero_top (get_or xs t 0) (value-top l)
  where
    zero_top : (c : ℕ) → value xs ≡ value (take t xs) + radix t * c → value (take t xs) ≡ value xs
    zero_top zero e = omega (arith, e)
    zero_top (suc c) e = absurd (omega (arith, e, h))

pub take-Limbs : {t : ℕ} {xs : List ℕ} → Limbs t xs → take t xs ≡ xs
take-Limbs empty = refl
take-Limbs (limb {x = x} h l) = ap (λ xs. x ∷ xs) (take-Limbs l)
