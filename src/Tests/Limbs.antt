-- ===== src/Tests/Limbs.antt =====
-- A concrete library of limbs, by division with remainder, for the tests of Math/.
use Prim.Native.Nat.{compare}
use native.Mathlib.Nat.{mod-lt, mod-add-div, mul-le-mul_left, mul-lt-mul_of_pos_right}
use spdz_yao.Base.{
  true, false, ◌≡◌, refl, sym, ap, ◌∙◌, ℕ, zero, suc, ◌+◌, ◌-◌, ◌*◌, ◌%◌, ◌/◌, ◌≤◌, ◌<◌, ◌==◌,
  ==_iff, ltb, List, [], ◌∷◌, if◌then◌else◌, if-elim, ltb→lt, ℕ_discrete, arith,
}
use spdz_yao.Math.Limbs.{
  Limbs, empty, limb, value, radix, limb_base, radix-zero, radix-suc, radix_pos, value-lt,
}
use spdz_yao.Math.Mpn.{Mpn, Carried, Holds}
use spdz_yao.Math.ZpData.{ZpData, mont_mult}
use spdz_yao.Math.Congruence.{times_both, of_eq, mod-Congruent}

-- The lowest `t` limbs of a number.
unfoldable pub limbs_of : ℕ → ℕ → List ℕ
limbs_of zero n = []
limbs_of (suc t) n = n % limb_base ∷ limbs_of t (n / limb_base)

limbs_of-Limbs : (t n : ℕ) → Limbs t (limbs_of t n)
unfolding limbs_of
limbs_of-Limbs zero n = empty
limbs_of-Limbs (suc t) n = limb (omega arith) (limbs_of-Limbs t (n / limb_base))

value-limbs_of : (t n : ℕ) → n < radix t → value (limbs_of t n) ≡ n
unfolding limbs_of value
value-limbs_of zero n h = omega (arith, h, radix-zero)
value-limbs_of (suc t) n h =
    omega (arith, value-limbs_of t (n / limb_base) (omega (arith, h, radix-suc t)))

carried : ℕ → ℕ → Carried
unfolding limbs_of radix
carried t n = record { limbs = limbs_of t (n % radix t); carry = n / radix t }

carried-Holds : (t n : ℕ) → Holds t n (carried t n)
unfolding carried
carried-Holds t n = record {
  limbs-Limbs = limbs_of-Limbs t (n % radix t);
  total =
      ap (λ v. v + radix t * (n / radix t)) (value-limbs_of t _ (mod-lt n (radix_pos t)))
      ∙ mod-add-div n (radix t);
}

subtract : ℕ → ℕ → ℕ → Carried
unfolding limbs_of radix
subtract t x y =
    if ltb x y
    then record { limbs = limbs_of t (x + radix t - y); carry = 1 }
    else record { limbs = limbs_of t (x - y); carry = 0 }

subtract_total :
    (t x y : ℕ)
    → x < radix t
    → y < radix t
    → value (subtract t x y).limbs + y ≡ x + radix t * (subtract t x y).carry
unfolding subtract
subtract_total t x y h k =
    if-elim (λ (r : Carried). value r.limbs + y ≡ x + radix t * r.carry) (ltb x y)
      (λ e.
        let lt : x < y = ltb→lt x y e in
        ap (λ v. v + y) (value-limbs_of t (x + radix t - y) (omega (arith, lt, h, k)))
        ∙ omega (arith, lt, h, k))
      (λ e.
        let ge : y ≤ x = ground arith in
        ap (λ v. v + y) (value-limbs_of t (x - y) (omega (arith, ge, h))) ∙ omega (arith, ge))

subtract-Limbs : (t x y : ℕ) → Limbs t (subtract t x y).limbs
unfolding subtract
subtract-Limbs t x y =
    if-elim (λ (r : Carried). Limbs t r.limbs) (ltb x y) (λ e. limbs_of-Limbs t _)
      (λ e. limbs_of-Limbs t _)

-- The limbs that a number takes.
sizes : ℕ → ℕ → ℕ
sizes zero n = 0
sizes (suc fuel) zero = 0
sizes (suc fuel) (suc n) = suc (sizes fuel (suc n / limb_base))

sizes-lt : (fuel n : ℕ) → n ≤ fuel → n < radix (sizes fuel n)
unfolding sizes
sizes-lt zero zero h = radix_pos 0
sizes-lt zero (suc n) h = absurd (omega arith)
sizes-lt (suc fuel) zero h = radix_pos 0
sizes-lt (suc fuel) (suc n) h = omega (
  arith,
  sizes-lt fuel (suc n / limb_base) (omega arith),
  radix-suc (sizes fuel (suc n / limb_base)),
)

sizes_top : (fuel n t : ℕ) → sizes fuel n ≡ suc t → radix t ≤ n
unfolding sizes
sizes_top zero n t e = absurd (omega (arith, e))
sizes_top (suc fuel) zero t e = absurd (omega (arith, e))
sizes_top (suc fuel) (suc n) zero e = omega (arith, radix-zero)
sizes_top (suc fuel) (suc n) (suc t) e =
    omega (arith, radix-suc t, sizes_top fuel (suc n / limb_base) t (omega (arith, e)))

size : ℕ → ℕ
unfolding sizes
size n = sizes n n

-- The first inverse from above.
search : ℕ → ℕ → ℕ → ℕ
search a b zero = 0
search a b (suc n) = if (a * n) % b == 1 then n else search a b n

one_differs {ℓ} : {A : Type ℓ} (r : ℕ) → r ≡ 1 → (r == 1) ≡ false → A
one_differs r p q = absurd (ground arith)

search_lem :
    (a b n k : ℕ) → k < n → (a * k) % b ≡ 1 → ((a * search a b n) % b ≡ 1) × (search a b n < n)
unfolding search
search_lem a b zero k h e = elim h [ ]
search_lem a b (suc n) k h e =
    if-elim (λ s. ((a * s) % b ≡ 1) × (s < suc n)) ((a * n) % b == 1)
      (λ found. ((==_iff ((a * n) % b) 1).0 found, omega arith))
      (λ other.
        let (found, lt) = search_lem a b n k (before n k h e other) e in (found, omega (arith, lt)))
  where
    before : (n k : ℕ) → k < suc n → (a * k) % b ≡ 1 → ((a * n) % b == 1) ≡ false → k < n
    before n k h e other = elim (ℕ_discrete k n) [
      | yes same ↦ one_differs ((a * n) % b) (ap (λ k. (a * k) % b) (sym same) ∙ e) other
      | no differ ↦ omega (arith, h, differ)
    ]

-- An inverse, if there is one.
invert : ℕ → ℕ → ℕ
unfolding search
invert a b = search a b b

invert_lem : (a b k : ℕ) → 1 < b → (a * k) % b ≡ 1 → ((a * invert a b) % b ≡ 1) × (invert a b < b)
unfolding invert
invert_lem a b k h e =
    search_lem a b b (k % b) (mod-lt k (omega (arith, h)))
      ((times_both (of_eq {p = b} {a = a} refl) (mod-Congruent k)).same ∙ e)

radix_plus : (s t : ℕ) → radix s * radix t ≡ radix (s + t)
radix_plus zero t = omega (arith, ap (λ r. r * radix t) radix-zero, ap radix (zero_plus t))
  where
    zero_plus : (t : ℕ) → 0 + t ≡ t
    zero_plus t = omega arith
radix_plus (suc s) t =
    ap (λ r. r * radix t) (radix-suc s)
    ∙ omega (arith, radix_plus s t, radix-suc (s + t))
    ∙ ap radix (suc_plus s t)
  where
    suc_plus : (s t : ℕ) → suc (s + t) ≡ suc s + t
    suc_plus s t = omega arith

product-lt : (t x y : ℕ) → x < radix t → y < radix t → x * y < radix (t + t)
product-lt t x y h k = omega (
  arith,
  radix_plus t t,
  mul-le-mul_left {n = radix t} x (le_of_lt y (radix t) k),
  mul-lt-mul_of_pos_right {k = radix t} h (radix_pos t),
)
  where
    le_of_lt : (a b : ℕ) → a < b → a ≤ b
    le_of_lt a b h = omega arith

remainder-lt : (x y r : ℕ) → 0 < y → y < r → x % y < r
remainder-lt x y r h k = omega (arith, mod-lt x h, k)

instance pub mpn_model : Mpn
unfolding carried subtract size invert limbs_of
mpn_model = record {
  mpn_add_n = λ xs ys t. carried t (value xs + value ys);
  mpn_sub_n = λ xs ys t. subtract t (value xs) (value ys);
  mpn_cmp = λ xs ys t. compare (value xs) (value ys);
  mpn_mul_1 = λ xs t y. carried t (value xs * y);
  mpn_addmul_1 = λ zs xs t y. carried t (value zs + value xs * y);
  mpn_mul_n = λ xs ys t. limbs_of (t + t) (value xs * value ys);
  mpn_sqr = λ xs t. limbs_of (t + t) (value xs * value xs);
  mpn_tdiv_qr = λ xs s ys t. limbs_of t (value xs % value ys);
  mpz_size = size;
  mp_d = λ n. limbs_of (size n) n;
  mpz_invert = invert;
  add_n_lem = λ h k. carried-Holds _ _;
  sub_n-Limbs = λ {t = t} {xs = xs} {ys = ys} h k. subtract-Limbs t (value xs) (value ys);
  sub_n_total = λ {t = t} {xs = xs} {ys = ys} h k.
      subtract_total t (value xs) (value ys) (value-lt h) (value-lt k);
  cmp_lem = λ h k. refl;
  mul_1_lem = λ y h k. carried-Holds _ _;
  addmul_1_lem = λ y h k l. carried-Holds _ _;
  mul_n-Limbs = λ h k. limbs_of-Limbs _ _;
  value-mul_n = λ {t = t} {xs = xs} {ys = ys} h k.
      value-limbs_of (t + t) (value xs * value ys)
        (product-lt t (value xs) (value ys) (value-lt h) (value-lt k));
  sqr_lem = λ h. refl;
  tdiv_qr-Limbs = λ h k e l. limbs_of-Limbs _ _;
  value-tdiv_qr = λ {t = t} {b = b} {xs = xs} {ys = ys} h k e l.
      value-limbs_of t (value xs % value ys)
        (remainder-lt (value xs) (value ys) (radix t) (omega (arith, l, radix_pos b)) (value-lt k));
  mp_d-Limbs = λ n. limbs_of-Limbs (size n) n;
  value-mp_d = λ n. value-limbs_of (size n) n (sizes-lt n n (omega arith));
  mpz_size_top = λ n t e. sizes_top n n t e;
  mpz_invert_lem = λ a b k h e. (invert_lem a b k h e).0;
  mpz_invert-lt = λ a b k h e. (invert_lem a b k h e).1;
}

abbrev pub prime : ℕ
prime = 170141183460469231731687303715884105727

pub prime_size : mpn_model.mpz_size prime ≡ 2
unfolding mpn_model size sizes
prime_size = refl

-- A modulus of two limbs without the room: 2^128 - 159.
abbrev crowded : ZpData
crowded = record {
  montgomery = true;
  r = 159 ∷ 0 ∷ [];
  r2 = 25281 ∷ 0 ∷ [];
  r3 = 4019679 ∷ 0 ∷ [];
  pi = 13109950190749555551;
  pr_a = 18446744073709551457 ∷ 18446744073709551615 ∷ 0 ∷ [];
  t = 2;
  pr = 340282366920938463463374607431768211297;
}

-- The product of the opposite of 1 with itself, times the power of the base, should leave 1.
crowded_run :
    (let top = 18446744073709551456 ∷ 18446744073709551615 ∷ [] in
      (value (mont_mult crowded top top) * radix 2) % crowded.pr)
    ≡ 340282366920938463463374607431768186017
unfolding mont_mult value radix mpn_model carried subtract limbs_of size sizes invert search
crowded_run = refl
