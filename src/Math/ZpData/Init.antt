-- ===== src/Math/ZpData/Init.antt =====
-- `Zp_Data::init` of Math/Zp_Data.cpp.
use mathlib.Core.Path.{subst}
use native.Mathlib.Nat.{mod-lt, mod-add-div}
use spdz_yao.Base.{
  Bool, true, false, ◌≡◌, refl, sym, ap, ◌∙◌, ℕ, zero, suc, ◌+◌, ◌-◌, ◌*◌, ◌%◌, ◌/◌, ◌≤◌, ◌<◌, List,
  ◌++◌, length, replicate, arith, ok, err, max_mod_sz_too_small, dec_lt,
}
use spdz_yao.Math.Limbs.{
  Limbs, empty, limb, value, radix, limb_base, radix-zero, radix-suc, radix_mono, value-lt,
  Limbs-snoc, value-snoc, value-append, value-replicate, replicate-Limbs,
}
use spdz_yao.Math.Mpn.{Mpn}
use spdz_yao.Math.Congruence.{
  Congruent, of_multiples, of_eq, ◌and_so◌, times_both, plus_both, mod-Congruent,
}
use spdz_yao.Math.ZpData.{ZpData, init, stored, padded, pi_of}
use spdz_yao.Math.ZpData.Reduce.{first-Congruent}
use spdz_yao.Math.ZpData.WellFormed.{WellFormed, Montgomery}

Limbs-pad :
    {s : ℕ} {xs : List ℕ}
    → Limbs s xs
    → (t : ℕ) → s ≤ t
    → Limbs t (xs ++ replicate (t - length xs) 0)
Limbs-pad empty t h = rw (minus_zero t) (replicate-Limbs t)
  where
    minus_zero : (t : ℕ) → t - 0 ≡ t
    minus_zero t = omega arith
Limbs-pad (limb k l) zero h = elim h [ ]
Limbs-pad (limb {xs = xs} k l) (suc t) h =
    let e : suc t - suc (length xs) ≡ t - length xs = omega arith in
    rw e (limb k (Limbs-pad l t (omega arith)))

module _ ⦃m : Mpn⦄ where
  -- A number that `t` limbs hold has no more of them.
  size-le : (n t : ℕ) (s : ℕ) → m.mpz_size n ≡ s → n < radix t → s ≤ t
  size-le n t zero e h = omega arith
  size-le n t (suc s) e h = elim (dec_lt s t) [
    | yes lt ↦ omega arith
    | no ge ↦ absurd (omega (arith, m.mpz_size_top n s e, radix_mono t s (omega (arith, ge))))
  ]

  pub padded-Limbs : (t n : ℕ) → n < radix t → Limbs t (padded t n)
  unfolding padded
  padded-Limbs t n h = Limbs-pad (m.mp_d-Limbs n) t (size-le n t _ refl h)

  pub value-padded : (t n : ℕ) → value (padded t n) ≡ n
  unfolding padded
  value-padded t n =
      rw
        (
          value-append (m.mp_d n) (replicate (t - length (m.mp_d n)) 0),
          value-replicate (t - length (m.mp_d n)),
          m.value-mp_d n,
        )
        (omega arith)

  p-lt : (p : ℕ) → p < radix (m.mpz_size p)
  p-lt p = omega (arith, value-lt (m.mp_d-Limbs p), m.value-mp_d p)

  mpz_size-suc : (p s : ℕ) → m.mpz_size p ≡ s → 1 < p → (b : ℕ) × (s ≡ suc b)
  mpz_size-suc p zero e h = absurd (omega (arith, p-lt p, ap radix e, radix-zero, h))
  mpz_size-suc p (suc b) e h = (b, refl)

  -- `pi` is the opposite of the modulus' inverse.
  pi_of-Congruent :
      (p b : ℕ)
      → (p * m.mpz_invert p (radix (suc b))) % radix (suc b) ≡ 1
      → m.mpz_invert p (radix (suc b)) < radix (suc b)
      → Congruent limb_base (p * pi_of p (radix (suc b)) + 1) 0
  unfolding pi_of
  pi_of-Congruent p b e h =
      let r = radix (suc b) in
      let inv = m.mpz_invert p r in
      let q = (p * inv) / r in
      let whole : p * inv ≡ 1 + r * q = omega (arith, mod-add-div (p * inv) r, e) in
      let split : p * (r - inv) + p * inv ≡ p * r =
        omega (arith, ap (λ z. p * z) (minus_plus r inv h)) in
      plus_both {b = 1}
        (times_both {a = p} {d = r - inv} (of_eq refl)
          (first-Congruent (m.mp_d-Limbs (r - inv)) and_so of_eq (m.value-mp_d (r - inv))))
        (of_eq refl)
      and_so of_multiples (radix b * q) (p * radix b) (
          omega (arith, split, whole, ap (λ z. p * z) (radix-suc b), ap (λ z. z * q) (radix-suc b)))
    where
      minus_plus : (r i : ℕ) → i < r → r - i + i ≡ r
      minus_plus r i h = omega arith

  -- The power of the base has an inverse if the modulus has one.
  inverse-Congruent :
      (p r inv : ℕ) → 1 < p → (p * inv) % r ≡ 1 → Congruent p (r * ((p * inv) / r * (p - 1))) 1
  inverse-Congruent zero r inv h e = elim h [ ]
  inverse-Congruent (suc p) r inv h e =
      let q = (suc p * inv) / r in
      let whole : r * q + 1 ≡ suc p * inv = omega (arith, mod-add-div (suc p * inv) r, e) in
      of_multiples 1 (inv * p)
        (ap (λ k. r * (q * k) + 1 * suc p) minus_one ∙ omega (arith, ap (λ z. z * p) whole))
    where
      minus_one : suc p - 1 ≡ p
      minus_one = omega arith

-- What Montgomery's multiplication asks of a modulus of `t` limbs: an inverse modulo the power of
-- the base, and room below it.
pub record Suitable (p t : ℕ) : Type 0 where
  pub inverse : ℕ
  pub inverse_eq : (p * inverse) % radix t ≡ 1
  pub room : (limb_base + 1) * p ≤ radix (suc t)

module _ ⦃m : Mpn⦄ where
  stored-Montgomery :
      (p t b : ℕ) → t ≡ suc b → 1 < p → p < radix t → Suitable p t → Montgomery (stored t p true)
  unfolding stored
  stored-Montgomery p t b e h k s =
      let one-lt : 1 < radix t = omega (arith, h, k) in
      let inv-eq = m.mpz_invert_lem p (radix t) s.inverse one-lt s.inverse_eq in
      let inv-lt = m.mpz_invert-lt p (radix t) s.inverse one-lt s.inverse_eq in
      let small : (n : ℕ) → n % p < radix t =
        λ n. omega (arith, mod-lt n {m = p} (omega arith), k) in
      let r = radix t % p in
      let square : Congruent p ((r * r) % p) (radix t * radix t) =
        mod-Congruent (r * r)
        and_so times_both (mod-Congruent (radix t)) (mod-Congruent (radix t)) in
      record {
        pi-Congruent =
            subst
              (λ t.
                (p * m.mpz_invert p (radix t)) % radix t ≡ 1
                → m.mpz_invert p (radix t) < radix t
                → Congruent limb_base (p * pi_of p (radix t) + 1) 0)
              (sym e) (pi_of-Congruent p b) inv-eq inv-lt;
        inverse = (p * s.inverse) / radix t * (p - 1);
        inverse-Congruent = inverse-Congruent p (radix t) s.inverse h s.inverse_eq;
        room = s.room;
        r-Limbs = padded-Limbs t r (small (radix t));
        r2-Limbs = padded-Limbs t _ (small (r * r));
        r3-Limbs = padded-Limbs t _ (small ((r * r) % p * r));
        value-r = value-padded t r;
        value-r2 =
            value-padded t _
            ∙ (times_both (mod-Congruent (radix t)) (mod-Congruent (radix t))).same;
        value-r3 = value-padded t _ ∙ (times_both square (mod-Congruent (radix t))).same;
      }

  stored-WellFormed :
      (p b : ℕ) (mont : Bool)
      → m.mpz_size p ≡ suc b
      → 1 < p
      → (mont ≡ true → Suitable p (m.mpz_size p))
      → WellFormed (stored (m.mpz_size p) p mont)
  unfolding stored
  stored-WellFormed p b mont e h s = record {
    below = b;
    t-suc = e;
    pr_a-Limbs = Limbs-snoc (m.mp_d-Limbs p) (omega arith);
    value-pr_a = value-snoc 0 (m.mp_d-Limbs p) ∙ omega (arith, m.value-mp_d p);
    pr_big = m.mpz_size_top p b e;
    pr-lt = p-lt p;
    one-lt = h;
    montgomery-Montgomery = when mont s;
  }
    where
      when :
          (mont : Bool)
          → (mont ≡ true → Suitable p (m.mpz_size p))
          → mont ≡ true
          → Montgomery (stored (m.mpz_size p) p mont)
      when true s on = stored-Montgomery p (m.mpz_size p) b e h (p-lt p) (s on)
      when false s on = absurd (ground arith)

  -- Of a modulus above 1: if it has more limbs than MAX_MOD_SZ, `init` refuses it, and otherwise `init`
  -- stores it in a state that is well formed; for Montgomery's form the modulus is to have an inverse
  -- modulo the power of the base, and room.
  pub init_lem :
      (max_mod_sz p : ℕ) (mont : Bool)
      → 1 < p
      → (mont ≡ true → Suitable p (m.mpz_size p))
      → (max_mod_sz < m.mpz_size p → init max_mod_sz p mont ≡ err max_mod_sz_too_small)
        × (m.mpz_size p ≤ max_mod_sz
            → (d : ZpData) × (init max_mod_sz p mont ≡ ok d)
              × WellFormed d
              × (d.pr ≡ p)
              × (d.montgomery ≡ mont))
  unfolding init stored
  init_lem max_mod_sz p mont h s =
      let (b, e) = mpz_size-suc p (m.mpz_size p) refl h in
      (
        λ k. ground arith,
        λ k. (
          stored (m.mpz_size p) p mont,
          ground arith,
          stored-WellFormed p b mont e h s,
          refl,
          refl,
        ),
      )
