-- ===== src/Math/Modp/Ints.antt =====
-- `to_modp` of Math/modp.cpp for an `int`, and the way back to a big integer.
use mathlib.Core.Path.{subst}
use native.Mathlib.Nat.{mod-lt, mod-eq_of_lt, mod-mod, mod_self}
use spdz_yao.Base.{
  true, false, ◌≡◌, sym, ap, ◌∙◌, ℕ, zero, suc, ◌+◌, ◌-◌, ◌%◌, ◌≤◌, ◌<◌, ◌==◌, ==_iff, ltb, List,
  get_or, if-elim, ◌≢◌, dec_lt, arith,
}
use spdz_yao.Math.Integer.{ℤ, pos, negsuc}
use spdz_yao.Math.Limbs.{radix, limb_base, radix_pos, radix-suc, radix_one}
use spdz_yao.Math.Mpn.{Mpn}
use spdz_yao.Math.Congruence.{Congruent, of_eq, ◌and_so◌, canonical, reverse, mod-Congruent}
use spdz_yao.Math.ZpData.{ZpData}
use spdz_yao.Math.ZpData.Reduce.{first-Congruent, first-lt}
use spdz_yao.Math.ZpData.WellFormed.{WellFormed, Canonical}
use spdz_yao.Math.Modp.{single, enter, convert_destroy, to_modp, to_bigint}
use spdz_yao.Math.Modp.Encodes.{Encodes, Encodes-cong, Canonical-Encodes, encoding_unique}
use spdz_yao.Math.Modp.Convert.{residue, enter-Encodes, convert_destroy-Encodes, to_bigint-Encodes}
use spdz_yao.Math.Modp.Constants.{single-Canonical, value-single}

-- The opposite of a number that the modulus does not exceed.
small_opposite : (p n : ℕ) → n < p → p - suc n ≡ (p - suc n % p) % p
small_opposite p n h = elim (dec_lt (suc n) p) [
  | yes lt ↦
      let less : p - suc n < p = omega arith in
      sym (ap (λ r. (p - r) % p) (mod-eq_of_lt lt) ∙ mod-eq_of_lt less)
  | no ge ↦
      let e : suc n ≡ p = omega (arith, ge) in
      let r : p - suc n % p ≡ p = omega (arith, ap (λ k. k % p) e, mod_self p) in
      omega (arith, ap (λ k. k % p) r, mod_self p)
]

-- `prA[0]+x` for a negative `x` that the modulus is not below.
wrapped : (p n : ℕ) → n < p → p < limb_base → (p + (limb_base - suc n)) % limb_base % p ≡ p - suc n
wrapped p n h k =
    let e : (p + (limb_base - suc n)) % limb_base ≡ p - suc n = omega arith in
    let less : p - suc n < p = omega arith in ap (λ r. r % p) e ∙ mod-eq_of_lt less

differs : (t : ℕ) → (t == 1) ≡ false → t ≢ 1
differs t e q = absurd (ground arith)

-- An `int` that `to_modp` takes over: no more than a limb, and not below the opposite of the modulus.
unfoldable pub Small : ZpData → ℤ → Type 0
Small d (pos n) = n < limb_base
Small d (negsuc n) = n < d.pr

module _ ⦃m : Mpn⦄ {d : ZpData} (w : WellFormed d) where
  modulus-lt : d.t ≡ 1 → d.pr < limb_base
  modulus-lt e = omega (arith, subst (λ t. d.pr < radix t) e w.pr-lt, radix_one)

  -- With one limb it is the modulus.
  first-limb : d.t ≡ 1 → get_or d.pr_a 0 0 ≡ d.pr
  first-limb e =
      let p-lt : d.pr < limb_base = modulus-lt e in
      canonical (first-lt w.pr_a-Limbs) p-lt
        (first-Congruent w.pr_a-Limbs and_so of_eq w.value-pr_a)

  -- With more limbs it is above every limb.
  modulus-ge : d.t ≢ 1 → limb_base ≤ d.pr
  modulus-ge ne = by_below w.below w.t-suc w.pr_big
    where
      by_below : (b : ℕ) → d.t ≡ suc b → radix b ≤ d.pr → limb_base ≤ d.pr
      by_below zero e h = absurd (ne e)
      by_below (suc b) e h = omega (arith, h, radix-suc b, radix_pos b)

  single-enter : (n : ℕ) → n < limb_base → n < d.pr → Encodes d n (enter d (single d n))
  single-enter n h k = enter-Encodes w (single-Canonical w n h k) (value-single w n)

  to_modp-pos : (n : ℕ) → n < limb_base → Encodes d (n % d.pr) (to_modp d (pos n))
  unfolding to_modp
  to_modp-pos n h =
      if-elim (λ k. Encodes d (n % d.pr) (enter d (single d k))) (d.t == 1)
        (λ e.
          let one : d.t ≡ 1 = (==_iff d.t 1).0 e in
          let r-lt : n % d.pr < d.pr = mod-lt n (omega (arith, w.one-lt)) in
          rw (first-limb one) (single-enter (n % d.pr) (omega (arith, r-lt, modulus-lt one)) r-lt))
        (λ e.
          let lt : n < d.pr = omega (arith, h, modulus-ge (λ q. differs d.t e q)) in
          Encodes-cong w (single-enter n h lt) (reverse (mod-Congruent n)))

  residue-pos : (k : ℕ) → Congruent d.pr (residue d (pos k)) k
  unfolding residue
  residue-pos k = mod-Congruent k

  to_modp-negsuc :
      (n : ℕ) → n < d.pr → Encodes d ((d.pr - suc n % d.pr) % d.pr) (to_modp d (negsuc n))
  unfolding to_modp
  to_modp-negsuc n h =
      let less : d.pr - suc n < d.pr = omega arith in
      let same = of_eq (small_opposite d.pr n h) in
      if-elim (Encodes d ((d.pr - suc n % d.pr) % d.pr)) (d.t == 1)
        (λ e.
          let one : d.t ≡ 1 = (==_iff d.t 1).0 e in
          rw (first-limb one, wrapped d.pr n h (modulus-lt one))
            (Encodes-cong w (single-enter (d.pr - suc n) (omega (arith, less, modulus-lt one)) less)
              same))
        (λ e.
          let test : ltb n d.pr ≡ true = ground arith in
          rw test (
            Encodes-cong w (convert_destroy-Encodes w (pos (d.pr - suc n)))
              (residue-pos (d.pr - suc n) and_so same)))

  pub to_modp-Encodes : (z : ℤ) → Small d z → Encodes d (residue d z) (to_modp d z)
  unfolding Small residue
  to_modp-Encodes (pos n) h = to_modp-pos n h
  to_modp-Encodes (negsuc n) h = to_modp-negsuc n h

  residue_small : (z : ℤ) → residue d z % d.pr ≡ residue d z
  unfolding residue
  residue_small (pos n) = mod-mod n d.pr
  residue_small (negsuc n) = mod-mod (d.pr - suc n % d.pr) d.pr

  -- `to_bigint` of what `convert_destroy` leaves for a big integer is the residue of that integer
  -- modulo the prime, also for a negative one; so it is for what `to_modp` leaves for an `int` that
  -- is not below the opposite of the prime. This is for a well formed state; with Montgomery's form,
  -- that asks for the inverses and for room above the modulus, and `init` does not check that there is
  -- room.
  pub to_bigint-to_modp :
      (z : ℤ)
      → (to_bigint d (convert_destroy d z) ≡ residue d z)
        × (Small d z → to_bigint d (to_modp d z) ≡ residue d z)
  to_bigint-to_modp z = (
    to_bigint-Encodes w (convert_destroy-Encodes w z) ∙ residue_small z,
    (λ h. to_bigint-Encodes w (to_modp-Encodes z h) ∙ residue_small z),
  )

  -- `convert_destroy` of what `to_bigint` leaves is the array that `to_bigint` is called with, for
  -- every array below the prime in a well formed state.
  pub convert_destroy-to_bigint :
      {xs : List ℕ} → Canonical d xs → convert_destroy d (pos (to_bigint d xs)) ≡ xs
  convert_destroy-to_bigint {xs = xs} c =
      let (n, h) = Canonical-Encodes w c in
      encoding_unique w (convert_destroy-Encodes w (pos (to_bigint d xs))) h
        (residue-pos (to_bigint d xs) and_so of_eq (to_bigint-Encodes w h) and_so mod-Congruent n)
