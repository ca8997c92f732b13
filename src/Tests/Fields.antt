-- ===== src/Tests/Fields.antt =====
-- Runs of the field operations of Math/ modulo 2^127 - 1, in arrays of two limbs.
use spdz_yao.Base.{
  true, ◌≡◌, ◌↔◌, refl, ℕ, ◌+◌, ◌*◌, ◌^◌, ◌≤◌, ◌<◌, List, [], ◌∷◌, arith, ok, err,
  max_mod_sz_too_small, not_implemented,
}
use spdz_yao.Math.Integer.{pos, negsuc}
use spdz_yao.Math.Limbs.{Limbs, empty, limb, value, radix, limb_base}
use spdz_yao.Math.Congruence.{Congruent}
use spdz_yao.Math.ZpData.{ZpData, add, sub, init, mont_mult}
use spdz_yao.Math.ZpData.WellFormed.{WellFormed, Montgomery, Canonical}
use spdz_yao.Math.ZpData.Init.{Suitable, init_lem}
use spdz_yao.Math.ZpData.Mont.{mont_mult_lem}
use spdz_yao.Math.Modp.{
  mul, sqr, negate, assign_zero, assign_one, is_zero, is_one, are_equal, power, convert_destroy,
  to_modp, to_bigint,
}
use spdz_yao.Math.Modp.Encodes.{Encodes, factor}
use spdz_yao.Math.Modp.Convert.{residue}
use spdz_yao.Math.Modp.Ints.{Small, to_bigint-to_modp, convert_destroy-to_bigint}
use spdz_yao.Math.Modp.Power.{power_lem}
use spdz_yao.Math.Modp.Laws.{RingLaws, ring_laws}
use spdz_yao.Tools.OctetStream.{OctetStream, empty_stream}
use spdz_yao.Tools.OctetStream.Content.{content, unread}
use spdz_yao.Math.Modp.Streams.{pack, unpack, modp_unpack-pack}
use spdz_yao.Math.Modp.Field.{operations_lem, tests_lem}
use spdz_yao.Tests.Limbs.{mpn_model, prime, prime_size}

abbrev zp : ZpData
zp = record {
  montgomery = true;
  r = 2 ∷ 0 ∷ [];
  r2 = 4 ∷ 0 ∷ [];
  r3 = 8 ∷ 0 ∷ [];
  pi = 1;
  pr_a = 18446744073709551615 ∷ 9223372036854775807 ∷ 0 ∷ [];
  t = 2;
  pr = prime;
}

two-Limbs : (x y : ℕ) → x < limb_base → y < limb_base → Limbs 2 (x ∷ y ∷ [])
two-Limbs x y h k = limb h (limb k empty)

zp-Montgomery : Montgomery zp
unfolding value radix
zp-Montgomery = record {
  pi-Congruent = record { same = refl };
  inverse = 85070591730234615865843651857942052864;
  inverse-Congruent = record { same = refl };
  room = omega arith;
  r-Limbs = two-Limbs 2 0 (omega arith) (omega arith);
  r2-Limbs = two-Limbs 4 0 (omega arith) (omega arith);
  r3-Limbs = two-Limbs 8 0 (omega arith) (omega arith);
  value-r = refl;
  value-r2 = refl;
  value-r3 = refl;
}

zp-WellFormed : WellFormed zp
unfolding value radix
zp-WellFormed = record {
  below = 1;
  t-suc = refl;
  pr_a-Limbs = limb (omega arith) (limb (omega arith) (limb (omega arith) empty));
  value-pr_a = refl;
  pr_big = omega arith;
  pr-lt = omega arith;
  one-lt = omega arith;
  montgomery-Montgomery = λ on. zp-Montgomery;
}

-- Arrays that stand for 3 and 5.
abbrev three : List ℕ
three = 6 ∷ 0 ∷ []

abbrev five : List ℕ
five = 10 ∷ 0 ∷ []

three-Encodes : Encodes zp 3 three
unfolding value factor radix
three-Encodes = record {
  xs-Canonical = record { limbs = two-Limbs 6 0 (omega arith) (omega arith); bound = omega arith };
  n-Congruent = record { same = refl };
}

five-Encodes : Encodes zp 5 five
unfolding value factor radix
five-Encodes = record {
  xs-Canonical = record { limbs = two-Limbs 10 0 (omega arith) (omega arith); bound = omega arith };
  n-Congruent = record { same = refl };
}

operations_lem_example :
    Encodes zp (3 + 5) (add zp three five)
    × ((c : ℕ) → Congruent prime (c + 5) 3 → Encodes zp c (sub zp three five))
    × Encodes zp (3 * 5) (mul zp three five)
    × Encodes zp (3 * 3) (sqr zp three)
    × ((c : ℕ) → Congruent prime (c + 3) 0 → Encodes zp c (negate zp three))
operations_lem_example = operations_lem zp-WellFormed three-Encodes five-Encodes

tests_lem_example :
    Encodes zp 0 (assign_zero zp)
    × Encodes zp 1 (assign_one zp)
    × ((is_zero zp three ≡ true) ↔ Congruent prime 3 0)
    × ((is_one zp three ≡ true) ↔ Congruent prime 3 1)
    × ((are_equal zp three five ≡ true) ↔ Congruent prime 3 5)
tests_lem_example = tests_lem zp-WellFormed three-Encodes five-Encodes

power_lem_example :
    ((n : ℕ) → power zp three (negsuc n) ≡ err not_implemented)
    × ((e : ℕ) → (ys : List ℕ) × (power zp three (pos e) ≡ ok ys) × Encodes zp (3 ^ e) ys)
power_lem_example = power_lem zp-WellFormed three-Encodes

to_bigint-to_modp_example :
    (to_bigint zp (convert_destroy zp (negsuc 4)) ≡ residue zp (negsuc 4))
    × (Small zp (negsuc 4) → to_bigint zp (to_modp zp (negsuc 4)) ≡ residue zp (negsuc 4))
to_bigint-to_modp_example = to_bigint-to_modp zp-WellFormed (negsuc 4)

convert_destroy-to_bigint_example : convert_destroy zp (pos (to_bigint zp three)) ≡ three
convert_destroy-to_bigint_example =
    convert_destroy-to_bigint zp-WellFormed three-Encodes.xs-Canonical

mont_mult_lem_example :
    Canonical zp (mont_mult zp three five)
    × Congruent prime (radix 2 * value (mont_mult zp three five)) (value three * value five)
mont_mult_lem_example =
    mont_mult_lem zp-WellFormed zp-Montgomery three-Encodes.xs-Canonical five-Encodes.xs-Canonical

ring_laws_example : RingLaws zp three five three
ring_laws_example =
    ring_laws zp-WellFormed three-Encodes.xs-Canonical five-Encodes.xs-Canonical
      three-Encodes.xs-Canonical

modp_unpack-pack_example :
    (packed : OctetStream) × (read : OctetStream) × (pack zp three empty_stream ≡ ok packed)
    × (unpack zp packed ≡ ok (three, read))
    × (unread read ≡ [])
unfolding unread content
modp_unpack-pack_example =
    modp_unpack-pack zp three empty_stream three-Encodes.xs-Canonical.limbs
      (omega arith, omega arith) refl (omega arith)

two-Suitable : Suitable prime 2
unfolding radix
two-Suitable = record {
  inverse = 170141183460469231731687303715884105727;
  inverse_eq = refl;
  room = omega arith;
}

prime-Suitable : Suitable prime (mpn_model.mpz_size prime)
prime-Suitable = rw prime_size two-Suitable

init_lem_example :
    (2 < mpn_model.mpz_size prime → init 2 prime true ≡ err max_mod_sz_too_small)
    × (mpn_model.mpz_size prime ≤ 2
        → (d : ZpData) × (init 2 prime true ≡ ok d)
          × WellFormed d
          × (d.pr ≡ prime)
          × (d.montgomery ≡ true))
init_lem_example = init_lem 2 prime true (omega arith) (λ on. prime-Suitable)
