-- ===== src/Math/Modp/Streams.antt =====
-- `pack` and `unpack` of Math/modp.cpp: the limbs as they stand in memory, the lowest octet first.
use native.Mathlib.Nat.{mod-eq_of_lt}
use spdz_yao.Base.{
  ℕ, zero, suc, ◌+◌, ◌*◌, ◌%◌, ◌^◌, ◌<◌, ◌≡◌, refl, sym, ap, ap₂, ◌∙◌, List, [], ◌∷◌, ◌++◌,
  append-nil, length, length-append, take, drop, take-length_append, drop-length_append, Result, ok,
  ok-injective, ◌>>=◌, false, ltb, arith,
}
use spdz_yao.Math.Limbs.{Limbs, empty, limb, limb_base, take-Limbs}
use spdz_yao.Math.ZpData.{ZpData}
use spdz_yao.Tools.Length.{
  encode_from, decode_from, decode_length, encode_length-fits, length-encode_length,
  decode_length-encode_length,
}
use spdz_yao.Tools.OctetStream.{OctetStream, append, consume}
use spdz_yao.Tools.OctetStream.Content.{Valid, unread}
use spdz_yao.Tools.OctetStream.Laws.{append-Appended}
use spdz_yao.Tools.OctetStream.Numbers.{unread-Appended, consume-unread}

-- The octets of an array, and the array of `t` limbs in octets.
unfoldable pub octets_of_limbs : List ℕ → List ℕ
unfolding encode_from
octets_of_limbs [] = []
octets_of_limbs (x ∷ xs) = encode_from 8 0 x ++ octets_of_limbs xs

unfoldable pub limbs_of_octets : ℕ → List ℕ → List ℕ
unfolding decode_from
limbs_of_octets zero octets = []
limbs_of_octets (suc t) octets =
    decode_from 0 (take 8 octets) % limb_base ∷ limbs_of_octets t (drop 8 octets)

unfoldable pub pack : ZpData → List ℕ → OctetStream → Result OctetStream
unfolding octets_of_limbs
pack d xs os = append (octets_of_limbs (take d.t xs)) os

unfoldable pub unpack : ZpData → OctetStream → Result (List ℕ × OctetStream)
unfolding limbs_of_octets
unpack d os = do (octets, os') ← consume (d.t * 8) os; ok (limbs_of_octets d.t octets, os')

length-limb : (x : ℕ) → x < limb_base → length (encode_from 8 0 x) ≡ 8
length-limb x h = length-encode_length x 8 (encode_length-fits x 8 (omega arith) h)

decode_length-eight :
    (buff : List ℕ) → length buff ≡ 8 → ok (decode_from 0 buff % limb_base) ≡ decode_length buff
unfolding decode_length
decode_length-eight buff n = let fits : ltb 8 (length buff) ≡ false = ground arith in rw fits refl

decode-limb : (x : ℕ) → x < limb_base → decode_from 0 (encode_from 8 0 x) % limb_base ≡ x
decode-limb x h =
    ok-injective (
      decode_length-eight (encode_from 8 0 x) (length-limb x h)
      ∙ decode_length-encode_length x 8 (encode_from 8 0 x)
          (encode_length-fits x 8 (omega arith) h))
    ∙ mod-eq_of_lt h

length-octets_of_limbs : {t : ℕ} {xs : List ℕ} → Limbs t xs → length (octets_of_limbs xs) ≡ t * 8
unfolding octets_of_limbs
length-octets_of_limbs empty = refl
length-octets_of_limbs (limb {x = x} {xs = xs} h l) =
    length-append (encode_from 8 0 x) (octets_of_limbs xs)
    ∙ omega (arith, length-limb x h, length-octets_of_limbs l)

limbs_of_octets-octets_of_limbs :
    {t : ℕ} {xs : List ℕ} → Limbs t xs → limbs_of_octets t (octets_of_limbs xs) ≡ xs
unfolding octets_of_limbs limbs_of_octets
limbs_of_octets-octets_of_limbs empty = refl
limbs_of_octets-octets_of_limbs (limb {t = t} {x = x} {xs = xs} h l) =
    let n = length-limb x h in
    let front : take 8 (encode_from 8 0 x ++ octets_of_limbs xs) ≡ encode_from 8 0 x =
      ap (λ k. take k (encode_from 8 0 x ++ octets_of_limbs xs)) (sym n)
      ∙ take-length_append (encode_from 8 0 x) (octets_of_limbs xs) in
    let back : drop 8 (encode_from 8 0 x ++ octets_of_limbs xs) ≡ octets_of_limbs xs =
      ap (λ k. drop k (encode_from 8 0 x ++ octets_of_limbs xs)) (sym n)
      ∙ drop-length_append (encode_from 8 0 x) (octets_of_limbs xs) in
    ap₂ ◌∷◌ (ap (λ o. decode_from 0 o % limb_base) front ∙ decode-limb x h)
      (ap (limbs_of_octets t) back ∙ limbs_of_octets-octets_of_limbs l)

-- An array of `t` limbs that is packed into a stream of which all has been read, and unpacked, comes
-- back, and all of the stream has been read again, for fewer than 2^63 octets.
pub modp_unpack-pack :
    (d : ZpData) (xs : List ℕ) (os : OctetStream)
    → Limbs d.t xs
    → Valid os
    → unread os ≡ []
    → os.len + d.t * 8 < 2 ^ 63
    → (packed : OctetStream) × (read : OctetStream) × (pack d xs os ≡ ok packed)
      × (unpack d packed ≡ ok (xs, read))
      × (unread read ≡ [])
unfolding pack unpack
modp_unpack-pack d xs os l valid all_read small =
    let octets = octets_of_limbs xs in
    let n : length octets ≡ d.t * 8 = length-octets_of_limbs l in
    let a = append-Appended octets os valid (omega (arith, n)) in
    let held : unread a.os' ≡ octets ++ [] =
      unread-Appended a valid ∙ ap (λ ys. ys ++ octets) all_read ∙ sym (append-nil octets) in
    let (read, consumes, rest, valid') = consume-unread a.os' octets [] a.valid held in
    let consumed : consume (d.t * 8) a.os' ≡ ok (octets, read) =
      ap (λ k. consume k a.os') (sym n) ∙ consumes in
    (
      a.os',
      read,
      rw (take-Limbs l) a.succeeds,
      rw (consumed, limbs_of_octets-octets_of_limbs l) refl,
      rest,
    )
