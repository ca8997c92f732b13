-- ===== src/Tools/Commit/Binding.antt =====
-- Commitments of Tools/Commit.cpp, opened in more than one way.
use spdz_yao.Base.{
  ℕ, ◌+◌, ◌-◌, ◌%◌, ◌^◌, ◌≤◌, ◌<◌, ◌≡◌, refl, sym, ap, ◌∙◌, Bool, true, false, not, ◌&&◌, ◌==◌, ltb,
  if◌then◌else◌, List, length, length-take, take, drop, Result, ok, >>=-eq-ok, ok-injective, arith,
}
use spdz_yao.Tools.OctetStream.{OctetStream, append, reset_write_head, size_mod}
use spdz_yao.Tools.OctetStream.Content.{content, Valid, drop-take, take-take}
use spdz_yao.Tools.Commit.{
  stream_equals, bytes_to_int, octets_from, hash_stream, open_commitment, take_message,
}
use spdz_yao.Tools.Commit.Opening.{same_octets-eq, content-hash_stream, reset-Appended, and_true}

accepted_branch {ℓ} :
    {X : Type ℓ} (b : Bool) (r : Result (Bool × X)) (x y : X)
    → (if not b then ok (false, x) else r) ≡ ok (true, y)
    → (b ≡ true) × (r ≡ ok (true, y))
accepted_branch true r x y e = (refl, e)
accepted_branch false r x y e = absurd (cc)

stream_equals-eq : (a b : OctetStream) → stream_equals a b ≡ true → content a ≡ content b
unfolding stream_equals
stream_equals-eq a b e = same_octets-eq (content a) (content b) e

take-content : (n : ℕ) (os : OctetStream) → n ≤ os.len → take n (content os) ≡ take n os.octets
unfolding content
take-content n os h = take-take n os.len os.octets h

-- The length of what is held.
length-content : (os : OctetStream) → Valid os → length (content os) ≡ os.len
unfolding content
length-content os (read, held) = omega (arith, length-take os.len os.octets)

module _ (hash : List ℕ → List ℕ) where
  run :
      (seed_size : ℕ) (into opening os' : OctetStream) (k : ℕ) (xs : List ℕ)
      → (opening.len + size_mod - (seed_size + 4)) % size_mod ≡ k
      → octets_from 4 k opening.octets ≡ ok xs
      → append xs (reset_write_head into) ≡ ok os'
      → take_message hash seed_size into opening ≡ ok (true, os')
  unfolding take_message
  run seed_size into opening os' k xs n found appends = rw (n, found, appends) refl

  taken :
      (seed_size : ℕ) (into opening message : OctetStream)
      → Valid opening
      → opening.len < 2 ^ 63
      → seed_size + 4 ≤ opening.len
      → take_message hash seed_size into opening ≡ ok (true, message)
      → content message ≡ drop 4 (take (length (content opening) - seed_size) (content opening))
  unfolding take_message octets_from
  taken seed_size into opening message (read, held) small long e =
      let k = opening.len - (seed_size + 4) in
      let n : (opening.len + size_mod - (seed_size + 4)) % size_mod ≡ k = omega arith in
      let xs = take k (drop 4 opening.octets) in
      let fits : ltb (length opening.octets) (4 + k) ≡ false = ground arith in
      let (os', appends, same) =
        reset-Appended xs into (omega (arith, length-take k (drop 4 opening.octets))) in
      let mid : take (length (content opening) - seed_size) (content opening)
          ≡ take (4 + k) opening.octets =
        ap (λ l. take l (content opening)) (omega (arith, length-content opening (read, held)))
        ∙ take-content (4 + k) opening (omega arith) in
      ap (λ (p : Bool × OctetStream). content p.1)
        (ok-injective (sym e ∙ run seed_size into opening os' k xs n (rw fits refl) appends))
      ∙ same
      ∙ sym (drop-take 4 k (4 + k) opening.octets refl)
      ∙ ap (drop 4) (sym mid)

  -- What acceptance says: the hash is the commitment, and the message is between the player and the
  -- random octets of the opening.
  accepted :
      (seed_size player : ℕ) (into comm opening message : OctetStream)
      → Valid opening
      → opening.len < 2 ^ 63
      → seed_size + 4 ≤ opening.len
      → open_commitment hash seed_size into comm opening player ≡ ok (true, message)
      → (hash (content opening) ≡ content comm)
        × (content message ≡ drop 4 (take (length (content opening) - seed_size) (content opening)))
  unfolding open_commitment
  accepted seed_size player into comm opening message valid small long e =
      let (n, reads, rest) = >>=-eq-ok (bytes_to_int opening.octets) _ e in
      let (test, takes) =
        accepted_branch (stream_equals (hash_stream hash opening) comm && n == player) _ into
          message rest in
      let (equal, same) =
        and_true (stream_equals (hash_stream hash opening) comm) (n == player) test in
      (
        sym (content-hash_stream hash opening)
            ∙ stream_equals-eq (hash_stream hash opening) comm equal,
        taken seed_size into opening message valid small long takes,
      )

  -- If `Open` accepts two openings of one commitment for one player, and the hash tells what they hold
  -- apart, then both give the same message; this is for openings that have room for the player and the
  -- random octets, and are shorter than 2^63.
  pub binding :
      (seed_size player : ℕ) (into comm opening₁ opening₂ message₁ message₂ : OctetStream)
      → Valid opening₁
      → Valid opening₂
      → opening₁.len < 2 ^ 63
      → opening₂.len < 2 ^ 63
      → seed_size + 4 ≤ opening₁.len
      → seed_size + 4 ≤ opening₂.len
      → (hash (content opening₁) ≡ hash (content opening₂) → content opening₁ ≡ content opening₂)
      → open_commitment hash seed_size into comm opening₁ player ≡ ok (true, message₁)
      → open_commitment hash seed_size into comm opening₂ player ≡ ok (true, message₂)
      → content message₁ ≡ content message₂
  binding seed_size player into comm o₁ o₂ m₁ m₂ v₁ v₂ s₁ s₂ l₁ l₂ apart e₁ e₂ =
      let (hashed₁, same₁) = accepted seed_size player into comm o₁ m₁ v₁ s₁ l₁ e₁ in
      let (hashed₂, same₂) = accepted seed_size player into comm o₂ m₂ v₂ s₂ l₂ e₂ in
      same₁
      ∙ ap (λ c. drop 4 (take (length c - seed_size) c)) (apart (hashed₁ ∙ sym hashed₂))
      ∙ sym same₂
