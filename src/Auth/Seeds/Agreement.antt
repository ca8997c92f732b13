-- ===== src/Auth/Seeds/Agreement.antt =====
-- All players make the same seed.
use spdz_yao.Base.{
  ℕ, suc, ◌+◌, ◌<◌, ◌≡◌, refl, sym, ap, ◌∙◌, true, ◌==◌, ==_iff, if-elim, bit_xor, List, [], ◌∷◌,
  ◌++◌, length, drop, get_elem?, replicate, length-replicate, some, Result, ok, arith,
}
use spdz_yao.Tools.OctetStream.{OctetStream, empty_stream}
use spdz_yao.Tools.OctetStream.Content.{content}
use spdz_yao.Tools.Commit.{open_commitment}
use spdz_yao.Tools.Commit.Opening.{octets-content}
use spdz_yao.Auth.Seeds.{xor_octets, octets_of, seed_loop, create_random_seed}

-- The exclusive or of two lists of octets, and of many.
unfoldable pub xor_list : List ℕ → List ℕ → List ℕ
xor_list [] ys = []
xor_list (x ∷ xs) [] = x ∷ xs
xor_list (x ∷ xs) (y ∷ ys) = bit_xor x y ∷ xor_list xs ys

unfoldable pub xor_all : List ℕ → List (List ℕ) → List ℕ
unfolding xor_list
xor_all seed [] = seed
xor_all seed (m ∷ messages) = xor_all (xor_list seed m) messages

xor_octets-list :
    (seed m rest : List ℕ)
    → length seed ≡ length m
    → xor_octets seed (m ++ rest) ≡ ok (xor_list seed m)
unfolding xor_octets xor_list
xor_octets-list [] m rest h = refl
xor_octets-list (s ∷ seed) [] rest h = absurd (omega arith)
xor_octets-list (s ∷ seed) (x ∷ m) rest h = rw (xor_octets-list seed m rest (omega arith)) refl

length-xor_list : (xs ys : List ℕ) → length (xor_list xs ys) ≡ length xs
unfolding xor_list
length-xor_list [] ys = refl
length-xor_list (x ∷ xs) [] = refl
length-xor_list (x ∷ xs) (y ∷ ys) = ap suc (length-xor_list xs ys)

some-injective : {xs ys : List ℕ} → some xs ≡ some ys → xs ≡ ys
some-injective e = cc

module _ (hash : List ℕ → List ℕ) (seed_size : ℕ) where
  -- The players from `i` on sent openings of their commitments to these messages of `len` octets.
  pub data Sent (len : ℕ) : ℕ → List (OctetStream × OctetStream) → List (List ℕ) → Type 0 where
    all_sent : {i : ℕ} → Sent len i [] []
    sent :
        {i : ℕ} {comm opening e : OctetStream} {views : List (OctetStream × OctetStream)}
        {messages : List (List ℕ)}
        → open_commitment hash seed_size empty_stream comm opening i ≡ ok (true, e)
        → length (content e) ≡ len
        → Sent len (suc i) views messages
        → Sent len i ((comm, opening) ∷ views) (content e ∷ messages)

  octets_of-content :
      (my_num i : ℕ) (own comm opening e : OctetStream)
      → open_commitment hash seed_size empty_stream comm opening i ≡ ok (true, e)
      → (i ≡ my_num → content own ≡ content e)
      → (e' : OctetStream) × (octets_of hash seed_size my_num own i comm opening ≡ ok e')
        × (content e' ≡ content e)
  unfolding octets_of
  octets_of-content my_num i own comm opening e opens mine =
      if-elim
        (λ (r : Result OctetStream). (e' : OctetStream) × (r ≡ ok e') × (content e' ≡ content e))
        (i == my_num) (λ same. (own, refl, mine ((==_iff i my_num).0 same)))
        (λ other. (e, rw opens refl, refl))

  loop-xor :
      {len i : ℕ} {views : List (OctetStream × OctetStream)} {messages : List (List ℕ)}
      → Sent len i views messages
      → (my_num : ℕ) (own : OctetStream) (seed : List ℕ) → length seed ≡ len
      → ((k : ℕ) → i + k ≡ my_num → k < length messages → get_elem? messages k ≡ some (content own))
      → seed_loop hash seed_size my_num own i seed views ≡ ok (xor_all seed messages)
  unfolding seed_loop xor_all
  loop-xor all_sent my_num own seed size mine = refl
  loop-xor
        (sent {i = i} {comm = comm} {opening = opening} {e = e} {views = views}
          {messages = messages} opens l rest)
        my_num own seed size mine =
      let own_content : i ≡ my_num → content own ≡ content e =
        λ same. sym (some-injective (mine 0 (omega (arith, same)) (omega arith))) in
      let (e', gets, held) = octets_of-content my_num i own comm opening e opens own_content in
      let added : xor_octets seed e'.octets ≡ ok (xor_list seed (content e)) =
        ap (xor_octets seed) (octets-content e' ∙ ap (λ xs. xs ++ drop e'.len e'.octets) held)
        ∙ xor_octets-list seed (content e) (drop e'.len e'.octets) (omega (arith, size, l)) in
      rw (gets, added)
        (loop-xor rest my_num own (xor_list seed (content e))
          (omega (arith, length-xor_list seed (content e), size))
          (λ k h b. mine (suc k) (omega (arith, h)) (omega arith)))

  -- If every player sends an opening of its commitment to `len` octets, and all receive the same
  -- commitments and openings, then a player whose own octets are those that the others see returns the
  -- exclusive or of all octets, which is the same for every player.
  pub create_random_seed-xor :
      (my_num len : ℕ) (own : OctetStream) (views : List (OctetStream × OctetStream))
      (messages : List (List ℕ))
      → Sent len 0 views messages
      → my_num < length messages
      → get_elem? messages my_num ≡ some (content own)
      → create_random_seed hash seed_size my_num own len views
        ≡ ok (xor_all (replicate len 0) messages)
  unfolding create_random_seed
  create_random_seed-xor my_num len own views messages s within mine =
      loop-xor s my_num own (replicate len 0) (length-replicate len 0)
        (λ k h b. ap (get_elem? messages) {x = k} {y = my_num} (omega (arith, h)) ∙ mine)
