-- ===== src/Tools/Commit/Opening.antt =====
-- Commitments of Tools/Commit.cpp, made and opened.
use spdz_yao.Base.{
  ℕ, ◌+◌, ◌-◌, ◌%◌, ◌^◌, ◌<◌, ◌≡◌, ◌≢◌, refl, sym, ap, ap₂, ◌∙◌, Bool, true, false, not, ◌&&◌, ◌==◌,
  ==_iff, ltb, if◌then◌else◌, List, [], ◌∷◌, ◌++◌, length, length-append, take, drop,
  take-append-drop, append_assoc, drop-length_append, take-length_append, Result, ok, arith,
}
use spdz_yao.Tools.Length.{encode_length, encode_from, encode_length-fits, length-encode_length}
use spdz_yao.Tools.OctetStream.{OctetStream, append, reset_write_head, size_mod}
use spdz_yao.Tools.OctetStream.Content.{content, Valid}
use spdz_yao.Tools.OctetStream.Laws.{Appended, append-Appended, Roomy-Appended, resize-Roomy}
use spdz_yao.Tools.OctetStream.Numbers.{store_int-Appended}
use spdz_yao.Tools.Commit.{
  append_random, same_octets, stream_equals, bytes_to_int, octets_from, hash_stream, commit,
  open_commitment, take_message,
}

same_octets_self : (xs : List ℕ) → same_octets xs xs ≡ true
unfolding same_octets
same_octets_self [] = refl
same_octets_self (x ∷ xs) = rw ((==_iff x x).1 refl, same_octets_self xs)

pub and_true : (a b : Bool) → (a && b) ≡ true → (a ≡ true) × (b ≡ true)
and_true true b e = (refl, e)
and_true false b e = absurd (ground arith)

pub same_octets-eq : (xs ys : List ℕ) → same_octets xs ys ≡ true → xs ≡ ys
unfolding same_octets
same_octets-eq [] [] e = refl
same_octets-eq [] (y ∷ ys) e = absurd (ground arith)
same_octets-eq (x ∷ xs) [] e = absurd (ground arith)
same_octets-eq (x ∷ xs) (y ∷ ys) e =
    let (h, k) = and_true (x == y) (same_octets xs ys) e in
    ap₂ ◌∷◌ ((==_iff x y).0 h) (same_octets-eq xs ys k)

append_random-Appended :
    (random : List ℕ) (os : OctetStream)
    → Valid os
    → os.len + length random < 2 ^ 63
    → Appended os random (append_random random os)
unfolding append_random
append_random-Appended random os valid small =
    Roomy-Appended random os _ valid
      (resize-Roomy (os.len + length random) os valid (omega arith) small)

-- The octets of a player's number.
pub player_octets : ℕ → List ℕ
unfolding encode_from
player_octets n = encode_from 4 0 n

encode_length-player : (n : ℕ) → n < 2 ^ 31 → encode_length n 4 ≡ ok (player_octets n)
unfolding player_octets
encode_length-player n h = encode_length-fits n 4 (omega arith) (omega arith)

bytes_to_int-player :
    (n : ℕ) (rest : List ℕ) → n < 2 ^ 31 → bytes_to_int (player_octets n ++ rest) ≡ ok n
unfolding player_octets bytes_to_int encode_from
bytes_to_int-player n rest h = ap ok (omega arith)

take_all : (xs : List ℕ) → take (length xs) xs ≡ xs
take_all [] = refl
take_all (x ∷ xs) = ap (λ l. x ∷ l) (take_all xs)

content_empty : (os : OctetStream) → os.len ≡ 0 → content os ≡ []
unfolding content
content_empty os e = ap (λ n. take n os.octets) e

-- A buffer is what it holds, and what is behind.
pub octets-content : (os : OctetStream) → os.octets ≡ content os ++ drop os.len os.octets
unfolding content
octets-content os = sym (take-append-drop os.len os.octets)

-- The message in the buffer of an opening.
octets_from-message :
    (p message random rest octets : List ℕ)
    → length p ≡ 4
    → octets ≡ (p ++ (message ++ random)) ++ rest
    → octets_from 4 (length message) octets ≡ ok message
unfolding octets_from
octets_from-message p message random rest octets four e =
    let whole : octets ≡ p ++ (message ++ (random ++ rest)) =
      e
      ∙ append_assoc p (message ++ random) rest
      ∙ ap (λ xs. p ++ xs) (append_assoc message random rest) in
    let fits : ltb (length octets) (4 + length message) ≡ false = ground (
      arith,
      ap length whole,
      length-append p (message ++ (random ++ rest)),
      length-append message (random ++ rest),
      four,
    ) in
    let found : take (length message) (drop 4 octets) ≡ message =
      ap (λ n. take (length message) (drop n octets)) (sym four)
      ∙ ap (λ xs. take (length message) (drop (length p) xs)) whole
      ∙ ap (take (length message)) (drop-length_append p (message ++ (random ++ rest)))
      ∙ take-length_append message (random ++ rest) in
    rw (fits, found) refl

-- Writing to a stream from its start.
pub reset-Appended :
    (xs : List ℕ) (os : OctetStream)
    → length xs < 2 ^ 63
    → (os' : OctetStream) × (append xs (reset_write_head os) ≡ ok os') × (content os' ≡ xs)
unfolding reset_write_head
reset-Appended xs os small =
    let a = append-Appended xs (reset_write_head os) (omega arith, omega arith) (omega arith) in
    (a.os', a.succeeds, a.written ∙ ap (λ ys. ys ++ xs) (content_empty (reset_write_head os) refl))

module _ (hash : List ℕ → List ℕ) where
  -- What a commitment is made of.
  record Committed (random : List ℕ) (message : OctetStream) (player : ℕ)
      (r : Result (OctetStream × OctetStream)) : Type 0 where
    opening : OctetStream
    succeeds : r ≡ ok (hash_stream hash opening, opening)
    holds : content opening ≡ player_octets player ++ (content message ++ random)
    valid : Valid opening
    size : opening.len ≡ 4 + length (content message) + length random

  commit-Committed :
      (random : List ℕ) (os message : OctetStream) (player : ℕ)
      → Valid os
      → os.len ≡ 0
      → player < 2 ^ 31
      → 4 + length (content message) + length random < 2 ^ 63
      → Committed random message player (commit hash random os message player)
  unfolding commit
  commit-Committed random os message player valid empty p small =
      let l = length-encode_length player 4 (encode_length-player player p) in
      let a =
        store_int-Appended player 4 os (player_octets player) valid (omega (arith, empty))
          (encode_length-player player p) in
      let b =
        append-Appended (content message) a.os' a.valid (omega (arith, a.len_more, l, empty)) in
      let c =
        append_random-Appended random b.os' b.valid
          (omega (arith, a.len_more, b.len_more, l, empty)) in
      record {
        opening = c.os';
        succeeds = rw (a.succeeds, b.succeeds, c.succeeds) refl;
        holds =
            c.written
            ∙ ap (λ xs. xs ++ random)
                (b.written
                  ∙ ap (λ xs. xs ++ content message)
                      (a.written ∙ ap (λ xs. xs ++ player_octets player) (content_empty os empty)))
            ∙ append_assoc (player_octets player) (content message) random;
        valid = c.valid;
        size = omega (arith, a.len_more, b.len_more, c.len_more, l, empty);
      }

  pub content-hash_stream : (os : OctetStream) → content (hash_stream hash os) ≡ hash (content os)
  unfolding content hash_stream
  content-hash_stream os = take_all (hash (content os))

  take_message-lem :
      (seed_size : ℕ) (into opening : OctetStream) (p message random : List ℕ)
      → length p ≡ 4
      → length random ≡ seed_size
      → length message < 2 ^ 63
      → opening.len ≡ 4 + length message + length random
      → content opening ≡ p ++ (message ++ random)
      → (os' : OctetStream) × (take_message hash seed_size into opening ≡ ok (true, os'))
        × (content os' ≡ message)
  unfolding take_message
  take_message-lem seed_size into opening p message random four seed small size holds =
      let n : (opening.len + size_mod - (seed_size + 4)) % size_mod ≡ length message =
        omega arith in
      let found =
        octets_from-message p message random (drop opening.len opening.octets) opening.octets four
          (octets-content opening ∙ ap (λ xs. xs ++ drop opening.len opening.octets) holds) in
      let (os', appends, same) = reset-Appended message into small in
      (os', rw (n, found, appends) refl, same)

  -- `Open` of what `Commit` returned for a message, by way of the hash that it sent, answers whether
  -- the player is the one that committed, and gives the message then; this is for fresh openings of
  -- fewer than 2^63 octets, as many random octets as SEED_SIZE, and players below 2^31.
  pub open-commit :
      (seed_size : ℕ) (random : List ℕ) (os into message : OctetStream) (player other : ℕ)
      → Valid os
      → os.len ≡ 0
      → player < 2 ^ 31
      → length random ≡ seed_size
      → 4 + length (content message) + length random < 2 ^ 63
      → (comm : OctetStream) × (opening : OctetStream) × (commit hash random os message player
          ≡ ok (comm, opening))
        × (player ≢ other
            → open_commitment hash seed_size into comm opening other ≡ ok (false, into))
        × (os' : OctetStream) × (open_commitment hash seed_size into comm opening player
            ≡ ok (true, os'))
        × (content os' ≡ content message)
  unfolding open_commitment stream_equals
  open-commit seed_size random os into message player other valid empty p seed small =
      let c = commit-Committed random os message player valid empty p small in
      let l = length-encode_length player 4 (encode_length-player player p) in
      let (os', takes, same) =
        take_message-lem seed_size into c.opening (player_octets player) (content message) random l
          seed (omega arith) c.size c.holds in
      let reads : bytes_to_int c.opening.octets ≡ ok player =
        ap bytes_to_int (
          octets-content c.opening
          ∙ ap (λ xs. xs ++ drop c.opening.len c.opening.octets) c.holds
          ∙ append_assoc (player_octets player) (content message ++ random)
              (drop c.opening.len c.opening.octets))
        ∙ bytes_to_int-player player _ p in
      let own = same_octets_self (content (hash_stream hash c.opening)) in
      (
        hash_stream hash c.opening,
        c.opening,
        c.succeeds,
        (λ ne. rw (reads, own) (other_player player other _ ne)),
        os',
        rw (reads, own) (same_player player takes),
        same,
      )
    where
      same_player :
          (n : ℕ) {r : Result (Bool × OctetStream)} {x : Bool × OctetStream}
          → r ≡ ok x
          → (if not (true && n == n) then ok (false, into) else r) ≡ ok x
      same_player n e = rw ((==_iff n n).1 refl) e

      other_player :
          (n k : ℕ) (r : Result (Bool × OctetStream))
          → n ≢ k
          → (if not (true && n == k) then ok (false, into) else r) ≡ ok (false, into)
      other_player n k r ne = ground arith
