-- ===== src/Tools/Commit.antt =====
-- `Commit` and `Open` of Tools/Commit.cpp: commitments by a hash of the player, the message and random
-- octets. The hash of libsodium and the random octets are parameters.
pub mod Opening
pub mod Binding
use spdz_yao.Base.{
  ℕ, zero, suc, ◌+◌, ◌-◌, ◌*◌, ◌%◌, ◌^◌, Bool, true, false, not, ◌&&◌, ◌==◌, ltb, if◌then◌else◌,
  List, [], ◌∷◌, length, take, drop, Result, ok, err, ◌>>=◌, fault,
}
use spdz_yao.Tools.OctetStream.{
  OctetStream, size_mod, append, append_no_resize, store_int, resize, reset_write_head,
}
use spdz_yao.Tools.OctetStream.Content.{content}

-- `append_random(num)`, with the octets that the generator gives.
unfoldable pub append_random : List ℕ → OctetStream → Result OctetStream
append_random random os = append_no_resize random (resize (os.len + length random) os)

-- `equals`, on what the streams hold.
unfoldable pub same_octets : List ℕ → List ℕ → Bool
same_octets [] [] = true
same_octets [] (y ∷ ys) = false
same_octets (x ∷ xs) [] = false
same_octets (x ∷ xs) (y ∷ ys) = x == y && same_octets xs ys

unfoldable pub stream_equals : OctetStream → OctetStream → Bool
unfolding same_octets content
stream_equals a b = same_octets (content a) (content b)

-- `BYTES_TO_INT` of Tools/int.h. Fewer than four octets of buffer are read out of bounds.
unfoldable pub bytes_to_int : List ℕ → Result ℕ
bytes_to_int (a ∷ b ∷ c ∷ d ∷ rest) = ok (a + 256 * b + 65536 * c + 16777216 * d)
bytes_to_int _ = err fault

-- `memcpy` of `l` octets of a buffer from `start` on.
unfoldable pub octets_from : ℕ → ℕ → List ℕ → Result (List ℕ)
octets_from start l octets =
    if ltb (length octets) (start + l) then err fault else ok (take l (drop start octets))

module _ (hash : List ℕ → List ℕ) where
  -- `octetStream::hash()`.
  unfoldable pub hash_stream : OctetStream → OctetStream
  unfolding content
  hash_stream os =
      let digest = hash (content os) in record { octets = digest; len = length digest; ptr = 0 }

  -- `Commit(comm, open, message, send_player)`; returns `comm` and `open`.
  unfoldable pub commit :
      List ℕ → OctetStream → OctetStream → ℕ → Result (OctetStream × OctetStream)
  unfolding append_random hash_stream content
  commit random opening message send_player = do
    with_player ← store_int send_player 4 opening
    with_message ← append (content message) with_player
    with_random ← append_random random with_message
    ok (hash_stream with_random, with_random)

  -- The message between the player's four octets and the random ones; `size_t` wraps around.
  unfoldable pub take_message : ℕ → OctetStream → OctetStream → Result (Bool × OctetStream)
  unfolding octets_from
  take_message seed_size message opening = do
    xs ← octets_from 4 ((opening.len + size_mod - (seed_size + 4)) % size_mod) opening.octets
    message' ← append xs (reset_write_head message)
    ok (true, message')

  -- `Open(message, comm, open, send_player)`; returns the answer and `message`.
  unfoldable pub open_commitment :
      ℕ → OctetStream → OctetStream → OctetStream → ℕ → Result (Bool × OctetStream)
  unfolding hash_stream stream_equals bytes_to_int take_message
  open_commitment seed_size message comm opening send_player = do
    open_player ← bytes_to_int opening.octets
    if not (stream_equals (hash_stream opening) comm && open_player == send_player)
        then ok (false, message)
        else take_message seed_size message opening
