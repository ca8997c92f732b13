-- ===== src/Auth/Seeds.antt =====
-- `Create_Random_Seed` of Auth/Subroutines.cpp: every player commits to octets, all open them, and the
-- seed is their exclusive or. The network is a parameter: `views` are the commitments and the openings
-- that the two broadcasts leave with a player.
pub mod Agreement
use spdz_yao.Base.{
  ℕ, suc, ◌==◌, if◌then◌else◌, bit_xor, List, [], ◌∷◌, ◌++◌, replicate, Result, ok, err, ◌>>=◌,
  fault, invalid_commitment,
}
use spdz_yao.Tools.OctetStream.{OctetStream, empty_stream}
use spdz_yao.Tools.Commit.{open_commitment}

-- The loop on `j`: `seed[j]^e[i].get_data()[j]`.
unfoldable pub xor_octets : List ℕ → List ℕ → Result (List ℕ)
xor_octets [] octets = ok []
xor_octets (s ∷ seed) [] = err fault
xor_octets (s ∷ seed) (x ∷ octets) = do rest ← xor_octets seed octets; ok (bit_xor s x ∷ rest)

module _ (hash : List ℕ → List ℕ) (seed_size : ℕ) where
  -- `e[i]`: the own octets, or those that player `i` has committed to.
  unfoldable pub octets_of : ℕ → OctetStream → ℕ → OctetStream → OctetStream → Result OctetStream
  unfolding open_commitment
  octets_of my_num own i comm opening =
      let opened = open_commitment hash seed_size empty_stream comm opening i in
      if i == my_num
      then ok own
      else (do (accepted, e) ← opened; if accepted then ok e else err invalid_commitment)

  -- The loop on the players from `i` on.
  unfoldable pub seed_loop :
      ℕ → OctetStream → ℕ → List ℕ → List (OctetStream × OctetStream) → Result (List ℕ)
  unfolding octets_of xor_octets
  seed_loop my_num own i seed [] = ok seed
  seed_loop my_num own i seed ((comm, opening) ∷ views) = do
    e ← octets_of my_num own i comm opening
    seed' ← xor_octets seed e.octets
    seed_loop my_num own (suc i) seed' views

  unfoldable pub create_random_seed :
      ℕ → OctetStream → ℕ → List (OctetStream × OctetStream) → Result (List ℕ)
  unfolding seed_loop
  create_random_seed my_num own len views = seed_loop my_num own 0 (replicate len 0) views
