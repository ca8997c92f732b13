-- ===== src/Yao/Primitives.antt =====
-- What the two parties use of Tools/random.h and Tools/MMO.h. Nothing is assumed of either.
use spdz_yao.Base.{Bool}
use spdz_yao.Key.{Key}

-- `PRNG::get_doubleword`, `PRNG::get_bit` and `MMO::hash`.
pub record Primitives : Type 1 where
  pub Prng : Type 0
  pub get_doubleword : Prng → Key × Prng
  pub get_bit : Prng → Bool × Prng
  pub hash : Key → Key
