-- ===== src/Math.antt =====
-- Math/: the shares of Math/Share.h over any type of values. The children are the components.
pub mod Value
pub mod Share
pub mod Limbs
pub mod Congruence
pub mod Mpn
pub mod ZpData
pub mod Modp
pub mod Integer
pub mod Gfp
