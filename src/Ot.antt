-- ===== src/Ot.antt =====
-- OT/: the oblivious transfers. So far the vectors of bits.
pub mod BitVector
