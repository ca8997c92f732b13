-- ===== src/Ot/BitVector/Streams.antt =====
-- Vectors of OT/BitVector.h on a stream: the octets travel, the number of bits does not.
use spdz_yao.Tools.OctetStream.{OctetStream}
use spdz_yao.Ot.BitVector.{BitVector}
