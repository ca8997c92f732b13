-- ===== src/Tools.antt =====
-- Tools/ and Networking/data.h: serialisation into octets.
pub mod Length
pub mod OctetStream
pub mod FlexBuffer
pub mod WaitQueue
pub mod Commit
