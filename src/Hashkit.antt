-- ===== src/Hashkit.antt =====
-- The hash functions of src/Hashkit*.cpp over the bytes of a key, and the choice of a server.
pub mod Fnv
pub mod Ketama
pub mod Crc
