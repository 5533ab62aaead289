-- ===== src/Pack.antt =====
-- value/pack.h and value/pack.c: the wire format of a snapshot.
pub mod Varint
pub mod Buffer
pub mod Encode
pub mod Decode
