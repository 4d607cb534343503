-- ===== src/Encoding.antt =====
-- tap-primitives/src/encoding: BigSize numbers and TLV streams.
pub mod BigSize
pub mod Tlv
