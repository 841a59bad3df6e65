-- ===== src/Wire.antt =====
-- internal/wire: the values that OSCAR messages are made of.
pub mod Tlv
pub mod Codec
pub mod Manifest
