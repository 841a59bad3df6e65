-- ===== src/Text.antt =====
-- The parts of Go's text packages that the program calls: encoding/base64 and ASCII strings.
pub mod Ascii
pub mod Base64
pub mod Hex
pub mod Uint
pub mod Order
