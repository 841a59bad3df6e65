-- ===== src/E2ee.antt =====
-- internal/e2ee: the message chains and their text form.
pub mod Crypto
pub mod Ratchet
pub mod ChainCodec
pub mod Stamp
pub mod RoomSign
pub mod RoomChain
pub mod RoomKey
pub mod Roster
pub mod Devices
