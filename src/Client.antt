-- ===== src/Client.antt =====
-- internal/client: the encryption state of chat rooms.
pub mod RoomCrypto
