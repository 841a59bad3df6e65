-- ===== src/State.antt =====
-- internal/state: what the application knows of people, conversations and rooms.
pub mod ScreenName
pub mod Message
pub mod Conversations
pub mod Rooms
pub mod Pending
pub mod Buddies
