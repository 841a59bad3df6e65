-- ===== src/Tests.antt =====
-- Concrete runs of the models, and the properties at concrete inputs.
mod Toy
mod Chains
mod Rooms
mod Members
mod History
mod Views
mod Pace
mod Rows
mod Codec
mod Directory
mod Membership
mod Threads
