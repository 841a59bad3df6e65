-- ===== src/App.antt =====
-- The application's own files: what it does with a client, a store and the disk.
pub mod KeyDir
pub mod Members
