-- ===== src/Oscar.antt =====
-- internal/oscar: the client's side of the OSCAR protocol.
pub mod RateLimit
pub mod Feedbag
