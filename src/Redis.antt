-- ===== src/Redis.antt =====
-- What the program keeps in Redis.
pub mod RateLimit
