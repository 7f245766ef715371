-- ===== src/Rank.antt =====
-- The ranking server rank/.
pub mod Core
