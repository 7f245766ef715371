-- ===== src/Xy3.antt =====
-- The game server cs/my_xy3/.
pub mod DataBuf
