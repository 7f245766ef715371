-- ===== src/Mydb.antt =====
-- The parts of mydb/ that move bytes.
pub mod DataFormat
pub mod Buf
pub mod Protocol
