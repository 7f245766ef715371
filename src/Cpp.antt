-- ===== src/Cpp.antt =====
-- The parts of cpp/ that are modelled.
pub mod KvParser
