-- ===== src/Meta.antt =====
-- The parts of meta/ that the server and the client share.
pub mod Levels
