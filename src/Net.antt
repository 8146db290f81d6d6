-- ===== src/Net.antt =====
-- The frames of net/framing.h and net/framing.cpp, which both peers and the relay read and write,
-- and the session of net/session.cpp, one peer's side of a match.
pub mod Framing
pub mod Session
