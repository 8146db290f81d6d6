-- ===== src/Server.antt =====
-- The parts of server/ that keep state for the connections.
pub mod TimerQueue
pub mod Relay
pub mod Lobby
pub mod Admission
pub mod Reactor
pub mod Room
pub mod Matchmaker
