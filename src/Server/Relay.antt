-- ===== src/Server/Relay.antt =====
-- server/relay.cpp: the relay between the two clients of a match.
pub mod Filter
pub mod Result
pub mod Ranked
pub mod Looping
pub mod History
pub mod Once
pub mod Winner
pub mod Summaries
pub mod Answers
mod Tests
