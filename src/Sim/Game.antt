-- ===== src/Sim/Game.antt =====
-- src/sim_game.h and src/sim_game.cpp: one board of the game, in the modules below.
pub mod State
pub mod Lock
pub mod Moves
pub mod Placement
pub mod Placing
pub mod Hashing
pub mod Garbage
pub mod Fall
pub mod Valid
pub mod Spawning
pub mod Locking
pub mod Safety
pub mod Steps
pub mod Faults
pub mod Start
mod Tests
