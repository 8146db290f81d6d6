-- ===== src/Sim.antt =====
-- The headless simulation of one board: core/rng.h, core/hash.h, core/input.h, src/sim_grid.h,
-- src/sim_block.h, src/sim_blocks.h and src/sim_game.cpp, a child module for each.
pub mod Rng
pub mod Replay
pub mod Hash
pub mod Grid
pub mod Block
pub mod Game
