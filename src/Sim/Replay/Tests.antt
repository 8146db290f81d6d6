-- ===== src/Sim/Replay/Tests.antt =====
-- Runs of core/replay.cpp, and its theorem on a short replay.
use tetris_multiplayer_rl.Sim.Replay.RoundTrip.{load-save}
use tetris_multiplayer_rl.Sim.Replay.{
  no_inputs, ticks_key, number, seed_key, read_ticks_key, read_seed_key, read_number, read_inputs,
  load_loop, save, ReplayData, load,
}
use tetris_multiplayer_rl.Common.{◌≡◌, refl, some, [], ◌∷◌, arith}

abbrev recorded : ReplayData
recorded = record {
  seed = 42;
  frames = record { p1 = 1; p2 = 16 } ∷ record { p1 = 0; p2 = 8 } ∷ [];
}

-- A file that ends early gives empty inputs for the ticks that are missing.
short_run :
    load (seed_key ∷ number 7 ∷ ticks_key ∷ number 2 ∷ number 0 ∷ number 3 ∷ number 300 ∷ [])
    ≡ some (record { seed = 7; frames = record { p1 = 3; p2 = 44 } ∷ no_inputs ∷ [] })
unfolding load load_loop read_inputs read_number read_seed_key read_ticks_key
short_run = refl

load-save_example : load (save recorded) ≡ some recorded
load-save_example = load-save recorded (record {
  seed = omega arith;
  ticks = omega arith;
  inputs = ((omega arith, omega arith), ((omega arith, omega arith), tt));
})
