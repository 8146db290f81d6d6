-- ===== src/Meta/Levels/Tests.antt =====
-- Runs of meta/levels.h, and its theorems at concrete points.
use tetris_multiplayer_rl.Common.Int.{pos, negsuc, ◌-ℤ◌}
use tetris_multiplayer_rl.Meta.Levels.Curve.{level_for_xp_lem, IsLevelFor}
use tetris_multiplayer_rl.Meta.Levels.{
  xp_to_next, total_xp_for_level, level_loop, level_progress, level_for_xp,
}
use tetris_multiplayer_rl.Common.{◌≡◌, refl}

level_run : level_for_xp (pos 219) ≡ 2
unfolding level_for_xp level_loop total_xp_for_level
level_run = refl

top_run : level_for_xp (pos 40120) ≡ 60
unfolding level_for_xp level_loop total_xp_for_level
top_run = refl

-- Points below zero make level 1, with the points themselves as the progress.
negative_run : level_progress (negsuc 4) ≡ (negsuc 4, pos 100)
unfolding level_progress level_for_xp level_loop total_xp_for_level xp_to_next ◌-ℤ◌
negative_run = refl

level_for_xp_lem_example : IsLevelFor 219 (level_for_xp (pos 219))
level_for_xp_lem_example = level_for_xp_lem 219
