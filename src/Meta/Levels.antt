-- ===== src/Meta/Levels.antt =====
-- meta/levels.h: from experience points to a level. Points that are negative are a case of ℤ; all
-- other numbers of the source are positive and small.
pub mod Curve
mod Tests
use tetris_multiplayer_rl.Common.Int.{ℤ, pos, pos_part, ◌-ℤ◌, ltb_ℤ}
use tetris_multiplayer_rl.Common.Int.{pos_part, pos, ltb_ℤ, ℤ}
use tetris_multiplayer_rl.Common.{ltb, leb, if◌then◌else◌, ℕ, zero, suc, ◌+◌, ◌-◌, ◌*◌, ◌&&◌}

abbrev pub k_max_level : ℕ
k_max_level = 60

-- For levels from 1 up.
unfoldable pub xp_to_next : ℕ → ℕ
xp_to_next level = 100 + 20 * (level - 1)

-- For levels from 1 up: `k` is `level - 1`, and `k * (k - 1)` is 0 for the first.
unfoldable pub total_xp_for_level : ℕ → ℕ
total_xp_for_level level = let k = level - 1 in 100 * k + 10 * k * (k - 1)

-- The loop, which counts the level up to the largest at most.
unfoldable pub level_loop : ℕ → ℕ → ℕ → ℕ
level_loop zero xp level = level
level_loop (suc fuel) xp level =
    let next = level_loop fuel xp (level + 1) in
    if ltb level k_max_level && leb (total_xp_for_level (level + 1)) xp then next else level

unfoldable pub level_for_xp : ℤ → ℕ
level_for_xp xp = level_loop k_max_level (if ltb_ℤ xp (pos 0) then 0 else pos_part xp) 1

-- The points into the level, and those that the next one needs. Where the points are negative the
-- source gives a negative number.
unfoldable pub level_progress : ℤ → ℤ × ℤ
level_progress xp =
    let level = level_for_xp xp in
    if leb k_max_level level
    then (pos 0, pos 0)
    else (xp -ℤ pos (total_xp_for_level level), pos (xp_to_next level))
