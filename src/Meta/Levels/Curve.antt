-- ===== src/Meta/Levels/Curve.antt =====
-- The curve of meta/levels.h: the level of a number of points, and the progress in it.
use tetris_multiplayer_rl.Meta.Levels.{
  xp_to_next, level_progress, k_max_level, level_loop, total_xp_for_level, level_for_xp,
}
use tetris_multiplayer_rl.Common.Int.{pos, ◌-ℤ◌}
use tetris_multiplayer_rl.Common.{
  ltb, leb, ltb→lt, Bool-cases, if_true, if_false, ℕ, zero, suc, ◌+◌, ◌-◌, ◌≤◌, ◌<◌, ◌≡◌, refl, ap,
  ◌∙◌, ◌⊎◌, inl, inr, true, false, arith,
}

-- A level holds the points from its total up to the total of the next one.
unfoldable pub IsLevelFor : ℕ → ℕ → Type 0
IsLevelFor xp level =
    (1 ≤ level)
    × (level ≤ k_max_level)
    × (total_xp_for_level level ≤ xp)
    × ((level < k_max_level) → xp < total_xp_for_level (level + 1))

total_step : (k : ℕ) → total_xp_for_level (k + 2) ≡ total_xp_for_level (k + 1) + xp_to_next (k + 1)
unfolding total_xp_for_level xp_to_next
total_step zero = refl
total_step (suc k) =
    let a : suc k + 2 - 1 ≡ k + 2 = omega arith in
    let b : suc k + 1 - 1 ≡ k + 1 = omega arith in
    let c : k + 2 - 1 ≡ k + 1 = omega arith in
    let d : k + 1 - 1 ≡ k = omega arith in rw (a, b, c, d) (omega arith)

-- The loop keeps a level whose total is reached, and stops at the first whose next one is not.
level_loop_lem :
    (fuel xp level : ℕ)
    → 1 ≤ level
    → level ≤ k_max_level
    → k_max_level ≤ level + fuel
    → total_xp_for_level level ≤ xp
    → IsLevelFor xp (level_loop fuel xp level)
unfolding level_loop IsLevelFor
level_loop_lem zero xp level low high enough reached =
    (low, high, reached, λ below. absurd (omega arith))
level_loop_lem (suc fuel) xp level low high enough reached =
    elim (Bool-cases (ltb level k_max_level)) [
      | inr top ↦ rw top (low, high, reached, λ below. absurd (ground (arith, top)))
      | inl below ↦ elim (Bool-cases (leb (total_xp_for_level (level + 1)) xp)) [
        | inl more ↦
            let next =
              level_loop_lem fuel xp (level + 1) (omega arith) (ground (arith, below)) (omega arith)
                (ground (arith, more)) in
            rw (below, more) next
        | inr stop ↦ rw (below, stop) (low, high, reached, λ _. ground (arith, stop))
      ]
    ]

level_of_points : (xp : ℕ) → level_for_xp (pos xp) ≡ level_loop k_max_level xp 1
unfolding level_for_xp
level_of_points xp = let positive : ltb (xp + 0) 0 ≡ false = ground arith in rw positive refl

-- For every number of points from 0 up the level is between 1 and 60, its total is reached, and
-- below level 60 the total of the next one is not.
pub level_for_xp_lem : (xp : ℕ) → IsLevelFor xp (level_for_xp (pos xp))
unfolding total_xp_for_level
level_for_xp_lem xp =
    rw level_of_points
      (level_loop_lem k_max_level xp 1 (omega arith) (omega arith) (omega arith) (omega arith))

total_up : (k d : ℕ) → total_xp_for_level (k + 1) ≤ total_xp_for_level (k + 1 + d)
total_up k zero = let e : k + 1 + 0 ≡ k + 1 = omega arith in rw e (omega arith)
total_up k (suc d) =
    let a : k + 1 + d ≡ k + d + 1 = omega arith in
    let b : k + 1 + suc d ≡ k + d + 2 = omega arith in
    rw b (omega (arith, total_up k d, ap total_xp_for_level a, total_step (k + d)))

total_mono : (n m : ℕ) → 1 ≤ n → n ≤ m → total_xp_for_level n ≤ total_xp_for_level m
total_mono n m low h =
    let a : n - 1 + 1 ≡ n = omega arith in
    let b : n - 1 + 1 + (m - n) ≡ m = omega arith in
    omega (arith, total_up (n - 1) (m - n), ap total_xp_for_level a, ap total_xp_for_level b)

-- More points never give a lower level.
pub level_for_xp_mono : (xp more : ℕ) → xp ≤ more → level_for_xp (pos xp) ≤ level_for_xp (pos more)
unfolding IsLevelFor
level_for_xp_mono xp more h =
    let (low, high, reached, next) = level_for_xp_lem xp in
    let (low', high', reached', next') = level_for_xp_lem more in
    elim (Bool-cases (ltb (level_for_xp (pos more)) (level_for_xp (pos xp)))) [
      | inr fine ↦ ground (arith, fine)
      | inl under ↦
          let lt = ltb→lt (level_for_xp (pos more)) (level_for_xp (pos xp)) under in
          let up =
            total_mono (level_for_xp (pos more) + 1) (level_for_xp (pos xp)) (omega arith)
              (omega (arith, lt)) in
          absurd (omega (arith, up, next' (omega (arith, lt, high)), reached, h))
    ]

points_over : (xp t : ℕ) → t ≤ xp → pos xp -ℤ pos t ≡ pos (xp - t)
unfolding ◌-ℤ◌
points_over xp t h =
    let a : xp + 0 ≡ xp = omega arith in
    let b : 0 + t ≡ t = omega arith in
    let c : leb t xp ≡ true = ground (arith, h) in rw (a, b, c) refl

-- For every number of points from 0 up the progress is 0 of 0 at level 60; below it, the points
-- over the level's total, which are fewer than the next level needs.
pub level_progress_lem :
    (xp : ℕ)
    → (level_for_xp (pos xp) ≡ k_max_level) × (level_progress (pos xp) ≡ (pos 0, pos 0))
      ⊎ ((into : ℕ) × (level_progress (pos xp)
            ≡ (pos into, pos (xp_to_next (level_for_xp (pos xp)))))
          × (level_for_xp (pos xp) < k_max_level)
          × (total_xp_for_level (level_for_xp (pos xp)) + into ≡ xp)
          × (into < xp_to_next (level_for_xp (pos xp))))
unfolding level_progress IsLevelFor
level_progress_lem xp =
    let level = level_for_xp (pos xp) in
    let (low, high, reached, next) = level_for_xp_lem xp in
    elim (Bool-cases (leb k_max_level level)) [
      | inl top ↦ inl (ground (arith, top, high), if_true _ _ top)
      | inr below ↦
          let lt : level < k_max_level = ground (arith, below) in
          let a : level - 1 + 1 ≡ level = omega arith in
          let b : level - 1 + 2 ≡ level + 1 = omega arith in
          let step = total_step (level - 1) in
          inr (
            xp - total_xp_for_level level,
            if_false _ _ below
                ∙ ap (λ x. (x, pos (xp_to_next level)))
                    (points_over xp (total_xp_for_level level) reached),
            lt,
            omega (arith, reached),
            omega (
              arith,
              reached,
              next lt,
              step,
              ap total_xp_for_level a,
              ap total_xp_for_level b,
              ap xp_to_next a,
            ),
          )
    ]
