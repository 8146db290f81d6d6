-- ===== src/Server/TimerQueue/Tests.antt =====
-- Runs of server/timer_queue.h, and its theorems on concrete queues.
use tetris_multiplayer_rl.Common.Int.{pos}
use tetris_multiplayer_rl.Server.TimerQueue.Arm.{arm_lem}
use tetris_multiplayer_rl.Server.TimerQueue.Expired.{expired_lem, remaining, firings, count}
use tetris_multiplayer_rl.Server.TimerQueue.Deadlines.{deadline, IsValid}
use tetris_multiplayer_rl.Server.TimerQueue.{
  wait_ms, timeout_of, no_timers, prune_heap, is_live, push, expired_loop, cancel, prune_stale, arm,
  TimerQueue, timeout_ms, expired,
}
use tetris_multiplayer_rl.Common.{◌==◌, ℕ, ◌≡◌, refl, false, some, List, [], ◌∷◌, ◌++◌, arith}

-- Token 7 is armed twice: its first entry is stale.
abbrev rearmed : TimerQueue
rearmed = record {
  heap =
      record { when = 50; token = 7; seq = 1 }
      ∷ record { when = 60; token = 8; seq = 2 }
      ∷ record { when = 5000000; token = 7; seq = 3 }
      ∷ [];
  live = (7, 3) ∷ (8, 2) ∷ [];
  next_seq = 3;
}

rearmed_run : arm 7 5000000 (arm 8 60 (arm 7 50 no_timers)) ≡ rearmed
unfolding arm push
rearmed_run = refl

fired_run : expired 100 rearmed [] ≡ (
  record {
    heap = record { when = 5000000; token = 7; seq = 3 } ∷ [];
    live = (7, 3) ∷ [];
    next_seq = 3;
  },
  8 ∷ [],
)
unfolding expired expired_loop is_live
fired_run = refl

wait_run : (timeout_ms 100 (cancel 8 rearmed)).0 ≡ pos 4
unfolding timeout_ms prune_stale prune_heap is_live cancel timeout_of wait_ms
wait_run = refl

rearmed-IsValid : IsValid rearmed
rearmed-IsValid = record {
  sorted = ((omega arith, (omega arith, tt)), ((omega arith, tt), (tt, tt)));
  past = (omega arith, (omega arith, (omega arith, tt)));
}

arm_lem_example :
    IsValid (arm 8 70 rearmed)
    × (deadline (arm 8 70 rearmed) 8 ≡ some 70)
    × ((other : ℕ)
        → (8 == other) ≡ false
        → deadline (arm 8 70 rearmed) other ≡ deadline rearmed other)
arm_lem_example = arm_lem 8 70 rearmed rearmed-IsValid (omega arith)

expired_lem_example :
    (q' : TimerQueue) × (fired : List ℕ) × (expired 100 rearmed [] ≡ (q', [] ++ fired))
    × IsValid q'
    × ((token : ℕ)
        → (count token fired ≡ firings 100 (deadline rearmed token))
          × (deadline q' token ≡ remaining 100 (deadline rearmed token)))
expired_lem_example = expired_lem 100 rearmed [] rearmed-IsValid
