-- ===== src/Server/TimerQueue/Timeout.antt =====
-- `timeout_ms` and `empty` of server/timer_queue.h on the deadlines.
use tetris_multiplayer_rl.Server.TimerQueue.Deadlines.{deadline}
use tetris_multiplayer_rl.Common.Int.{ℤ, negsuc}
use tetris_multiplayer_rl.Server.TimerQueue.{wait_ms, is_live, TimerQueue, Entry}
use tetris_multiplayer_rl.Common.{ℕ, ◌≤◌, ◌≡◌, true, Option, none, some, List, [], ◌∷◌}

-- The front of a pruned heap is of a live generation.
data Front (live : List (ℕ × ℕ)) : List Entry → Type 0 where
  bare : Front live []
  alive : (e : Entry) (heap : List Entry) → is_live live e ≡ true → Front live (e ∷ heap)

-- The earliest deadline of all tokens, if there is one.
pub Earliest : TimerQueue → Option ℕ → Type 0
Earliest q none = (token : ℕ) → deadline q token ≡ none
Earliest q (some when) =
    ((token : ℕ) × (deadline q token ≡ some when))
    × ((token other : ℕ) → deadline q token ≡ some other → when ≤ other)

-- The wait that the event loop is given: without end, or the milliseconds to a deadline.
unfoldable pub wait_for : ℕ → Option ℕ → ℤ
wait_for now none = negsuc 0
wait_for now (some when) = wait_ms now when
