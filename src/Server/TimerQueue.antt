-- ===== src/Server/TimerQueue.antt =====
-- server/timer_queue.h: the deadlines of the event loop, a heap with lazy removal. A token is a
-- number, a time point a count of nanoseconds. The heap is the list of its entries in the order in
-- which they leave it: entries of one time leave it in any order in the source, and here the one
-- that came first does.
pub mod Deadlines
pub mod Arm
pub mod Expired
pub mod Timeout
mod Tests
use tetris_multiplayer_rl.Common.Assoc.{find, erase, insert}
use tetris_multiplayer_rl.Common.Int.{ℤ, pos, negsuc}
use tetris_multiplayer_rl.Common.{
  ltb, leb, ◌==◌, if◌then◌else◌, u64, ℕ, ◌+◌, ◌-◌, ◌/◌, Bool, true, false, none, some, List, [],
  ◌∷◌, ◌++◌,
}

pub record Entry : Type 0 where
  pub when : ℕ
  pub token : ℕ
  pub seq : ℕ

pub record TimerQueue : Type 0 where
  pub heap : List Entry
  pub live : List (ℕ × ℕ)
  pub next_seq : ℕ

abbrev pub no_timers : TimerQueue
no_timers = record { heap = []; live = []; next_seq = 0 }

-- `heap_.push`.
unfoldable pub push : Entry → List Entry → List Entry
push e [] = e ∷ []
push e (x ∷ heap) = let rest = push e heap in if ltb e.when x.when then e ∷ x ∷ heap else x ∷ rest

unfoldable pub arm : ℕ → ℕ → TimerQueue → TimerQueue
arm token when q =
    let seq = u64 (q.next_seq + 1) in
    record {
      heap = push (record { when = when; token = token; seq = seq }) q.heap;
      live = insert token seq q.live;
      next_seq = seq;
    }

unfoldable pub cancel : ℕ → TimerQueue → TimerQueue
cancel token q = record q { live = erase token q.live }

-- The test of an entry against the live generation of its token.
unfoldable pub is_live : List (ℕ × ℕ) → Entry → Bool
is_live live e = elim (find e.token live) [ none ↦ false | some seq ↦ seq == e.seq ]

unfoldable pub prune_heap : List (ℕ × ℕ) → List Entry → List Entry
prune_heap live [] = []
prune_heap live (e ∷ heap) =
    let rest = prune_heap live heap in if is_live live e then e ∷ heap else rest

unfoldable pub prune_stale : TimerQueue → TimerQueue
prune_stale q = record q { heap = prune_heap q.live q.heap }

abbrev pub ns_per_ms : ℕ
ns_per_ms = 1000000

-- The milliseconds to an earliest deadline, cut off at the ends.
unfoldable pub wait_ms : ℕ → ℕ → ℤ
wait_ms now when =
    if ltb when now
    then pos 0
    else if ltb 0x3fffffff ((when - now) / ns_per_ms)
    then pos 0x3fffffff
    else pos ((when - now) / ns_per_ms)

unfoldable pub timeout_of : ℕ → List Entry → ℤ
timeout_of now [] = negsuc 0
timeout_of now (e ∷ heap) = wait_ms now e.when

unfoldable pub timeout_ms : ℕ → TimerQueue → ℤ × TimerQueue
timeout_ms now q = let pruned = prune_stale q in (timeout_of now pruned.heap, pruned)

unfoldable pub empty : TimerQueue → Bool × TimerQueue
empty q = let pruned = prune_stale q in (elim pruned.heap [ [] ↦ true | e ∷ heap ↦ false ], pruned)

-- The loop of `expired`: the heap and the live generations that are left, and the tokens.
unfoldable pub expired_loop :
    ℕ → List Entry → List (ℕ × ℕ) → List ℕ → List Entry × List (ℕ × ℕ) × List ℕ
expired_loop now [] live out = ([], live, out)
expired_loop now (e ∷ heap) live out =
    let next = expired_loop now heap in
    if leb e.when now
    then (if is_live live e then next (erase e.token live) (out ++ e.token ∷ []) else next live out)
    else (e ∷ heap, live, out)

unfoldable pub expired : ℕ → TimerQueue → List ℕ → TimerQueue × List ℕ
expired now q out =
    let (heap, live, fired) = expired_loop now q.heap q.live out in
    (record q { heap = heap; live = live }, fired)
