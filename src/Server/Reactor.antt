-- ===== src/Server/Reactor.antt =====
-- The event loop of server/reactor_relay.cpp for a pair of connections that forwards an unranked
-- match: what is sent and waits, when reading stops, and when the pair is closed. A state is seen
-- from one connection, `me`; the other's events are the same with the two swapped. What a socket
-- gives, or has room for, is an argument, `none` where it fails. Times count nanoseconds, and sizes stay below
-- 2 ^ 64 when they grow.
pub mod Sound
pub mod Sending
pub mod Waiting
pub mod Draining
pub mod Screening
pub mod Forwarding
pub mod Receiving
pub mod Frees
mod Tests
use tetris_multiplayer_rl.Net.Framing.{server_reject, build_frame}
use tetris_multiplayer_rl.Common.{
  ltb, ◌==◌, if◌then◌else◌, length, take, drop, u8, ℕ, ◌+◌, ◌-◌, ◌*◌, ◌^◌, Bool, true, false, not,
  Option, none, some, List, [], ◌∷◌, ◌++◌,
}

-- The fields of `Conn` that forwarding uses. A connection that is not alive has the stage `Dead`.
pub record Conn : Type 0 where
  pub alive : Bool
  pub rx : List ℕ
  pub tx : List ℕ
  pub want_write : Bool
  pub read_paused : Bool
  pub last_activity : ℕ
  pub byte_window_start : ℕ
  pub byte_window : ℕ
  pub rate_grace_until : ℕ
  pub deadline : Option ℕ

-- The pair, with the counters of the process.
pub record Pair : Type 0 where
  pub me : Conn
  pub peer : Conn
  pub tx_total : ℕ
  pub tx_peak : ℕ
  pub tx_budget : ℕ
  pub reject_tx_budget : ℕ

abbrev pub k_idle_timeout : ℕ
k_idle_timeout = 15 * 1000000000

abbrev pub k_second : ℕ
k_second = 1000000000

abbrev pub k_max_bytes_per_second : ℕ
k_max_bytes_per_second = 64 * 1024

abbrev pub k_max_rx_bytes : ℕ
k_max_rx_bytes = 64 * 1024

abbrev pub k_send_high_water : ℕ
k_send_high_water = 64 * 1024

abbrev pub k_send_hard_cap : ℕ
k_send_hard_cap = 256 * 1024

abbrev pub k_rate_grace_after_resume : ℕ
k_rate_grace_after_resume = 3 * 1000000000

abbrev pub tx_budget_reason : ℕ
tx_budget_reason = 4

unfoldable pub swap_sides : Pair → Pair
swap_sides w = record w { me = w.peer; peer = w.me }

-- A subtraction of sizes wraps around.
unfoldable pub fetch_sub : ℕ → ℕ → ℕ
fetch_sub total n = if ltb total n then total + 2 ^ 64 - n else total - n

-- What a socket with this much room takes of so many bytes.
unfoldable pub room_for : ℕ → ℕ → ℕ
room_for room len = if ltb len room then len else room

-- The reason and the text, cut at 255 bytes.
unfoldable pub build_reject : ℕ → List ℕ → List ℕ
build_reject reason text =
    let n = if ltb 255 (length text) then 255 else length text in
    build_frame server_reject (reason ∷ u8 n ∷ take n text)

-- The text "server memory budget exhausted".
abbrev pub budget_text : List ℕ
budget_text =
    115 ∷ 101 ∷ 114 ∷ 118 ∷ 101 ∷ 114 ∷ 32 ∷ 109 ∷ 101 ∷ 109 ∷ 111 ∷ 114 ∷ 121 ∷ 32 ∷ 98 ∷ 117 ∷ 100
    ∷ 103 ∷ 101 ∷ 116 ∷ 32 ∷ 101 ∷ 120 ∷ 104 ∷ 97 ∷ 117 ∷ 115 ∷ 116 ∷ 101 ∷ 100 ∷ []

-- What a connection that may read again is given.
unfoldable pub resume : ℕ → Conn → Conn
resume now src = record src {
  read_paused = false;
  last_activity = now;
  byte_window_start = now;
  byte_window = 0;
  rate_grace_until = now + k_rate_grace_after_resume;
  deadline = some (now + k_idle_timeout);
}

-- `pause_peer_read` for `me`: the one who sends to it is the other one.
unfoldable pub pause_peer_read : ℕ → Bool → Pair → Pair
unfolding resume
pause_peer_read now pause w =
    if not w.peer.alive
    then w
    else if pause
    then record w { peer = record w.peer { read_paused = true } }
    else if w.peer.read_paused
    then record w { peer = resume now w.peer }
    else w

-- What waits to be sent is given back to the budget.
unfoldable pub release_tx : Pair → Pair
unfolding fetch_sub
release_tx w = record w {
  me = record w.me { tx = [] };
  tx_total = fetch_sub w.tx_total (length w.me.tx);
}

unfoldable pub shut : Pair → Pair
unfolding release_tx
shut w = release_tx (record w { me = record w.me { alive = false; deadline = none } })

-- One connection closed: first the other one may read again.
unfoldable pub close_one : ℕ → Pair → Pair
unfolding pause_peer_read shut
close_one now w = if not w.me.alive then w else shut (pause_peer_read now false w)

-- The one that is left is closed too.
unfoldable pub close_both : ℕ → Pair → Pair
unfolding close_one swap_sides
close_both now w = swap_sides (close_one now (swap_sides (close_one now w)))

unfoldable pub close_conn : ℕ → Pair → Pair
unfolding close_both
close_conn now w = if not w.me.alive then w else close_both now w

-- Bytes that the socket takes of those that wait.
unfoldable pub send_out : ℕ → Pair → Pair
unfolding fetch_sub room_for
send_out room w =
    let sent = room_for room (length w.me.tx) in
    record w { me = record w.me { tx = drop sent w.me.tx }; tx_total = fetch_sub w.tx_total sent }

-- The reason goes behind what waits, and what the socket still takes goes out.
unfoldable pub add_words : List ℕ → Pair → Pair
add_words frame w = record w {
  me = record w.me { tx = w.me.tx ++ frame };
  tx_total = w.tx_total + length frame;
}

unfoldable pub last_words : List ℕ → Option ℕ → Pair → Pair
unfolding send_out add_words
last_words frame none w = add_words frame w
last_words frame (some room) w = send_out room (add_words frame w)

unfoldable pub reject_conn : ℕ → List ℕ → Option ℕ → Pair → Pair
unfolding last_words close_conn
reject_conn now frame out w = if not w.me.alive then w else close_conn now (last_words frame out w)

-- The bytes that the socket did not take wait.
unfoldable pub append_tx : List ℕ → Pair → Pair
append_tx rest w =
    let total = w.tx_total + length rest in
    record w {
      me = record w.me { tx = w.me.tx ++ rest; want_write = true };
      tx_total = total;
      tx_peak = if ltb w.tx_peak total then total else w.tx_peak;
    }

unfoldable pub after_append : ℕ → Option ℕ → Pair → Bool × Pair
unfolding close_conn reject_conn pause_peer_read build_reject
after_append now again w =
    if ltb k_send_hard_cap (length w.me.tx)
    then (false, close_conn now w)
    else if ltb w.tx_budget w.tx_total
    then (
      false,
      reject_conn now (build_reject tx_budget_reason budget_text) again
          (record w { reject_tx_budget = w.reject_tx_budget + 1 }),
    )
    else (true, if ltb k_send_high_water (length w.me.tx) then pause_peer_read now true w else w)

-- What the socket took of the bytes, `none` where it failed.
unfoldable pub send_with : ℕ → Option ℕ → List ℕ → Option ℕ → Pair → Bool × Pair
unfolding append_tx after_append room_for
send_with now again bytes none w = (false, w)
send_with now again bytes (some room) w =
    let sent = room_for room (length bytes) in
    if ltb sent (length bytes)
    then after_append now again (append_tx (drop sent bytes) w)
    else (true, w)

-- Whether the bytes went out or wait; the socket is only asked where nothing waits.
unfoldable pub queue_send : ℕ → Option ℕ → Option ℕ → List ℕ → Pair → Bool × Pair
unfolding send_with
queue_send now out again bytes w =
    if not w.me.alive
    then (false, w)
    else send_with now again bytes (if length w.me.tx == 0 then out else some 0) w
