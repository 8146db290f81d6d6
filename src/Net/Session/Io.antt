-- ===== src/Net/Session/Io.antt =====
-- One round of `ioThread` of net/session.cpp: the timeout, the ping and the heartbeat, the bytes that
-- came in, and the queue going out. What the socket receives and which send gets through come from
-- outside; what is sent is kept as a list.
use tetris_multiplayer_rl.Net.Framing.{le_write_u64, input_msg, ping, parse_frames, build_frame}
use tetris_multiplayer_rl.Net.Session.{input_payload, push_send, Session}
use tetris_multiplayer_rl.Net.Session.Handle.{handle_frames}
use tetris_multiplayer_rl.Common.{
  ltb, leb, ◌==◌, if◌then◌else◌, ◌>>=◌, u32, ℕ, ◌+◌, ◌-◌, Bool, true, not, ◌&&◌, ◌||◌, Option, none,
  some, List, [], ◌∷◌, ◌++◌,
}

-- The ping, once a second.
unfoldable pub send_ping : ℕ → Session → Session
unfolding push_send
send_ping now s =
    if (s.last_ping_sent_ms == 0) || leb 1000 (now - s.last_ping_sent_ms)
    then push_send (build_frame ping (le_write_u64 [] now)) (record s { last_ping_sent_ms = now })
    else s

-- Where the main thread stalls, an empty input goes out in its place, every 16 ms.
unfoldable pub heartbeat : ℕ → Session → Session
unfolding push_send input_payload
heartbeat now s =
    let next_tick = u32 (s.last_local_tick + 1) in
    let beat = record s {
      last_heartbeat_ms = now;
      last_local_tick = next_tick;
      heartbeat_tick_end = next_tick;
    } in
    if ltb 0 s.last_main_activity_ms && ltb 300 (now - s.last_main_activity_ms)
    then (if (s.last_heartbeat_ms == 0) || leb 16 (now - s.last_heartbeat_ms)
        then push_send (build_frame input_msg (input_payload next_tick 0)) beat
        else s)
    else record s { last_heartbeat_ms = 0 }

unfoldable pub keep_alive : ℕ → Session → Session
unfolding send_ping heartbeat
keep_alive now s = if s.ready then heartbeat now (send_ping now s) else s

-- The bytes that came in are parsed, with those kept before.
unfoldable pub receive : ℕ → List ℕ → Session → Option Session
unfolding handle_frames
receive now bytes s = do
  r ← parse_frames (s.recv_buf ++ bytes) []
  handle_frames now r.out (record s { recv_buf = r.stream_buf })

-- A session, and what it has sent.
pub record Link : Type 0 where
  pub session : Session
  pub sent : List (List ℕ)

abbrev pub k_connection_timeout_ms : ℕ
k_connection_timeout_ms = 10000

unfoldable pub lose : Session → Session
lose s = record s { connection_failed = true; quit = true }

module _ (sends : List (List ℕ) → List ℕ → Bool) where
  -- The queue goes out, in order, up to the first send that fails.
  unfoldable pub drain : List (List ℕ) → Link → Link
  drain [] l = record l { session = record l.session { send_q = [] } }
  drain (pkt ∷ q) l =
      if sends l.sent pkt then drain q (record l { sent = l.sent ++ pkt ∷ [] }) else record l {
        session = record l.session { send_q = q; quit = true };
        sent = l.sent ++ pkt ∷ [];
      }

  -- A round at time `now`, `elapsed` after the thread started. No bytes is a lost connection.
  unfoldable pub io_round : ℕ → ℕ → Option (List ℕ) → Link → Option Link
  unfolding keep_alive receive drain lose
  io_round now elapsed received l =
      if l.session.quit
      then some l
      else if not l.session.ready && ltb k_connection_timeout_ms elapsed
      then some (record l { session = lose l.session })
      else (let s = keep_alive now l.session in
          elim received [
            | none ↦ some (record l { session = lose s })
            | some bytes ↦ receive now bytes s >>= λ taken.
                some (drain taken.send_q (record l { session = taken }))
          ])

  -- The rounds of the thread: the time, the time since its start, and what came in.
  unfoldable pub io_rounds : List (ℕ × ℕ × Option (List ℕ)) → Link → Option Link
  unfolding io_round
  io_rounds [] l = some l
  io_rounds ((now, elapsed, received) ∷ rounds) l =
      io_round now elapsed received l >>= io_rounds rounds
