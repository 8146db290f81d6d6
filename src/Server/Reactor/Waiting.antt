-- ===== src/Server/Reactor/Waiting.antt =====
-- What server/reactor_relay.cpp does when a socket can be written again and when a deadline of a
-- match is reached: `on_writable` and `on_timeout`.
use tetris_multiplayer_rl.Server.Reactor.{
  send_out, k_idle_timeout, k_send_high_water, Pair, close_conn, pause_peer_read,
}
use tetris_multiplayer_rl.Common.{
  ltb, ◌==◌, if◌then◌else◌, length, ℕ, ◌+◌, false, not, ◌&&◌, Option, none, some,
}

-- Once bytes went out, the other one may read again at the mark.
unfoldable pub drained : ℕ → Pair → Pair
unfolding pause_peer_read
drained now w =
    let next : Pair = record w {
      me = record w.me { want_write = if length w.me.tx == 0 then false else w.me.want_write };
    } in
    if ltb k_send_high_water (length w.me.tx) then next else pause_peer_read now false next

-- The socket that can be written has so much room, or fails.
unfoldable pub write_out : ℕ → Option ℕ → Pair → Pair
unfolding close_conn send_out drained
write_out now none w = close_conn now w
write_out now (some room) w = drained now (send_out room w)

unfoldable pub on_writable : ℕ → Option ℕ → Pair → Pair
unfolding write_out
on_writable now out w =
    if not w.me.alive
    then w
    else if length w.me.tx == 0
    then record w { me = record w.me { want_write = false } }
    else write_out now out w

-- Nothing came for a while. One that was paused waits on, if the other one can still let it go.
unfoldable pub on_timeout : ℕ → Pair → Pair
unfolding close_conn
on_timeout now w =
    if not w.me.alive
    then w
    else if w.me.read_paused && w.peer.alive && not w.peer.read_paused
    then record w { me = record w.me { deadline = some (now + k_idle_timeout) } }
    else close_conn now w
