-- ===== src/Net/Session/Lifecycle.antt =====
-- How a session of net/session.cpp starts and ends: `Host`, `Connect`, `Close` and the end of
-- `acceptThread`. The sockets and the threads are outside: what they answer is an argument.
use tetris_multiplayer_rl.Net.Framing.{le_write_u16, hello, seed_msg, build_frame}
use tetris_multiplayer_rl.Net.Session.{seed_payload, no_result, SeedParams, push_send, Session}
use tetris_multiplayer_rl.Common.{if◌then◌else◌, ℕ, Bool, true, false, not, []}

-- What `Host` and `Connect` put back, so that nothing of an earlier session is left.
unfoldable pub start_over : Session → Session
start_over s = record s {
  quit = false;
  connection_failed = false;
  connected = false;
  ready = false;
  remote_inputs = [];
  last_remote_tick = 0;
  last_local_tick = 0;
  recv_buf = [];
  send_q = [];
  last_hash_tick_remote = 0;
  last_hash_remote = 0;
}

-- `Host` does not start where it listens already.
unfoldable pub host_session : SeedParams → Session → Bool × Session
unfolding start_over
host_session params s =
    if s.listening
    then (false, s)
    else (true, record (start_over s) { seed_params = params; listening = true })

unfoldable pub send_hello : Session → Session
unfolding push_send
send_hello s = push_send (build_frame hello (le_write_u16 [] 1)) s

-- `Connect`, with whether the socket connected, and whether the session was closed meanwhile.
unfoldable pub connect : Bool → Bool → Session → Bool × Session
unfolding start_over send_hello
connect valid closed s =
    let fresh = record (start_over s) { listening = false } in
    if not valid
    then (false, record fresh { connection_failed = true })
    else if closed
    then (false, record fresh { quit = true })
    else (true, send_hello (record fresh { connected = true }))

-- `acceptThread`, once a client is there: the greeting and the parameters go out first.
unfoldable pub accept_client : ℕ → Session → Session
unfolding send_hello push_send seed_payload
accept_client now s =
    let greeted = send_hello (record s { connected = true; listening = false }) in
    let seeded = push_send (build_frame seed_msg (seed_payload greeted.seed_params)) greeted in
    record seeded { last_pong_ms = now; last_ping_sent_ms = 0; ready = true }

unfoldable pub close : Session → Session
close s = record s {
  quit = true;
  connected = false;
  ready = false;
  listening = false;
  last_main_activity_ms = 0;
  heartbeat_tick_end = 0;
  last_heartbeat_ms = 0;
  chat_q = [];
  send_q = [];
  last_hash_tick_remote = 0;
  last_hash_remote = 0;
  match_result_valid = false;
  match_result = no_result;
}
