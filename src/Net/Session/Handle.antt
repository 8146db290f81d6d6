-- ===== src/Net/Session/Handle.antt =====
-- `handleFrame` of net/session.cpp: what a frame from the other peer or the relay does to a session.
use tetris_multiplayer_rl.Common.Int.{to_int}
use tetris_multiplayer_rl.Net.Session.{peer, host, push_send, Session, Role}
use tetris_multiplayer_rl.Common.Assoc.{find}
use tetris_multiplayer_rl.Net.Framing.{
  match_result, chat, pong, ping, game_over_choice, hash_msg, input_msg, le_write_u32, hello_ack,
  seed_msg, ack, le_read_u32, le_read_u64, build_frame, le_read_u16, hello, Frame,
}
use tetris_multiplayer_rl.Common.{
  ltb, leb, ◌==◌, if◌then◌else◌, ◌>>=◌, has_value, length, get_elem?, take, drop, u32, ℕ, ◌+◌, ◌-◌,
  true, not, ◌&&◌, ◌||◌, Option, none, some, List, [], ◌∷◌, ◌++◌,
}

abbrev pub k_max_remote_inputs : ℕ
k_max_remote_inputs = 8192

abbrev pub k_max_tick_window : ℕ
k_max_tick_window = 4096

abbrev pub k_max_chat_queue : ℕ
k_max_chat_queue = 256

-- `remoteInputs.emplace`: the first input of a tick stays.
unfoldable pub emplace : ℕ → ℕ → List (ℕ × ℕ) → List (ℕ × ℕ)
emplace tick mask m = elim (find tick m) [ none ↦ (tick, mask) ∷ m | some old ↦ m ]

-- One input of a frame. `cur` is the last tick before the frame.
unfoldable pub take_input : ℕ → ℕ → ℕ → Session → Session
unfolding emplace
take_input cur tick mask s =
    let dist = if leb cur tick then tick - cur else cur - tick in
    if ltb k_max_tick_window dist
    then s
    else if leb k_max_remote_inputs (length s.remote_inputs)
        && not (has_value (find tick s.remote_inputs))
    then s
    else record s {
      remote_inputs = emplace tick mask s.remote_inputs;
      last_remote_tick = if ltb s.last_remote_tick tick then tick else s.last_remote_tick;
    }

-- The loop over the inputs of a frame, from its `i`-th on.
unfoldable pub take_inputs : ℕ → ℕ → ℕ → List ℕ → Session → Session
unfolding take_input
take_inputs cur from i [] s = s
take_inputs cur from i (mask ∷ arr) s =
    take_inputs cur from (i + 1) arr (take_input cur (u32 (from + i)) mask s)

unfoldable pub handle_hello : Session → Session
unfolding push_send
handle_hello s = push_send (build_frame hello_ack (1 ∷ [])) s

unfoldable pub role_of : ℕ → Role
role_of raw = if raw == 1 then host else peer

unfoldable pub handle_seed : ℕ → List ℕ → Session → Option Session
unfolding role_of
handle_seed now p s =
    if leb 14 (length p)
    then (do
      seed ← le_read_u64 p 0
      start_tick ← le_read_u32 p 8
      input_delay ← get_elem? p 12
      raw_role ← get_elem? p 13
      some (record s {
        seed_params = record {
          seed = seed;
          start_tick = start_tick;
          input_delay = input_delay;
          role = role_of raw_role;
        };
        last_pong_ms = now;
        last_ping_sent_ms = 0;
        ready = true;
      }))
    else some s

unfoldable pub handle_input : List ℕ → Session → Option Session
unfolding take_inputs push_send
handle_input p s =
    if leb 6 (length p)
    then (do
      from ← le_read_u32 p 0
      cnt ← le_read_u16 p 4
      let taken = take_inputs s.last_remote_tick from 0 (take cnt (drop 6 p)) s
      some (
          if ltb (length p) (6 + cnt)
          then s
          else push_send (build_frame ack (le_write_u32 [] taken.last_remote_tick)) taken))
    else some s

unfoldable pub handle_hash : List ℕ → Session → Option Session
handle_hash p s =
    if length p == 12
    then (do
      t ← le_read_u32 p 0
      h ← le_read_u64 p 4
      some (record s { last_hash_tick_remote = t; last_hash_remote = h }))
    else some s

unfoldable pub handle_choice : List ℕ → Session → Session
handle_choice [] s = s
handle_choice (choice ∷ p) s =
    if (choice == 1) || (choice == 2) then record s { remote_game_over_choice = choice } else s

-- The oldest line goes where the queue is full.
unfoldable pub queue_chat : List ℕ → List (List ℕ) → List (List ℕ)
queue_chat text q = (if leb k_max_chat_queue (length q) then drop 1 q else q) ++ text ∷ []

unfoldable pub handle_chat : List ℕ → Session → Option Session
unfolding queue_chat
handle_chat p s = if ltb (length p) 2 then some s else (do
  n ← le_read_u16 p 0
  some (
      if ltb (length p) (n + 2)
      then s
      else record s { chat_q = queue_chat (take n (drop 2 p)) s.chat_q }))

unfoldable pub handle_match_result : List ℕ → Session → Option Session
handle_match_result p s = if ltb (length p) 12 then some s else (do
  before ← le_read_u32 p 0
  after ← le_read_u32 p 4
  delta ← le_read_u32 p 8
  some (record s {
    match_result = record {
      elo_before = to_int before;
      elo_after = to_int after;
      delta = to_int delta;
    };
    match_result_valid = true;
  }))

unfoldable pub handle_frame : ℕ → Frame → Session → Option Session
unfolding handle_hello handle_seed handle_input handle_hash handle_choice handle_chat
    handle_match_result push_send
handle_frame now f s =
    if f.type == hello
    then some (handle_hello s)
    else if f.type == seed_msg
    then handle_seed now f.payload s
    else if f.type == input_msg
    then handle_input f.payload s
    else if f.type == hash_msg
    then handle_hash f.payload s
    else if f.type == game_over_choice
    then some (handle_choice f.payload s)
    else if f.type == ping
    then some (push_send (build_frame pong f.payload) s)
    else if f.type == pong
    then some (record s { last_pong_ms = now })
    else if f.type == chat
    then handle_chat f.payload s
    else if f.type == match_result
    then handle_match_result f.payload s
    else some s

unfoldable pub handle_frames : ℕ → List Frame → Session → Option Session
unfolding handle_frame
handle_frames now [] s = some s
handle_frames now (f ∷ frames) s = handle_frame now f s >>= handle_frames now frames
