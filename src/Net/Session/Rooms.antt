-- ===== src/Net/Session/Rooms.antt =====
-- The rooms of net/session.cpp: `RoomCreate`, `RoomJoin`, the answers of the player, and a round of
-- the thread that waits in a room. What the socket receives and which send gets through come from
-- outside.
use tetris_multiplayer_rl.Net.Session.Io.{lose}
use tetris_multiplayer_rl.Net.Session.Lifecycle.{start_over}
use tetris_multiplayer_rl.Net.Framing.{ready_msg, room_info, parse_frames, build_frame, Frame}
use tetris_multiplayer_rl.Net.Session.Matching.{
  gone_full, not_found, room_join_msg, full, room_create_msg, idle, room_leave_msg, waiting,
  waiting_with_peer, connecting, is_match_found, starting, failed, take_match, short_string,
  RoomState, Seeker,
}
use tetris_multiplayer_rl.Common.{
  ltb, leb, ◌==◌, if◌then◌else◌, ◌>>=◌, length, get_elem?, take, drop, u8, ℕ, ◌+◌, Bool, true,
  false, not, ◌||◌, Option, none, some, List, [], ◌∷◌, ◌++◌,
}

unfoldable pub enter_room : List ℕ → Seeker → Seeker
unfolding start_over
enter_room code s = record s {
  session = record (start_over s.session) { listening = false };
  room_state = connecting;
  room_peer_count = 0;
  room_code = code;
  room_send_q = [];
}

unfoldable pub room_create : Bool → Seeker → Bool × Seeker
unfolding enter_room
room_create busy s = if busy then (false, s) else (true, enter_room [] s)

unfoldable pub room_join : Bool → List ℕ → Seeker → Bool × Seeker
unfolding enter_room
room_join busy code s =
    if busy || (length code == 0) || ltb 255 (length code)
    then (false, s)
    else (true, enter_room code s)

unfoldable pub room_send_ready : Bool → Seeker → Seeker
room_send_ready ready_flag s = record s {
  room_send_q = s.room_send_q ++ build_frame ready_msg ((if ready_flag then 1 else 0) ∷ []) ∷ [];
}

unfoldable pub room_leave : Bool → Seeker → List (List ℕ) × Seeker
room_leave valid s = (
  if valid then build_frame room_leave_msg [] ∷ [] else [],
  record s { session = record s.session { quit = true } },
)

-- The first frame: a code that is empty opens a room.
unfoldable pub first_frame : List ℕ → List ℕ → List ℕ
unfolding short_string
first_frame [] auth_token = build_frame room_create_msg (short_string auth_token)
first_frame (c ∷ join_code) auth_token =
    build_frame room_join_msg
      (u8 (length (c ∷ join_code)) ∷ (c ∷ join_code) ++ short_string auth_token)

unfoldable pub room_fails : Seeker → Seeker
unfolding lose
room_fails s = record s { session = lose s.session; room_state = failed }

-- The thread's start, up to the first frame.
unfoldable pub open_room : Bool → Bool → List ℕ → List ℕ → Seeker → Option (List ℕ) × Seeker
unfolding first_frame room_fails
open_room valid through join_code auth_token s =
    let there = record s { session = record s.session { connected = true } } in
    if not valid
    then (
      none,
      record s { session = record s.session { connection_failed = true }; room_state = failed },
    )
    else if s.session.quit
    then (none, record s { room_state = idle })
    else if through
    then (some (first_frame join_code auth_token), there)
    else (none, room_fails there)

unfoldable pub state_of : ℕ → ℕ → RoomState → RoomState
state_of status peer_count before =
    if status == 0
    then (if leb 2 peer_count then waiting_with_peer else waiting)
    else if status == 1
    then full
    else if status == 2
    then not_found
    else if status == 3
    then gone_full
    else before

-- ROOM_INFO: the code, the state and how many are there. A payload that is too short is dropped.
unfoldable pub take_room_info : List ℕ → Seeker → Option Seeker
unfolding state_of
take_room_info payload s =
    if ltb (length payload) 3
    then some s
    else get_elem? payload 0 >>= λ n. if ltb (length payload) (1 + n + 2) then some s else (do
      status ← get_elem? payload (1 + n)
      peer_count ← get_elem? payload (2 + n)
      some (record s {
        room_code = take n (drop 1 payload);
        room_peer_count = peer_count;
        room_state = state_of status peer_count s.room_state;
      }))

pub record InRoom : Type 0 where
  pub seeker : Seeker
  pub match_found : Bool

module _ (start_tick input_delay : ℕ) where
  -- A frame: the frames of the game behind MATCH_FOUND are kept for it.
  unfoldable pub room_frame : Frame → InRoom → Option InRoom
  unfolding take_match is_match_found take_room_info
  room_frame f r =
      if f.type == room_info
      then (take_room_info f.payload r.seeker >>= λ s. some (record r { seeker = s }))
      else if f.type == ready_msg
      then some r
      else if is_match_found f
      then (take_match start_tick input_delay f.payload r.seeker >>= λ s.
          some (record { seeker = s; match_found = true }))
      else some (
          if r.match_found
          then record r {
            seeker = record r.seeker {
              session = record r.seeker.session {
                recv_buf = r.seeker.session.recv_buf ++ build_frame f.type f.payload;
              };
            };
          }
          else r)

  unfoldable pub room_frames : List Frame → InRoom → Option InRoom
  unfolding room_frame
  room_frames [] r = some r
  room_frames (f ∷ frames) r = room_frame f r >>= room_frames frames

-- The game begins with the bytes that wait.
unfoldable pub room_starts : ℕ → List ℕ → Seeker → Seeker
room_starts now buf s = record s {
  session = record s.session {
    recv_buf = s.session.recv_buf ++ buf;
    last_pong_ms = now;
    last_ping_sent_ms = 0;
    ready = true;
  };
  room_state = starting;
}

-- The thread goes on with the bytes that wait, stops, or has begun the game.
pub data RoomEnd : Type 0 where
  stays : List ℕ → Seeker → RoomEnd
  stops : Seeker → RoomEnd
  plays : Seeker → RoomEnd

-- Where the thread stops, the socket is closed.
unfoldable pub leave_room : Seeker → Seeker
leave_room s = record s {
  session = record s.session { connected = false };
  room_state = elim s.room_state [ starting ↦ starting | _ ↦ idle ];
}

module _ (sends : List (List ℕ) → List ℕ → Bool) where
  unfoldable pub drain_room : List (List ℕ) → List (List ℕ) → Seeker → List (List ℕ) × Seeker
  unfolding room_fails
  drain_room [] sent s = (sent, record s { room_send_q = [] })
  drain_room (pkt ∷ q) sent s =
      if sends sent pkt
      then drain_room q (sent ++ pkt ∷ []) s
      else (sent ++ pkt ∷ [], room_fails (record s { room_send_q = q }))

  module _ (start_tick input_delay : ℕ) where
    unfoldable pub room_round :
        ℕ → Option (List ℕ) → List (List ℕ) → List ℕ → Seeker → Option (List (List ℕ) × RoomEnd)
    unfolding drain_room room_frames room_starts leave_room room_fails
    room_round now received sent buf s =
        let out = drain_room s.room_send_q sent s in
        if s.session.quit
        then some (sent, stops (leave_room s))
        else if out.1.session.quit
        then some (out.0, stops (leave_room out.1))
        else elim received [
          | none ↦ some (out.0, stops (leave_room (room_fails out.1)))
          | some bytes ↦ parse_frames (buf ++ bytes) [] >>= λ p.
              room_frames start_tick input_delay p.out
                (record { seeker = out.1; match_found = false })
              >>= λ r. some (
                out.0,
                if r.match_found
                    then plays (room_starts now p.stream_buf r.seeker)
                    else stays p.stream_buf r.seeker,
              )
        ]
