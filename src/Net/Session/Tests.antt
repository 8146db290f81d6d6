-- ===== src/Net/Session/Tests.antt =====
-- Runs of a session of net/session.cpp.
use tetris_multiplayer_rl.Net.Session.Agreed.{own_answer}
use tetris_multiplayer_rl.Net.Session.Queue.{confirms}
use tetris_multiplayer_rl.Net.Session.Lobby.{
  begins, gives_up, goes_on, queue_rounds, LobbyRound, LobbyEnd,
}
use tetris_multiplayer_rl.Common.Literals.{all_bytes_lem}
use tetris_multiplayer_rl.Net.Session.Begun.{queue_rounds-Kept, Lobbied, received, bytes_of}
use tetris_multiplayer_rl.Net.Session.Matching.{idle, Seeker}
use tetris_multiplayer_rl.Common.Returns.{Returns}
use tetris_multiplayer_rl.Net.Session.Lockstep.{send_input-get_remote_input}
use tetris_multiplayer_rl.Net.Session.Overflow.{send_input-lost}
use tetris_multiplayer_rl.Net.Session.Sending.{outgoing, IsReceived}
use tetris_multiplayer_rl.Net.Session.Delivery.{io_rounds-IsSound, io_rounds-get_remote_input}
use tetris_multiplayer_rl.Net.Session.Rounds.{IsSound}
use tetris_multiplayer_rl.Net.Session.Io.{io_rounds, receive, Link}
use tetris_multiplayer_rl.Net.Framing.{
  fnv1a32, fnv1a32_step, chat, input_msg, build_frame, Frame, le_read_u16, le_read_u32, checksum,
  read_frame, parse_loop, parse_frames,
}
use tetris_multiplayer_rl.Net.Session.{
  get_remote_input, lost, no_result, link_status, host, Session, send_input,
}
use tetris_multiplayer_rl.Common.{
  replicate, All, length-replicate, IsByte, ℕ, ◌≡◌, refl, Bool, true, false, Option, none, some,
  List, [], ◌∷◌, ◌++◌, arith,
}

abbrev pub a_session : Session
a_session = record {
  quit = false;
  connected = true;
  listening = false;
  ready = true;
  connection_failed = false;
  seed_params = record { seed = 7; start_tick = 120; input_delay = 2; role = host };
  recv_buf = [];
  send_q = [];
  remote_inputs = (9, 1) ∷ [];
  last_remote_tick = 9;
  last_local_tick = 11;
  last_hash_tick_remote = 0;
  last_hash_remote = 0;
  local_game_over_choice = 0;
  remote_game_over_choice = 0;
  last_pong_ms = 0;
  last_ping_sent_ms = 0;
  last_main_activity_ms = 0;
  heartbeat_tick_end = 0;
  last_heartbeat_ms = 0;
  chat_q = [];
  match_result_valid = false;
  match_result = no_result;
}

abbrev ping_frame : Frame
ping_frame = record { type = 6; payload = 1 ∷ 2 ∷ [] }

abbrev choice_frame : Frame
choice_frame = record { type = 9; payload = 2 ∷ [] }

a_session-IsSound : IsSound a_session
a_session-IsSound = ((omega arith, omega arith, omega arith), tt)

abbrev through : List (List ℕ) → List ℕ → Bool
through out pkt = true

abbrev a_link : Link
a_link = record { session = a_session; sent = [] }

abbrev rounds : List (ℕ × ℕ × Option (List ℕ))
rounds =
    (100, 0, some (1 ∷ 0 ∷ 6 ∷ []))
    ∷ (2000, 1900, some (0 ∷ 0 ∷ 0 ∷ 0 ∷ []))
    ∷ (2100, 2000, none)
    ∷ []

rounds-IsReceived : All (λ turn. IsReceived turn.2) rounds
rounds-IsReceived = (
  (omega arith, (omega arith, (omega arith, tt))),
  ((omega arith, (omega arith, (omega arith, (omega arith, tt)))), (tt, tt)),
)

io_rounds-IsSound_example :
    (t : Link) × (io_rounds through rounds a_link ≡ some t)
    × IsSound t.session
    × (more : List (List ℕ)) × (outgoing t ≡ outgoing a_link ++ more)
io_rounds-IsSound_example =
    io_rounds-IsSound through rounds a_link a_session-IsSound rounds-IsReceived

io_rounds-get_remote_input_example :
    (t : Link) × (io_rounds through rounds a_link ≡ some t)
    × (get_remote_input 9 t.session ≡ some 1)
unfolding get_remote_input
io_rounds-get_remote_input_example =
    io_rounds-get_remote_input through rounds a_link 9 1 a_session-IsSound rounds-IsReceived refl

send_input-get_remote_input_example :
    (fr : List ℕ) × ((send_input 100 12 17 a_session).send_q ≡ [] ++ fr ∷ [])
    × (t : Session) × (receive 120 fr a_session ≡ some t)
    × (get_remote_input 12 t ≡ some 17)
send_input-get_remote_input_example =
    send_input-get_remote_input 100 120 12 17 a_session a_session (omega arith) (omega arith)
      (omega arith) refl (omega arith) (omega arith) (omega arith) refl

abbrev full_session : Session
full_session = record a_session { send_q = replicate 4096 (1 ∷ []) }

send_input-lost_example :
    ((send_input 100 12 17 full_session).send_q ≡ full_session.send_q)
    × ((later : ℕ) → link_status later (send_input 100 12 17 full_session) ≡ lost)
    × ((rounds : List (ℕ × ℕ × Option (List ℕ)))
        → io_rounds through rounds
            (record { session = send_input 100 12 17 full_session; sent = [] })
          ≡ some (record { session = send_input 100 12 17 full_session; sent = [] }))
send_input-lost_example =
    send_input-lost through 100 12 17 full_session []
      (omega (arith, length-replicate {A = List ℕ} 4096 (1 ∷ [])))

abbrev restarting : Session
restarting = record a_session {
  send_q = build_frame input_msg (1 ∷ []) ∷ build_frame chat (0 ∷ 0 ∷ []) ∷ [];
}

-- A player who has found a match and not answered.
abbrev pub a_seeker : Seeker
a_seeker = record {
  session = a_session;
  local_icon_id = [];
  remote_icon_id = [];
  queue_matched = true;
  queue_local_ready = false;
  queue_peer_ready = false;
  queue_send_q = [];
  room_state = idle;
  room_peer_count = 0;
  room_code = [];
  room_send_q = [];
}

-- The player accepts, and the answer of the other one comes in with the start of a frame.
abbrev lobby : List LobbyRound
lobby =
    record {
      before = confirms ∷ [];
      expired = false;
      drained = [];
      received = some (2 ∷ 0 ∷ 17 ∷ 1 ∷ 140 ∷ 91 ∷ 12 ∷ 4 ∷ 1 ∷ []);
      later = [];
      now = 5;
    }
    ∷ []

-- The same, where the player accepts while the socket is read.
abbrev late_lobby : List LobbyRound
late_lobby =
    record {
      before = [];
      expired = false;
      drained = [];
      received = some (2 ∷ 0 ∷ 17 ∷ 1 ∷ 140 ∷ 91 ∷ 12 ∷ 4 ∷ 1 ∷ []);
      later = confirms ∷ [];
      now = 5;
    }
    ∷ []

lobby_parsed :
    parse_frames ([] ++ received lobby) []
    ≡ some (record {
      ok = true;
      stream_buf = 1 ∷ [];
      out = record { type = 17; payload = 1 ∷ [] } ∷ [];
    })
unfolding parse_frames parse_loop read_frame le_read_u16 le_read_u32 checksum received bytes_of
    fnv1a32 fnv1a32_step
lobby_parsed = refl

lobby-IsByte : All IsByte (received lobby)
unfolding received bytes_of
lobby-IsByte = all_bytes_lem (received lobby) refl

queue_rounds-Kept_example :
    Returns (Lobbied [] lobby) (queue_rounds through lobby [] ([], a_seeker))
queue_rounds-Kept_example =
    queue_rounds-Kept through lobby [] [] a_seeker
      (record { ok = true; stream_buf = 1 ∷ []; out = record { type = 17; payload = 1 ∷ [] } ∷ [] })
      refl refl refl tt lobby-IsByte lobby_parsed refl

-- The frames sent, and those that wait where the game has begun.
abbrev at_start : Option (List (List ℕ) × LobbyEnd) → List (List ℕ) × List (List ℕ)
at_start none = ([], [])
at_start (some (sent, goes_on buf s)) = (sent, [])
at_start (some (sent, gives_up s)) = (sent, [])
at_start (some (sent, begins s)) = (sent, s.queue_send_q)

-- The answer goes out, or is still there when the game begins.
answer_sent : at_start (queue_rounds through lobby [] ([], a_seeker)) ≡ (own_answer ∷ [], [])
unfolding queue_rounds parse_frames parse_loop read_frame le_read_u16 le_read_u32 checksum fnv1a32
    fnv1a32_step build_frame
answer_sent = refl

answer_left : at_start (queue_rounds through late_lobby [] ([], a_seeker)) ≡ ([], own_answer ∷ [])
unfolding queue_rounds parse_frames parse_loop read_frame le_read_u16 le_read_u32 checksum fnv1a32
    fnv1a32_step build_frame
answer_left = refl
