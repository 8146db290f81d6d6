-- ===== src/Net/Session/Lobby.antt =====
-- The lobby of `queueThread` of net/session.cpp, after MATCH_FOUND: the answers of the two players, and
-- the frames of the game that come in early.
use tetris_multiplayer_rl.Net.Framing.{build_frame, ready_msg, parse_frames, Frame}
use tetris_multiplayer_rl.Net.Session.Matching.{Seeker}
use tetris_multiplayer_rl.Net.Session.Queue.{Choice, choose_all, fail}
use tetris_multiplayer_rl.Common.{
  ◌==◌, if◌then◌else◌, ◌>>=◌, ℕ, Bool, true, false, ◌&&◌, Option, none, some, List, [], ◌∷◌, ◌++◌,
}

-- A frame in the lobby: an answer of the other player, or a frame of the game that is kept.
pub record Heard : Type 0 where
  pub seeker : Seeker
  pub peer_declined : Bool

unfoldable pub says_no : List ℕ → Bool
says_no [] = true
says_no (v ∷ payload) = v == 0

unfoldable pub lobby_frame : Frame → Heard → Heard
unfolding says_no
lobby_frame f h =
    if f.type == ready_msg
    then (if says_no f.payload
        then record h { peer_declined = true }
        else record h { seeker = record h.seeker { queue_peer_ready = true } })
    else record h {
      seeker = record h.seeker {
        session = record h.seeker.session {
          recv_buf = h.seeker.session.recv_buf ++ build_frame f.type f.payload;
        };
      };
    }

unfoldable pub lobby_frames : List Frame → Heard → Heard
unfolding lobby_frame
lobby_frames [] h = h
lobby_frames (f ∷ frames) h = lobby_frames frames (lobby_frame f h)

-- The match starts with the bytes that wait behind the frames that were kept.
unfoldable pub begin_game : ℕ → List ℕ → Seeker → Seeker
begin_game now buf s = record s {
  session = record s.session {
    recv_buf = s.session.recv_buf ++ buf;
    last_pong_ms = now;
    last_ping_sent_ms = 0;
    ready = true;
  };
  queue_matched = false;
}

-- A round of the lobby: whether its deadline is past, what the socket gives, `none` where it fails,
-- and the time; with what the player chooses before it, once the answers went out, and while the
-- socket is read.
pub record LobbyRound : Type 0 where
  pub before : List Choice
  pub expired : Bool
  pub drained : List Choice
  pub received : Option (List ℕ)
  pub later : List Choice
  pub now : ℕ

-- The lobby goes on, has failed, or has become a game.
pub data LobbyEnd : Type 0 where
  goes_on : List ℕ → Seeker → LobbyEnd
  gives_up : Seeker → LobbyEnd
  begins : Seeker → LobbyEnd

-- What the round does with the bytes, once the answers went out.
unfoldable pub hear_lobby : ℕ → List ℕ → List ℕ → Seeker → Option LobbyEnd
unfolding lobby_frames begin_game fail
hear_lobby now bytes buf s = parse_frames (buf ++ bytes) [] >>= λ r.
    let h = lobby_frames r.out (record { seeker = s; peer_declined = false }) in
    some (
      if h.peer_declined
      then gives_up (fail h.seeker)
      else if h.seeker.queue_local_ready && h.seeker.queue_peer_ready
      then begins (begin_game now r.stream_buf h.seeker)
      else goes_on r.stream_buf h.seeker)

module _ (sends : List (List ℕ) → List ℕ → Bool) where
  -- The answers go out in order, up to the first send that fails.
  unfoldable pub drain_answers : List (List ℕ) → List (List ℕ) → Seeker → List (List ℕ) × Seeker
  unfolding fail
  drain_answers [] sent s = (sent, record s { queue_send_q = [] })
  drain_answers (pkt ∷ q) sent s =
      if sends sent pkt
      then drain_answers q (sent ++ pkt ∷ []) s
      else (sent ++ pkt ∷ [], fail (record s { queue_send_q = q }))

  unfoldable pub read_lobby :
      LobbyRound
      → Option (List ℕ)
      → List ℕ
      → List (List ℕ) × Seeker
      → Option (List (List ℕ) × LobbyEnd)
  unfolding choose_all hear_lobby fail
  read_lobby round none buf st = some (st.0, gives_up (fail st.1))
  read_lobby round (some bytes) buf st =
      let last = choose_all round.later st in
      hear_lobby round.now bytes buf last.1 >>= λ e. some (last.0, e)

  unfoldable pub queue_round :
      LobbyRound → List ℕ → List (List ℕ) × Seeker → Option (List (List ℕ) × LobbyEnd)
  unfolding drain_answers read_lobby
  queue_round round buf st =
      let start = choose_all round.before st in
      let out = choose_all round.drained (drain_answers start.1.queue_send_q start.0 start.1) in
      if start.1.session.quit
      then some (start.0, gives_up start.1)
      else if round.expired
      then some (start.0, gives_up (fail start.1))
      else if out.1.session.quit
      then some (out.0, gives_up out.1)
      else read_lobby round round.received buf out

  -- The rounds, up to one that is the last.
  unfoldable pub queue_rounds :
      List LobbyRound → List ℕ → List (List ℕ) × Seeker → Option (List (List ℕ) × LobbyEnd)
  unfolding queue_round
  queue_rounds [] buf st = some (st.0, goes_on buf st.1)
  queue_rounds (round ∷ rounds) buf st = queue_round round buf st >>= λ r. elim r.1 [
    | goes_on left s ↦ queue_rounds rounds left (r.0, s)
    | gives_up s ↦ some (r.0, gives_up s)
    | begins s ↦ some (r.0, begins s)
  ]
