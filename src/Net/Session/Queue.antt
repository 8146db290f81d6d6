-- ===== src/Net/Session/Queue.antt =====
-- The random queue of net/session.cpp: `QueueJoin`, its thread, and the answers of the player. What
-- the socket receives and which send gets through come from outside, as in the rounds of `ioThread`;
-- what is sent is kept as a list.
use tetris_multiplayer_rl.Net.Session.Io.{lose}
use tetris_multiplayer_rl.Net.Session.Matching.{
  queue_join_msg, is_match_found, Seeker, short_string, take_match,
}
use tetris_multiplayer_rl.Net.Framing.{
  parse_frames, build_frame, ready_msg, queue_cancel, Frame, MsgType,
}
use tetris_multiplayer_rl.Net.Session.Lifecycle.{start_over}
use tetris_multiplayer_rl.Common.{
  if◌then◌else◌, ◌>>=◌, ℕ, Bool, true, false, not, Option, none, some, List, [], ◌∷◌, ◌++◌,
}

-- The fields that `QueueJoin` puts back, unless a thread of the session runs.
unfoldable pub queue_join : Bool → Seeker → Bool × Seeker
unfolding start_over
queue_join busy s = if busy then (false, s) else (
  true,
  record s {
    session = record (start_over s.session) { listening = false };
    queue_matched = false;
    queue_local_ready = false;
    queue_peer_ready = false;
    queue_send_q = [];
  },
)

-- What `QueueCancel` and `QueueDecline` send right away, on a socket that is there.
unfoldable pub queue_quit : MsgType → List ℕ → Bool → Seeker → List (List ℕ) × Seeker
queue_quit type payload valid s = (
  if valid then build_frame type payload ∷ [] else [],
  record s { session = record s.session { quit = true } },
)

unfoldable pub queue_do_cancel : Bool → Seeker → List (List ℕ) × Seeker
unfolding queue_quit
queue_do_cancel valid s = queue_quit queue_cancel [] valid s

unfoldable pub queue_decline : Bool → Seeker → List (List ℕ) × Seeker
unfolding queue_quit
queue_decline valid s = queue_quit ready_msg (0 ∷ []) valid s

-- A second confirmation does nothing. The flag and the frame are set in one step.
unfoldable pub queue_confirm : Seeker → Seeker
queue_confirm s = if s.queue_local_ready then s else record s {
  queue_local_ready = true;
  queue_send_q = s.queue_send_q ++ build_frame ready_msg (1 ∷ []) ∷ [];
}

unfoldable pub fail : Seeker → Seeker
unfolding lose
fail s = record s { session = lose s.session }

-- What the player does while the thread runs, with the frames sent so far.
pub data Choice : Type 0 where
  confirms : Choice
  declines : Choice
  cancels : Choice

unfoldable pub choose : Choice → List (List ℕ) × Seeker → List (List ℕ) × Seeker
unfolding queue_confirm queue_decline queue_do_cancel
choose confirms (sent, s) = (sent, queue_confirm s)
choose declines (sent, s) = let r = queue_decline true s in (sent ++ r.0, r.1)
choose cancels (sent, s) = let r = queue_do_cancel true s in (sent ++ r.0, r.1)

unfoldable pub choose_all : List Choice → List (List ℕ) × Seeker → List (List ℕ) × Seeker
unfolding choose
choose_all [] st = st
choose_all (c ∷ choices) st = choose_all choices (choose c st)

-- The thread's start: the frame that joins the queue, cut off where it does not get through.
unfoldable pub join_queue : Bool → Bool → List ℕ → Seeker → Option (List ℕ) × Seeker
unfolding fail short_string
join_queue valid through auth_token s =
    let there = record s { session = record s.session { connected = true } } in
    if not valid
    then (none, record s { session = record s.session { connection_failed = true } })
    else if s.session.quit
    then (none, s)
    else if through
    then (some (build_frame queue_join_msg (short_string auth_token)), there)
    else (none, fail there)

-- A round of the wait for MATCH_FOUND: the frames behind it are kept for the lobby.
pub record Await : Type 0 where
  pub seeker : Seeker
  pub matched : Bool
  pub preserve : List ℕ

module _ (start_tick input_delay : ℕ) where
  unfoldable pub await_frame : Frame → Await → Option Await
  unfolding take_match is_match_found
  await_frame f st =
      if is_match_found f
      then (take_match start_tick input_delay f.payload st.seeker >>= λ s.
          some (record st { seeker = record s { queue_matched = true }; matched = true }))
      else some (
          if st.matched
          then record st { preserve = st.preserve ++ build_frame f.type f.payload }
          else st)

  unfoldable pub await_frames : List Frame → Await → Option Await
  unfolding await_frame
  await_frames [] st = some st
  await_frames (f ∷ frames) st = await_frame f st >>= await_frames frames

  -- The bytes `buf` wait. Nothing received is a lost connection.
  unfoldable pub await_round :
      Bool → Option (List ℕ) → List ℕ → Seeker → Option (Bool × List ℕ × Seeker)
  unfolding await_frames fail
  await_round expired received buf s =
      if s.session.quit
      then some (false, buf, s)
      else if expired
      then some (false, buf, fail s)
      else elim received [
        | none ↦ some (false, buf, fail s)
        | some bytes ↦ parse_frames (buf ++ bytes) [] >>= λ r.
            await_frames r.out (record { seeker = s; matched = false; preserve = [] }) >>= λ st.
            some (st.matched, st.preserve ++ r.stream_buf, st.seeker)
      ]
