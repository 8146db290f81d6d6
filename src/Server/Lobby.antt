-- ===== src/Server/Lobby.antt =====
-- The accept lobby of server/relay.cpp, between MATCH_FOUND and the forwarders: both players have to
-- send READY(1). Which send gets through is a function of the sends before it on that socket.

pub mod Hearing
pub mod Reading
pub mod Accepted
pub mod Started
pub mod Pump
pub mod Found
mod Tests
use tetris_multiplayer_rl.Net.Framing.{
  build_frame, k_max_payload_bytes, le_read_u16, queue_cancel, ready_msg, checksum, le_read_u32,
}
use tetris_multiplayer_rl.Common.{
  ltb, ◌==◌, if◌then◌else◌, ◌>>=◌, has_value, length, get_elem?, take, drop, ℕ, zero, suc, ◌+◌, ◌-◌,
  ◌*◌, Bool, true, false, not, ◌&&◌, ◌||◌, Option, none, some, List, [], ◌∷◌, ◌++◌,
}

-- The results 0, 1, 2 and -1 of `consume_ready_frames`.
pub data Answer : Type 0 where
  pending : Answer
  accepted : Answer
  declined : Answer
  broken : Answer

-- What it leaves: the buffer, and the frames sent to the other player.
pub record Consumed : Type 0 where
  pub answer : Answer
  pub buf : List ℕ
  pub sent : List (List ℕ)

-- The payload that the lobby hands on.
unfoldable pub ready_frame : ℕ → List ℕ
ready_frame ready = build_frame ready_msg ((if ready == 0 then 0 else 1) ∷ [])

module _ (sends : List (List ℕ) → List ℕ → Bool) where
  -- A READY to a player, and whether it got through.
  unfoldable pub forward_ready : ℕ → List (List ℕ) → Bool × List (List ℕ)
  unfolding ready_frame
  forward_ready ready sent = (sends sent (ready_frame ready), sent ++ ready_frame ready ∷ [])

  -- A player's answer goes to the other one. A refusal stands even where its send fails.
  unfoldable pub answer_with : ℕ → List ℕ → List (List ℕ) → Consumed
  unfolding forward_ready
  answer_with ready rest sent =
      let through = forward_ready ready sent in
      record {
        answer = if ready == 0 then declined else if through.0 then accepted else broken;
        buf = rest;
        sent = through.1;
      }

  -- The loop over the frames at the front. A round takes six bytes or more.
  unfoldable pub consume_ready_frames : ℕ → List ℕ → List (List ℕ) → Option Consumed
  unfolding answer_with
  consume_ready_frames zero buf sent = none
  consume_ready_frames (suc fuel) buf sent =
      let stop = some (record { answer = pending; buf = buf; sent = sent }) in
      if ltb (length buf) 6
      then stop
      else le_read_u16 buf 0 >>= λ len.
          let total = 2 + len + 4 in
          let rest = drop total buf in
          let next = consume_ready_frames fuel rest sent in
          if ltb (k_max_payload_bytes + 1) len
          then some (record { answer = broken; buf = []; sent = sent })
          else if ltb (length buf) total
          then stop
          else if ltb len 1
          then next
          else get_elem? buf 2 >>= λ type.
              if not (type == ready_msg) && not (type == queue_cancel)
              then stop
              else le_read_u32 buf (2 + len) >>= λ chk.
                  let payload = take (len - 1) (drop 3 buf) in
                  if not (chk == checksum payload)
                  then next
                  else if not (type == ready_msg)
                  then some (answer_with 0 rest sent)
                  else if len - 1 == 0
                  then some (answer_with 0 rest sent)
                  else get_elem? buf 3 >>= λ v.
                      some (answer_with (if v == 0 then 0 else 1) rest sent)

-- What the lobby knows of a player: the answer READY(1), the bytes not used yet, and the frames that
-- were sent to that player.
pub record Side : Type 0 where
  pub ready : Bool
  pub buf : List ℕ
  pub sent : List (List ℕ)

pub record Lobby : Type 0 where
  pub a : Side
  pub b : Side

-- The lobby at its start, with the bytes read while the players waited.
unfoldable pub queue_lobby : List ℕ → List ℕ → Lobby
queue_lobby buf_a buf_b = record {
  a = record { ready = false; buf = buf_a; sent = [] };
  b = record { ready = false; buf = buf_b; sent = [] };
}

-- What the clock and the sockets give a round: a socket that gives nothing back is closed.
pub record Poll : Type 0 where
  pub expired : Bool
  pub stopping : Bool
  pub from_a : Option (List ℕ)
  pub from_b : Option (List ℕ)

-- The lobby goes on, or it is given up.
pub data Round : Type 0 where
  goes_on : Lobby → Round
  aborted : Lobby → Round

abbrev pub k_max_lobby_buf_bytes : ℕ
k_max_lobby_buf_bytes = 64 * 1024

unfoldable pub after_answer : Answer → Bool
after_answer pending = false
after_answer accepted = true
after_answer declined = false
after_answer broken = false

unfoldable pub ends_lobby : Answer → Bool
ends_lobby pending = false
ends_lobby accepted = false
ends_lobby declined = true
ends_lobby broken = true

-- A player's next answer, read from the bytes of `me` and handed on to `peer`.
module _ (sends : List (List ℕ) → List ℕ → Bool) where
  unfoldable pub hear : Side → Side → Option (Answer × Side × Side)
  unfolding consume_ready_frames after_answer
  hear me peer = consume_ready_frames sends (length me.buf + 1) me.buf peer.sent >>= λ c. some (
    c.answer,
    record { ready = after_answer c.answer; buf = c.buf; sent = me.sent },
    record { ready = peer.ready; buf = peer.buf; sent = c.sent },
  )

-- The bytes that came behind those that wait.
unfoldable pub gets : Side → Option (List ℕ) → Side
gets s o = record s { buf = elim o [ none ↦ s.buf | some bytes ↦ s.buf ++ bytes ] }

module _ (sends_a sends_b : List (List ℕ) → List ℕ → Bool) where
  -- A's answer, unless it is there already.
  unfoldable pub read_a : Lobby → Option Round
  unfolding hear ends_lobby
  read_a l =
      if l.a.ready
      then some (goes_on l)
      else hear sends_b l.a l.b >>= λ (r, me, peer).
          let next : Lobby = record { a = me; b = peer } in
          some (if ends_lobby r then aborted next else goes_on next)

  unfoldable pub read_b : Lobby → Option Round
  unfolding hear ends_lobby
  read_b l =
      if l.b.ready
      then some (goes_on l)
      else hear sends_a l.b l.a >>= λ (r, me, peer).
          let next : Lobby = record { a = peer; b = me } in
          some (if ends_lobby r then aborted next else goes_on next)

  -- The other player is told that this one is gone.
  unfoldable pub tell_b : Lobby → Lobby
  unfolding forward_ready
  tell_b l =
      if l.b.ready || not l.a.ready
      then record l { b = record l.b { sent = (forward_ready sends_b 0 l.b.sent).1 } }
      else l

  unfoldable pub tell_a : Lobby → Lobby
  unfolding forward_ready
  tell_a l =
      if l.a.ready || not l.b.ready
      then record l { a = record l.a { sent = (forward_ready sends_a 0 l.a.sent).1 } }
      else l

  -- The answers, once the bytes are there.
  unfoldable pub read_answers : Lobby → Option Round
  unfolding read_a read_b
  read_answers l = read_a l >>= λ r. elim r [ aborted x ↦ some (aborted x) | goes_on x ↦ read_b x ]

  -- A round of the loop: both sockets are read before it looks at either.
  unfoldable pub lobby_round : Poll → Lobby → Option Round
  unfolding tell_a tell_b read_answers gets
  lobby_round p l =
      let l2 : Lobby = record { a = gets l.a p.from_a; b = gets l.b p.from_b } in
      if p.expired
      then some (aborted l)
      else if not (has_value p.from_a)
      then some (aborted (tell_b l2))
      else if not (has_value p.from_b)
      then some (aborted (tell_a l2))
      else if ltb k_max_lobby_buf_bytes (length l2.a.buf)
          || ltb k_max_lobby_buf_bytes (length l2.b.buf)
      then some (aborted l2)
      else read_answers l2

  -- The loop over what the rounds get, as far as the list goes. `aborted` closes both sockets, and
  -- the lobby that goes on with both answers starts the forwarders.
  unfoldable pub lobby_rounds : List Poll → Lobby → Option Round
  unfolding lobby_round
  lobby_rounds [] l = some (goes_on l)
  lobby_rounds (p ∷ polls) l =
      if l.a.ready && l.b.ready
      then some (goes_on l)
      else if p.stopping
      then some (aborted l)
      else lobby_round p l >>= λ r. elim r [
        | aborted x ↦ some (aborted x)
        | goes_on x ↦ lobby_rounds polls x
      ]
