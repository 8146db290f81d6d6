-- ===== src/Server/Reactor/Screening.antt =====
-- What server/reactor_relay.cpp does with the bytes of an unranked match: `forward_screened`,
-- `on_forward` and `on_readable`. The sockets' answers to the sends of a batch are a list; one that
-- is too short takes nothing.
use tetris_multiplayer_rl.Server.Reactor.Waiting.{on_timeout, on_writable}
use tetris_multiplayer_rl.Net.Framing.{is_server_only_type, k_max_payload_bytes, le_read_u16}
use tetris_multiplayer_rl.Server.Reactor.{
  k_max_rx_bytes, k_idle_timeout, k_second, k_max_bytes_per_second, Pair, swap_sides, close_conn,
  queue_send,
}
use tetris_multiplayer_rl.Common.{
  ltb, leb, ◌==◌, if◌then◌else◌, ◌>>=◌, length, get_elem?, take, drop, ℕ, zero, suc, ◌+◌, ◌-◌, Bool,
  true, false, not, ◌&&◌, Option, none, some, List, [], ◌∷◌, ◌++◌,
}

-- The answers to a send, and to the last one of a connection that is refused.
abbrev pub Answers : Type 0
Answers = List (Option ℕ × Option ℕ)

unfoldable pub next_answer : Answers → (Option ℕ × Option ℕ) × Answers
next_answer [] = ((some 0, some 0), [])
next_answer (a ∷ answers) = (a, answers)

-- The variables of `forward_screened`, with the pair.
pub record Screen : Type 0 where
  pub pos : ℕ
  pub sent : ℕ
  pub drop_rest : Bool
  pub failed : Bool
  pub answers : Answers
  pub pair : Pair

-- The bytes up to `pos` that are not sent go to the other connection.
unfoldable pub pass_on : ℕ → Screen → Screen
unfolding next_answer queue_send swap_sides
pass_on now st =
    if ltb st.sent st.pos
    then (let a = next_answer st.answers in
        let bytes = take (st.pos - st.sent) (drop st.sent st.pair.me.rx) in
        let r = queue_send now a.0.0 a.0.1 bytes (swap_sides st.pair) in
        record st { failed = not r.0; answers = a.1; pair = swap_sides r.1 })
    else st

-- The loop. A round takes six bytes or more.
unfoldable pub screen_loop : ℕ → ℕ → List ℕ → Screen → Option Screen
unfolding pass_on
screen_loop zero now rx st = none
screen_loop (suc fuel) now rx st =
    if ltb (length rx - st.pos) 2
    then some st
    else le_read_u16 rx st.pos >>= λ len.
        let total = 2 + len + 4 in
        let next = screen_loop fuel now rx in
        let pushed = pass_on now st in
        if ltb (k_max_payload_bytes + 1) len
        then some (record st { drop_rest = true })
        else if ltb (length rx - st.pos) total
        then some st
        else if ltb len 1
        then next (record st { pos = st.pos + total })
        else get_elem? rx (st.pos + 2) >>= λ type.
            if not (is_server_only_type type)
            then next (record st { pos = st.pos + total })
            else if pushed.failed
            then some pushed
            else next (record pushed { sent = st.pos + total; pos = st.pos + total })

-- What is left of the bytes, where every send got through or waits.
unfoldable pub forward_screened : ℕ → Answers → Pair → Option (Bool × Pair)
unfolding screen_loop
forward_screened now answers w =
    screen_loop (length w.me.rx + 1) now w.me.rx
      (record { pos = 0; sent = 0; drop_rest = false; failed = false; answers = answers; pair = w })
    >>= λ st.
        let last = if st.failed then st else pass_on now st in
        let me = last.pair.me in
        some (
          if last.failed then (false, last.pair) else (
            true,
            record last.pair {
              me = record me { rx = if last.drop_rest then [] else drop last.pos me.rx };
            },
          ))

unfoldable pub on_forward : ℕ → Answers → Pair → Option Pair
unfolding forward_screened close_conn swap_sides
on_forward now answers w =
    let armed = record w { me = record w.me { deadline = some (now + k_idle_timeout) } } in
    if length w.me.rx == 0
    then some armed
    else forward_screened now answers armed >>= λ r. some (
        if r.0
        then r.1
        else if w.peer.alive
        then swap_sides (close_conn now (swap_sides r.1))
        else close_conn now r.1)

-- The bytes received, within the limits of a second and of the buffer.
unfoldable pub take_in : ℕ → List ℕ → Pair → Pair
take_in now bytes w =
    let me = w.me in
    let over = leb k_second (now - me.byte_window_start) in
    record w {
      me = record me {
        rx = me.rx ++ bytes;
        last_activity = now;
        byte_window_start = if over then now else me.byte_window_start;
        byte_window = (if over then 0 else me.byte_window) + length bytes;
      };
    }

-- Too much in a second, or too much that waits to be read, closes.
unfoldable pub limited : ℕ → Answers → Pair → Option Pair
unfolding on_forward close_conn
limited now answers w =
    if leb w.me.rate_grace_until now && ltb k_max_bytes_per_second w.me.byte_window
    then some (close_conn now w)
    else if ltb k_max_rx_bytes (length w.me.rx)
    then some (close_conn now w)
    else on_forward now answers w

unfoldable pub on_received : ℕ → Option (List ℕ) → Answers → Pair → Option Pair
unfolding take_in limited close_conn
on_received now none answers w = some (close_conn now w)
on_received now (some []) answers w = some w
on_received now (some (b ∷ bytes)) answers w = limited now answers (take_in now (b ∷ bytes) w)

unfoldable pub on_readable : ℕ → Option (List ℕ) → Answers → Pair → Option Pair
unfolding on_received
on_readable now got answers w = if not w.me.alive then some w else on_received now got answers w

-- What the loop is told of one of the two.
pub data LoopEvent : Type 0 where
  readable : Option (List ℕ) → Answers → LoopEvent
  writable : Option ℕ → LoopEvent
  timeout : LoopEvent

unfoldable pub handle : ℕ → LoopEvent → Pair → Option Pair
unfolding on_readable
handle now (readable got answers) w = on_readable now got answers w
handle now (writable out) w = some (on_writable now out w)
handle now timeout w = some (on_timeout now w)

-- The events of the pair, `true` for `me`, each at its time.
unfoldable pub handle_all : List (ℕ × Bool × LoopEvent) → Pair → Option Pair
unfolding handle swap_sides
handle_all [] w = some w
handle_all ((now, mine, e) ∷ events) w =
    (if mine then handle now e w else (handle now e (swap_sides w) >>= λ r. some (swap_sides r)))
    >>= handle_all events
