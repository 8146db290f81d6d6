-- ===== src/Net/Session/Rounds.antt =====
-- The parts of a round of `ioThread` of net/session.cpp before its sends take nothing away.
use tetris_multiplayer_rl.Net.Session.Handle.{handle_frames}
use tetris_multiplayer_rl.Net.Session.Handled.{handle_frames-Grows}
use tetris_multiplayer_rl.Net.Framing.Loop.{parse_frames-Parses}
use tetris_multiplayer_rl.Net.Framing.Stream.{consumed, broken, waiting, Parses}
use tetris_multiplayer_rl.Common.Returns.{if_both}
use tetris_multiplayer_rl.Net.Session.Grows.{
  push_send-Grows, Grows-others, Grows-trans, IsBounded, Grows,
}
use tetris_multiplayer_rl.Net.Session.Io.{receive, send_ping, heartbeat, keep_alive}
use tetris_multiplayer_rl.Net.Session.{input_payload, Session}
use tetris_multiplayer_rl.Net.Framing.{
  le_write_u64, input_msg, ping, build_frame, parse_frames, Parsed, Frame,
}
use tetris_multiplayer_rl.Common.{
  ltb, leb, ◌==◌, ◌>>=◌, drop, All, All-append, All-drop, u32, IsByte, ℕ, ◌+◌, ◌-◌, ◌≡◌, refl, ap,
  ◌∙◌, ◌&&◌, ◌||◌, some, List, [], ◌++◌,
}

abbrev pub IsSound : Session → Type 0
IsSound s = IsBounded s × All IsByte s.recv_buf

send_ping-Grows : (now : ℕ) (s : Session) → Grows s (send_ping now s)
unfolding send_ping
send_ping-Grows now s =
    let t = record s { last_ping_sent_ms = now } in
    if_both (Grows s) ((s.last_ping_sent_ms == 0) || leb 1000 (now - s.last_ping_sent_ms)) _ _
      (λ due.
        Grows-trans s t _ (Grows-others s t refl refl refl refl refl (λ b. b))
          (push_send-Grows (build_frame ping (le_write_u64 [] now)) t))
      (λ early. Grows-others s s refl refl refl refl refl (λ b. b))

heartbeat-Grows : (now : ℕ) (s : Session) → Grows s (heartbeat now s)
unfolding heartbeat
heartbeat-Grows now s =
    let next_tick = u32 (s.last_local_tick + 1) in
    let t = record s {
      last_heartbeat_ms = now;
      last_local_tick = next_tick;
      heartbeat_tick_end = next_tick;
    } in
    if_both (Grows s) (ltb 0 s.last_main_activity_ms && ltb 300 (now - s.last_main_activity_ms)) _ _
      (λ idle.
        if_both (Grows s) ((s.last_heartbeat_ms == 0) || leb 16 (now - s.last_heartbeat_ms)) _ _
          (λ due.
            Grows-trans s t _ (Grows-others s t refl refl refl refl refl (λ b. b))
              (push_send-Grows (build_frame input_msg (input_payload next_tick 0)) t))
          (λ early. Grows-others s s refl refl refl refl refl (λ b. b)))
      (λ active. Grows-others s _ refl refl refl refl refl (λ b. b))

pub keep_alive-Grows : (now : ℕ) (s : Session) → Grows s (keep_alive now s)
unfolding keep_alive
keep_alive-Grows now s =
    if_both (Grows s) s.ready _ _
      (λ ready.
        Grows-trans s (send_ping now s) _ (send_ping-Grows now s)
          (heartbeat-Grows now (send_ping now s)))
      (λ waits. Grows-others s s refl refl refl refl refl (λ b. b))

-- The bytes that wait are some of those there were.
Parses-IsByte :
    (s : List ℕ) (out : List Frame) (r : Parsed)
    → Parses s out r
    → All IsByte s
    → All IsByte r.stream_buf
Parses-IsByte s out r (waiting _ _ e) bytes = bytes
Parses-IsByte s out r (broken _ _ e) bytes = tt
Parses-IsByte s out r (consumed _ _ need frames _ e o) bytes =
    Parses-IsByte (drop need s) (out ++ frames) r o (All-drop IsByte need s bytes)

pub receive-Grows :
    (now : ℕ) (bytes : List ℕ) (s : Session)
    → All IsByte s.recv_buf
    → All IsByte bytes
    → (r : Parsed) × (parse_frames (s.recv_buf ++ bytes) [] ≡ some r)
      × All IsByte r.stream_buf
      × (t : Session) × (receive now bytes s ≡ some t)
      × Grows (record s { recv_buf = r.stream_buf }) t
unfolding receive
receive-Grows now bytes s h k =
    let all = All-append IsByte s.recv_buf bytes h k in
    let (r, e, p) = parse_frames-Parses (s.recv_buf ++ bytes) [] all in
    let s' = record s { recv_buf = r.stream_buf } in
    let (t, d, g) = handle_frames-Grows now r.out s' in
    (
      r,
      e,
      Parses-IsByte (s.recv_buf ++ bytes) [] r p all,
      t,
      ap (λ o. o >>= λ (x : Parsed). handle_frames now x.out (record s { recv_buf = x.stream_buf }))
            e
          ∙ d,
      g,
    )
