-- ===== src/Net/Session/Lockstep.antt =====
-- An input from `SendInput` of one peer to `GetRemoteInput` of the other, over net/session.cpp and
-- net/framing.cpp.
use tetris_multiplayer_rl.Common.Returns.{if_both}
use tetris_multiplayer_rl.Net.Session.Grows.{emplace_new}
use tetris_multiplayer_rl.Common.Assoc.{==_refl, find}
use tetris_multiplayer_rl.Net.Framing.Reads.{le_read_u16-written, le_read_u32-written}
use tetris_multiplayer_rl.Net.Session.{
  Session, push_send, input_payload, send_input, get_remote_input,
}
use tetris_multiplayer_rl.Net.Framing.{
  ack, Parsed, build_frame, Frame, parse_loop, parse_frames, input_msg, le_write, le_write_u16,
  le_write_u32,
}
use tetris_multiplayer_rl.Net.Session.Handle.{
  handle_frame, handle_frames, take_input, take_inputs, handle_input,
}
use tetris_multiplayer_rl.Net.Framing.RoundTrip.{
  parse_frames-written, IsFrame, written, le_bytes-IsByte,
}
use tetris_multiplayer_rl.Net.Session.Io.{receive}
use tetris_multiplayer_rl.Common.{
  ltb, leb, if◌then◌else◌, ◌>>=◌, if_true, if_false, has_value, length, All, All-append, u32,
  IsByte, le_bytes, ℕ, ◌+◌, ◌-◌, ◌^◌, ◌≤◌, ◌<◌, ◌≡◌, refl, sym, ap, ◌∙◌, false, not, ◌&&◌, Option,
  none, some, List, [], ◌∷◌, ◌++◌, arith,
}
use mathlib.Core.List.{append-nil}

-- A session that takes the bytes of one frame, with none waiting, handles that frame.
pub receive_one :
    (now : ℕ) (f : Frame) (s : Session)
    → IsFrame f
    → s.recv_buf ≡ []
    → receive now (build_frame f.type f.payload) s ≡ handle_frame now f s
unfolding receive written handle_frames parse_frames parse_loop
receive_one now f s v none_waits =
    let fr = build_frame f.type f.payload in
    let bytes : s.recv_buf ++ fr ≡ (fr ++ []) ++ [] =
      ap (λ b. b ++ fr) none_waits ∙ sym (append-nil fr) ∙ sym (append-nil (fr ++ [])) in
    let parsed =
      ap (λ b. parse_frames b []) bytes ∙ parse_frames-written (f ∷ []) [] [] (v, tt) tt in
    let handled =
      ap (λ o. o >>= λ (r : Parsed). handle_frames now r.out (record s { recv_buf = r.stream_buf }))
        parsed in
    let same =
      ap (λ b. handle_frame now f (record s { recv_buf = b }) >>= handle_frames now [])
        (sym none_waits) in
    handled ∙ same ∙ bind_some (handle_frame now f s)
  where
    bind_some : (o : Option Session) → (o >>= λ t. some t) ≡ o
    bind_some none = refl
    bind_some (some t) = refl

module _ (tick mask : ℕ) (ht : tick < 2 ^ 32) (hm : mask < 256) where
  input_payload-IsByte : All IsByte (input_payload tick mask)
  unfolding input_payload le_write_u32 le_write_u16 le_write
  input_payload-IsByte =
      All-append IsByte (le_bytes 4 tick ++ le_bytes 2 1) (mask ∷ [])
        (All-append IsByte (le_bytes 4 tick) (le_bytes 2 1) (le_bytes-IsByte 4 tick)
          (le_bytes-IsByte 2 1))
        (hm, tt)

  input_msg-IsFrame : IsFrame (record { type = input_msg; payload = input_payload tick mask })
  unfolding input_payload le_write_u32 le_write_u16 le_write
  input_msg-IsFrame = record {
    typed = omega arith;
    within = omega arith;
    bytes = input_payload-IsByte;
  }

  -- The frame of one input takes that input.
  handle_input_lem :
      (s : Session)
      → handle_input (input_payload tick mask) s ≡ (
          let t = take_input s.last_remote_tick tick mask s in
          some (push_send (build_frame ack (le_write_u32 [] t.last_remote_tick)) t))
  unfolding handle_input take_inputs input_payload le_write_u32 le_write_u16 le_write
  handle_input_lem s =
      let from =
        le_read_u32-written [] (le_bytes 2 1 ++ mask ∷ []) tick ht
          (omega arith, (omega arith, (hm, tt))) in
      let cnt = le_read_u16-written (le_bytes 4 tick) (mask ∷ []) 1 (omega arith) in
      let same : u32 (tick + 0) ≡ tick = omega (arith, ht) in rw (from, cnt, same) refl

-- A new input within the window of the tick that was reached is stored.
take_input_lem :
    (tick mask : ℕ) (s : Session)
    → tick ≤ s.last_remote_tick + 4096
    → s.last_remote_tick ≤ tick + 4096
    → length s.remote_inputs < 8192
    → find tick s.remote_inputs ≡ none
    → take_input s.last_remote_tick tick mask s ≡ record s {
      remote_inputs = (tick, mask) ∷ s.remote_inputs;
      last_remote_tick = if ltb s.last_remote_tick tick then tick else s.last_remote_tick;
    }
unfolding take_input
take_input_lem tick mask s near far room new =
    let cur = s.last_remote_tick in
    let within : ltb 4096 (if leb cur tick then tick - cur else cur - tick) ≡ false =
      ground (arith, near, far) in
    let free : leb 8192 (length s.remote_inputs) ≡ false = ground (arith, room) in
    let fits : (leb 8192 (length s.remote_inputs) && not (has_value (find tick s.remote_inputs)))
        ≡ false =
      rw free refl in
    if_false _ _ within
    ∙ if_false _ _ fits
    ∙ ap
        (λ m. record s { remote_inputs = m; last_remote_tick = if ltb cur tick then tick else cur })
        (emplace_new tick mask s.remote_inputs new)

get_pushed :
    (fr : List ℕ) (tick : ℕ) (s : Session)
    → get_remote_input tick (push_send fr s) ≡ find tick s.remote_inputs
unfolding get_remote_input push_send
get_pushed fr tick s =
    if_both (λ (t : Session). find tick t.remote_inputs ≡ find tick s.remote_inputs)
      (leb 4096 (length s.send_q)) _ _ (λ full. refl) (λ room. refl)

-- An input that `SendInput` queues in a session with room in its queue is one frame behind those
-- there were, and a session that takes that frame's bytes, with none waiting, room for inputs, and
-- the tick new and at most 4096 away from the last one it reached, then gives the mask for the tick.
pub send_input-get_remote_input :
    (now later tick mask : ℕ) (a b : Session)
    → tick < 2 ^ 32
    → mask < 256
    → length a.send_q < 4096
    → b.recv_buf ≡ []
    → tick ≤ b.last_remote_tick + 4096
    → b.last_remote_tick ≤ tick + 4096
    → length b.remote_inputs < 8192
    → find tick b.remote_inputs ≡ none
    → (fr : List ℕ) × ((send_input now tick mask a).send_q ≡ a.send_q ++ fr ∷ [])
      × (t : Session) × (receive later fr b ≡ some t)
      × (get_remote_input tick t ≡ some mask)
unfolding send_input push_send handle_frame
send_input-get_remote_input now later tick mask a b ht hm queue waits near far room new =
    let f : Frame = record { type = input_msg; payload = input_payload tick mask } in
    let free : leb 4096 (length a.send_q) ≡ false = ground (arith, queue) in
    let s = record b {
      remote_inputs = (tick, mask) ∷ b.remote_inputs;
      last_remote_tick = if ltb b.last_remote_tick tick then tick else b.last_remote_tick;
    } in
    let taken = take_input_lem tick mask b near far room new in
    (
      build_frame f.type f.payload,
      ap (λ (x : Session). x.send_q) (if_false _ _ free),
      push_send (build_frame ack (le_write_u32 [] s.last_remote_tick)) s,
      receive_one later f b (input_msg-IsFrame tick mask ht hm) waits
          ∙ handle_input_lem tick mask ht hm b
          ∙ ap
              (λ (t : Session).
                some (push_send (build_frame ack (le_write_u32 [] t.last_remote_tick)) t))
              taken,
      get_pushed (build_frame ack (le_write_u32 [] s.last_remote_tick)) tick s
          ∙ if_true _ _ (==_refl tick),
    )
