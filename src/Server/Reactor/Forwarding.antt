-- ===== src/Server/Reactor/Forwarding.antt =====
-- What an unranked match passes on, `forward_screened` and `on_forward` of
-- server/reactor_relay.cpp, keeps the invariant of the pair and ends.
use tetris_multiplayer_rl.Server.Reactor.Draining.{rearmed-IsSound}
use tetris_multiplayer_rl.Net.Framing.Reads.{get_elem?-Read, le_read_u16-Read}
use tetris_multiplayer_rl.Net.Framing.{is_server_only_type, k_max_payload_bytes, le_read_u16}
use tetris_multiplayer_rl.Server.Reactor.Sending.{queue_send-IsSound}
use tetris_multiplayer_rl.Server.Reactor.{swap_sides, queue_send, Pair, k_idle_timeout, close_conn}
use tetris_multiplayer_rl.Common.Returns.{Returns-read, if_both, Returns, Returns-end}
use tetris_multiplayer_rl.Server.Reactor.Screening.{
  next_answer, pass_on, screen_loop, Screen, Answers, forward_screened, on_forward,
}
use tetris_multiplayer_rl.Server.Reactor.Sound.{IsSound, swap_sides-IsSound, close_conn-any}
use tetris_multiplayer_rl.Common.{
  ltb, ◌==◌, if◌then◌else◌, length, get_elem?, take, drop, length-drop, ℕ, zero, suc, ◌+◌, ◌-◌, ◌≤◌,
  ◌<◌, ◌≡◌, refl, inl, inr, Bool, true, false, not, some, List, [], arith,
}

module _ (others : ℕ) where
  abbrev IsScreened : Screen → Type 0
  IsScreened st = IsSound others st.pair

  pass_on-IsScreened : (now : ℕ) (st : Screen) → IsScreened st → IsScreened (pass_on now st)
  unfolding pass_on
  pass_on-IsScreened now st v =
      let a = next_answer st.answers in
      let bytes = take (st.pos - st.sent) (drop st.sent st.pair.me.rx) in
      let r = queue_send now a.0.0 a.0.1 bytes (swap_sides st.pair) in
      let sound =
        queue_send-IsSound others now a.0.0 a.0.1 bytes (swap_sides st.pair)
          (swap_sides-IsSound others st.pair v) in
      let pushed : Screen = record st { failed = not r.0; answers = a.1; pair = swap_sides r.1 } in
      if_both IsScreened (ltb st.sent st.pos) pushed st (λ _. swap_sides-IsSound others r.1 sound)
        (λ _. v)

  screen_loop-IsScreened :
      (fuel now : ℕ) (rx : List ℕ) (st : Screen)
      → length rx < fuel + st.pos
      → st.pos ≤ length rx
      → IsScreened st
      → Returns IsScreened (screen_loop fuel now rx st)
  unfolding screen_loop
  screen_loop-IsScreened zero now rx st enough k v = absurd (ground (arith, enough, k))
  screen_loop-IsScreened (suc fuel) now rx st enough k v =
      let pushed = pass_on now st in
      let sound = pass_on-IsScreened now st v in
      if_both (Returns IsScreened) (ltb (length rx - st.pos) 2) (some st) _ (λ _. (st, refl, v))
        (λ h.
          let two : st.pos + 2 ≤ length rx = ground (arith, h, k) in
          Returns-read IsScreened (le_read_u16 rx st.pos) _ (le_read_u16-Read rx st.pos two) (λ len.
            let total = 2 + len + 4 in
            let next = screen_loop fuel now rx in
            let past : Screen = record st { pos = st.pos + total } in
            let over : Screen = record pushed { sent = st.pos + total; pos = st.pos + total } in
            let on =
              λ (s : Screen) (e : s.pos ≡ st.pos + total) (w : IsScreened s)
                  (f : ltb (length rx - st.pos) total ≡ false).
                screen_loop-IsScreened fuel now rx s (ground (arith, e, f, enough, k))
                  (ground (arith, e, f, k)) w in
            if_both (Returns IsScreened) (ltb (k_max_payload_bytes + 1) len)
              (some (record st { drop_rest = true })) _
              (λ _. (record st { drop_rest = true }, refl, v))
              (λ _.
                if_both (Returns IsScreened) (ltb (length rx - st.pos) total) (some st) _
                  (λ _. (st, refl, v))
                  (λ f.
                    if_both (Returns IsScreened) (ltb len 1) (next past) _ (λ _. on past refl v f)
                      (λ one.
                        Returns-read IsScreened (get_elem? rx (st.pos + 2)) _
                          (get_elem?-Read rx (st.pos + 2) (ground (arith, one, f, k)))
                          (λ type.
                            if_both (Returns IsScreened) (not (is_server_only_type type))
                              (next past) (if pushed.failed then some pushed else next over)
                              (λ _. on past refl v f)
                              (λ _.
                                if_both (Returns IsScreened) pushed.failed (some pushed) (next over)
                                  (λ _. (pushed, refl, sound)) (λ _. on over refl sound f))))))))

  -- Fewer received bytes are kept.
  cut-IsSound :
      (rx : List ℕ) (w : Pair)
      → length rx ≤ length w.me.rx
      → IsSound others w
      → IsSound others (record w { me = record w.me { rx = rx } })
  cut-IsSound rx w k v = record {
    counted = v.counted;
    me_within = record {
      cap = v.me_within.cap;
      armed = v.me_within.armed;
      dead = v.me_within.dead;
      timed = v.me_within.timed;
      received = elim v.me_within.received [
        | inl gone ↦ inl gone
        | inr fits ↦ inr (omega (arith, fits, k))
      ];
    };
    peer_within = v.peer_within;
    me_paused = v.me_paused;
    peer_paused = v.peer_paused;
  }

  forward_screened-IsSound :
      (now : ℕ) (answers : Answers) (w : Pair)
      → IsSound others w
      → (r : Bool × Pair) × (forward_screened now answers w ≡ some r) × IsSound others r.1
  unfolding forward_screened
  forward_screened-IsSound now answers w v =
      let start : Screen = record {
        pos = 0;
        sent = 0;
        drop_rest = false;
        failed = false;
        answers = answers;
        pair = w;
      } in
      let loop =
        screen_loop-IsScreened (length w.me.rx + 1) now w.me.rx start (omega arith) (omega arith)
          v in
      Returns-end (λ (r : Bool × Pair). IsSound others r.1) IsScreened
        (screen_loop (length w.me.rx + 1) now w.me.rx start) _ loop
        (λ st s.
          let last = if st.failed then st else pass_on now st in
          let me = last.pair.me in
          let left = if last.drop_rest then [] else drop last.pos me.rx in
          let sound : IsScreened last =
            if_both IsScreened st.failed st (pass_on now st) (λ _. s)
              (λ _. pass_on-IsScreened now st s) in
          let fits : length left ≤ length me.rx =
            if_both (λ (l : List ℕ). length l ≤ length me.rx) last.drop_rest []
              (drop last.pos me.rx) (λ _. omega arith)
              (λ _. omega (arith, length-drop last.pos me.rx)) in
          let rest : Pair = record last.pair { me = record me { rx = left } } in
          if_both (λ (r : Bool × Pair). IsSound others r.1) last.failed (false, last.pair)
            (true, rest) (λ _. sound) (λ _. cut-IsSound left last.pair fits sound))

  pub on_forward-IsSound :
      (now : ℕ) (answers : Answers) (w : Pair)
      → IsSound others w
      → Returns (IsSound others) (on_forward now answers w)
  unfolding on_forward
  on_forward-IsSound now answers w v =
      let again = now + k_idle_timeout in
      let armed : Pair = record w { me = record w.me { deadline = some again } } in
      let ok = rearmed-IsSound others again w v in
      if_both (Returns (IsSound others)) (length w.me.rx == 0) (some armed) _
        (λ _. (armed, refl, ok))
        (λ _.
          Returns-end (IsSound others) (λ (r : Bool × Pair). IsSound others r.1)
            (forward_screened now answers armed) _ (forward_screened-IsSound now answers armed ok)
            (λ r s.
              let by_peer = swap_sides (close_conn now (swap_sides r.1)) in
              if_both (IsSound others) r.0 r.1
                (if w.peer.alive then by_peer else close_conn now r.1) (λ _. s)
                (λ _.
                  if_both (IsSound others) w.peer.alive by_peer (close_conn now r.1)
                    (λ _. swap_sides-IsSound others (close_conn now (swap_sides r.1)) (
                      close_conn-any others now (swap_sides r.1) (swap_sides-IsSound others r.1 s)))
                    (λ _. close_conn-any others now r.1 s))))
