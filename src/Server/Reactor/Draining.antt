-- ===== src/Server/Reactor/Draining.antt =====
-- What goes out later and what comes too late: `on_writable` and `on_timeout` of
-- server/reactor_relay.cpp keep the invariant of the pair.
use tetris_multiplayer_rl.Server.Reactor.Waiting.{on_timeout, on_writable, drained, write_out}
use tetris_multiplayer_rl.Server.Reactor.Sending.{send_out-IsWithin, send_out-IsCounted}
use tetris_multiplayer_rl.Common.Returns.{if_both}
use tetris_multiplayer_rl.Server.Reactor.{
  pause_peer_read, close_conn, k_send_high_water, room_for, k_idle_timeout, send_out, Pair,
}
use tetris_multiplayer_rl.Server.Reactor.Sound.{
  IsSound, IsCounted, IsWithin, IsPaused, pause_peer_read-resume, close_conn-any,
}
use tetris_multiplayer_rl.Common.{
  ltb, ◌==◌, if◌then◌else◌, length, length-drop, ℕ, ◌+◌, ◌≡◌, refl, ◌⊎◌, inl, inr, Bool, true,
  false, not, ◌&&◌, Option, none, some, arith,
}

module _ (others : ℕ) where
  -- A connection some of whose bytes just went out.
  record IsTaken (w : Pair) : Type 0 where
    pub counted : IsCounted others w
    pub me_within : IsWithin w.me
    pub peer_within : IsWithin w.peer
    pub me_paused : IsPaused w.me w.peer

  send_out-IsTaken : (room : ℕ) (w : Pair) → IsSound others w → IsTaken (send_out room w)
  unfolding send_out
  send_out-IsTaken room w v =
      let sent = room_for room (length w.me.tx) in
      let size = length-drop sent w.me.tx in
      record {
        counted = send_out-IsCounted others room w v.counted;
        me_within = send_out-IsWithin room w v.me_within;
        peer_within = v.peer_within;
        me_paused = v.me_paused;
      }

  drained-IsSound : (now : ℕ) (w : Pair) → IsTaken w → IsSound others (drained now w)
  unfolding drained
  drained-IsSound now w v =
      let want = if length w.me.tx == 0 then false else w.me.want_write in
      let next : Pair = record w { me = record w.me { want_write = want } } in
      let me : IsWithin next.me = record {
        cap = v.me_within.cap;
        armed = elim v.me_within.armed [
          | inl e ↦ inl e
          | inr on ↦
              if_both (λ (b : Bool). (length w.me.tx ≡ 0) ⊎ (b ≡ true)) (length w.me.tx == 0) false
                w.me.want_write (λ h. inl (ground (arith, h))) (λ _. inr on)
        ];
        dead = v.me_within.dead;
        received = v.me_within.received;
        timed = v.me_within.timed;
      } in
      if_both (IsSound others) (ltb k_send_high_water (length w.me.tx)) next
        (pause_peer_read now false next)
        (λ high. record {
          counted = v.counted;
          me_within = me;
          peer_within = v.peer_within;
          me_paused = v.me_paused;
          peer_paused = inr (ground (arith, high));
        })
        (λ _. pause_peer_read-resume others now next v.counted me v.peer_within v.me_paused)

  write_out-IsSound :
      (now : ℕ) (out : Option ℕ) (w : Pair)
      → IsSound others w
      → IsSound others (write_out now out w)
  unfolding write_out
  write_out-IsSound now none w v = close_conn-any others now w v
  write_out-IsSound now (some room) w v =
      drained-IsSound now (send_out room w) (send_out-IsTaken room w v)

  unarmed-IsSound :
      (w : Pair)
      → length w.me.tx ≡ 0
      → IsSound others w
      → IsSound others (record w { me = record w.me { want_write = false } })
  unarmed-IsSound w empty v = record {
    counted = v.counted;
    me_within = record {
      cap = v.me_within.cap;
      armed = inl empty;
      dead = v.me_within.dead;
      received = v.me_within.received;
      timed = v.me_within.timed;
    };
    peer_within = v.peer_within;
    me_paused = v.me_paused;
    peer_paused = v.peer_paused;
  }

  pub on_writable-IsSound :
      (now : ℕ) (out : Option ℕ) (w : Pair)
      → IsSound others w
      → IsSound others (on_writable now out w)
  unfolding on_writable
  on_writable-IsSound now out w v =
      let off : Pair = record w { me = record w.me { want_write = false } } in
      if_both (IsSound others) (not w.me.alive) w
        (if length w.me.tx == 0 then off else write_out now out w) (λ _. v)
        (λ _.
          if_both (IsSound others) (length w.me.tx == 0) off (write_out now out w)
            (λ h. unarmed-IsSound w (ground (arith, h)) v) (λ _. write_out-IsSound now out w v))

  -- Another deadline changes nothing that is counted.
  pub rearmed-IsSound :
      (t : ℕ) (w : Pair)
      → IsSound others w
      → IsSound others (record w { me = record w.me { deadline = some t } })
  rearmed-IsSound t w v = record {
    counted = v.counted;
    me_within = record {
      cap = v.me_within.cap;
      armed = v.me_within.armed;
      dead = v.me_within.dead;
      received = v.me_within.received;
      timed = inr (t, refl);
    };
    peer_within = v.peer_within;
    me_paused = v.me_paused;
    peer_paused = v.peer_paused;
  }

  pub on_timeout-IsSound :
      (now : ℕ) (w : Pair) → IsSound others w → IsSound others (on_timeout now w)
  unfolding on_timeout
  on_timeout-IsSound now w v =
      let again = now + k_idle_timeout in
      let later : Pair = record w { me = record w.me { deadline = some again } } in
      let held = w.me.read_paused && w.peer.alive && not w.peer.read_paused in
      if_both (IsSound others) (not w.me.alive) w (if held then later else close_conn now w)
        (λ _. v)
        (λ _.
          if_both (IsSound others) held later (close_conn now w) (λ _. rearmed-IsSound again w v)
            (λ _. close_conn-any others now w v))
