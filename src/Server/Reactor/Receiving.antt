-- ===== src/Server/Reactor/Receiving.antt =====
-- What `on_readable` of server/reactor_relay.cpp takes in, and every order of the events of a pair:
-- the invariant is kept.
use tetris_multiplayer_rl.Server.Reactor.Waiting.{on_timeout, on_writable}
use tetris_multiplayer_rl.Server.Reactor.Forwarding.{on_forward-IsSound}
use tetris_multiplayer_rl.Server.Reactor.Draining.{on_timeout-IsSound, on_writable-IsSound}
use tetris_multiplayer_rl.Common.Returns.{Returns-end, Returns-bind, if_both, Returns}
use tetris_multiplayer_rl.Server.Reactor.{
  close_conn, k_max_bytes_per_second, swap_sides, k_send_hard_cap, k_max_rx_bytes, Pair,
}
use tetris_multiplayer_rl.Server.Reactor.Screening.{
  timeout, on_forward, writable, readable, LoopEvent, Answers, handle_all, on_readable, handle,
  take_in, limited, on_received,
}
use tetris_multiplayer_rl.Server.Reactor.Sound.{
  IsSound, IsCounted, IsWithin, IsPaused, swap_sides-IsSound, close_conn-IsSound, close_conn-any,
}
use tetris_multiplayer_rl.Common.{
  ltb, leb, if◌then◌else◌, ◌>>=◌, true_of_not, length, ℕ, ◌≤◌, ◌≡◌, refl, ◌∙◌, ◌⊎◌, inr, Bool, true,
  false, not, ◌&&◌, Option, none, some, List, [], ◌∷◌, arith,
}

module _ (others : ℕ) where
  -- Bytes just received, before the limits are tested.
  record IsFed (w : Pair) : Type 0 where
    pub counted : IsCounted others w
    pub cap : length w.me.tx ≤ k_send_hard_cap
    pub armed : (length w.me.tx ≡ 0) ⊎ (w.me.want_write ≡ true)
    pub dead : (w.me.alive ≡ true) ⊎ (length w.me.tx ≡ 0)
    pub timed : (w.me.alive ≡ false) ⊎ ((t : ℕ) × (w.me.deadline ≡ some t))
    pub peer_within : IsWithin w.peer
    pub me_paused : IsPaused w.me w.peer
    pub peer_paused : IsPaused w.peer w.me

  take_in-IsFed :
      (now : ℕ) (bytes : List ℕ) (w : Pair) → IsSound others w → IsFed (take_in now bytes w)
  unfolding take_in
  take_in-IsFed now bytes w v = record {
    counted = v.counted;
    cap = v.me_within.cap;
    armed = v.me_within.armed;
    dead = v.me_within.dead;
    timed = v.me_within.timed;
    peer_within = v.peer_within;
    me_paused = v.me_paused;
    peer_paused = v.peer_paused;
  }

  fed-IsSound : (w : Pair) → length w.me.rx ≤ k_max_rx_bytes → IsFed w → IsSound others w
  fed-IsSound w k v = record {
    counted = v.counted;
    me_within = record {
      cap = v.cap;
      armed = v.armed;
      dead = v.dead;
      received = inr k;
      timed = v.timed;
    };
    peer_within = v.peer_within;
    me_paused = v.me_paused;
    peer_paused = v.peer_paused;
  }

  take_in-alive :
      (now : ℕ) (bytes : List ℕ) (w : Pair) → (take_in now bytes w).me.alive ≡ w.me.alive
  unfolding take_in
  take_in-alive now bytes w = refl

  limited-IsSound :
      (now : ℕ) (answers : Answers) (w : Pair)
      → w.me.alive ≡ true
      → IsFed w
      → Returns (IsSound others) (limited now answers w)
  unfolding limited
  limited-IsSound now answers w here v =
      let closed = close_conn-IsSound others now w here v.counted v.peer_within in
      let late = leb w.me.rate_grace_until now && ltb k_max_bytes_per_second w.me.byte_window in
      if_both (Returns (IsSound others)) late (some (close_conn now w)) _
        (λ _. (close_conn now w, refl, closed))
        (λ _.
          if_both (Returns (IsSound others)) (ltb k_max_rx_bytes (length w.me.rx))
            (some (close_conn now w)) (on_forward now answers w)
            (λ _. (close_conn now w, refl, closed))
            (λ f. on_forward-IsSound others now answers w (fed-IsSound w (ground (arith, f)) v)))

  on_received-IsSound :
      (now : ℕ) (got : Option (List ℕ)) (answers : Answers) (w : Pair)
      → w.me.alive ≡ true
      → IsSound others w
      → Returns (IsSound others) (on_received now got answers w)
  unfolding on_received
  on_received-IsSound now none answers w here v =
      (close_conn now w, refl, close_conn-any others now w v)
  on_received-IsSound now (some []) answers w here v = (w, refl, v)
  on_received-IsSound now (some (b ∷ bytes)) answers w here v =
      limited-IsSound now answers (take_in now (b ∷ bytes) w)
        (take_in-alive now (b ∷ bytes) w ∙ here) (take_in-IsFed now (b ∷ bytes) w v)

  on_readable-IsSound :
      (now : ℕ) (got : Option (List ℕ)) (answers : Answers) (w : Pair)
      → IsSound others w
      → Returns (IsSound others) (on_readable now got answers w)
  unfolding on_readable
  on_readable-IsSound now got answers w v =
      if_both (Returns (IsSound others)) (not w.me.alive) (some w) (on_received now got answers w)
        (λ _. (w, refl, v)) (λ here. on_received-IsSound now got answers w (true_of_not here) v)

  handle-IsSound :
      (now : ℕ) (e : LoopEvent) (w : Pair)
      → IsSound others w
      → Returns (IsSound others) (handle now e w)
  unfolding handle
  handle-IsSound now (readable got answers) w v = on_readable-IsSound now got answers w v
  handle-IsSound now (writable out) w v =
      (on_writable now out w, refl, on_writable-IsSound others now out w v)
  handle-IsSound now timeout w v = (on_timeout now w, refl, on_timeout-IsSound others now w v)

  -- No order of the events of a pair, whatever their times and whatever the sockets give, take or
  -- fail, breaks the invariant, and each of them is handled to its end. So the counter of the
  -- process stays what waits to be sent, for these two and for all `others`; no more than 256 KiB
  -- wait for one connection, and none for a closed one; whoever waits is asked to be told when its
  -- socket can be written; whoever may not read is paused for more than 64 KiB that wait for the
  -- other one, which can drain; and a connection that is open has a deadline, and no more than 64
  -- KiB of it stay unread.
  pub handle_all-IsSound :
      (events : List (ℕ × Bool × LoopEvent)) (w : Pair)
      → IsSound others w
      → Returns (IsSound others) (handle_all events w)
  unfolding handle_all
  handle_all-IsSound [] w v = (w, refl, v)
  handle_all-IsSound ((now, mine, e) ∷ events) w v =
      let back = λ (r : Pair). swap_sides r in
      Returns-bind (IsSound others) (IsSound others)
        (if mine
          then handle now e w
          else (handle now e (swap_sides w) >>= λ r. some (swap_sides r)))
        (handle_all events)
        (if_both (Returns (IsSound others)) mine (handle now e w) _ (λ _. handle-IsSound now e w v)
          (λ _.
            Returns-end (IsSound others) (IsSound others) (handle now e (swap_sides w)) back
              (handle-IsSound now e (swap_sides w) (swap_sides-IsSound others w v))
              (λ r s. swap_sides-IsSound others r s)))
        (λ r s. handle_all-IsSound events r s)
