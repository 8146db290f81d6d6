-- ===== src/Server/Reactor/Sound.antt =====
-- The invariant of a pair of connections of server/reactor_relay.cpp, and how closing and pausing keep
-- it.
use tetris_multiplayer_rl.Common.Returns.{if_both}
use tetris_multiplayer_rl.Server.Reactor.{
  shut, resume, k_max_rx_bytes, k_send_high_water, k_send_hard_cap, Conn, swap_sides, Pair,
  pause_peer_read, fetch_sub, release_tx, close_one, close_conn, close_both,
}
use tetris_multiplayer_rl.Common.{
  ltb, if◌then◌else◌, Bool-cases, if_false, false_of_not, true_of_not, length, ℕ, ◌+◌, ◌≤◌, ◌<◌,
  ◌≡◌, refl, ◌∙◌, ◌⊎◌, inl, inr, true, false, not, some, arith,
}

-- A connection within its limits: bytes that wait are below the cap and are waited on, and a closed
-- one has none. One that is open is read within its limit and has a deadline.
pub record IsWithin (c : Conn) : Type 0 where
  pub cap : length c.tx ≤ k_send_hard_cap
  pub armed : (length c.tx ≡ 0) ⊎ (c.want_write ≡ true)
  pub dead : (c.alive ≡ true) ⊎ (length c.tx ≡ 0)
  pub received : (c.alive ≡ false) ⊎ (length c.rx ≤ k_max_rx_bytes)
  pub timed : (c.alive ≡ false) ⊎ ((t : ℕ) × (c.deadline ≡ some t))

-- Who may not read is paused for bytes that wait for the other one.
abbrev pub IsPaused : Conn → Conn → Type 0
IsPaused src dst =
    ((src.alive ≡ false) ⊎ (src.read_paused ≡ false)) ⊎ (k_send_high_water < length dst.tx)

module _ (others : ℕ) where
  -- The counter of the process is what waits for the two and for all others.
  abbrev pub IsCounted : Pair → Type 0
  IsCounted w = w.tx_total ≡ length w.me.tx + length w.peer.tx + others

  pub record IsSound (w : Pair) : Type 0 where
    pub counted : IsCounted w
    pub me_within : IsWithin w.me
    pub peer_within : IsWithin w.peer
    pub me_paused : IsPaused w.me w.peer
    pub peer_paused : IsPaused w.peer w.me

  pub swap_sides-IsSound : (w : Pair) → IsSound w → IsSound (swap_sides w)
  unfolding swap_sides
  swap_sides-IsSound w v = record {
    counted = omega (arith, v.counted);
    me_within = v.peer_within;
    peer_within = v.me_within;
    me_paused = v.peer_paused;
    peer_paused = v.me_paused;
  }

  -- The other one is let go on, or was not there.
  pub pause_peer_read-resume :
      (now : ℕ) (w : Pair)
      → IsCounted w
      → IsWithin w.me
      → IsWithin w.peer
      → IsPaused w.me w.peer
      → IsSound (pause_peer_read now false w)
  unfolding pause_peer_read resume
  pause_peer_read-resume now w counted me peer paused =
      let again : Pair = record w { peer = resume now w.peer } in
      if_both IsSound (not w.peer.alive) w (if w.peer.read_paused then again else w)
        (λ gone. record {
          counted = counted;
          me_within = me;
          peer_within = peer;
          me_paused = paused;
          peer_paused = inl (inl (false_of_not gone));
        })
        (λ _.
          if_both IsSound w.peer.read_paused _ _
            (λ _. record {
              counted = counted;
              me_within = me;
              peer_within = record {
                cap = peer.cap;
                armed = peer.armed;
                dead = peer.dead;
                received = peer.received;
                timed = inr (_, refl);
              };
              me_paused = paused;
              peer_paused = inl (inr refl);
            })
            (λ free. record {
              counted = counted;
              me_within = me;
              peer_within = peer;
              me_paused = paused;
              peer_paused = inl (inr free);
            }))

  -- The other one stops reading, while more than the mark waits here.
  pub pause_peer_read-pause :
      (now : ℕ) (w : Pair)
      → IsSound w
      → k_send_high_water < length w.me.tx
      → IsSound (pause_peer_read now true w)
  unfolding pause_peer_read
  pause_peer_read-pause now w v high =
      if_both IsSound (not w.peer.alive) _ _ (λ _. v)
        (λ _. record {
          counted = v.counted;
          me_within = v.me_within;
          peer_within = record {
            cap = v.peer_within.cap;
            armed = v.peer_within.armed;
            dead = v.peer_within.dead;
            received = v.peer_within.received;
            timed = v.peer_within.timed;
          };
          me_paused = v.me_paused;
          peer_paused = inr high;
        })

  pub fetch_sub-rest : (total n rest : ℕ) → total ≡ n + rest → fetch_sub total n ≡ rest
  unfolding fetch_sub
  fetch_sub-rest total n rest e =
      let fits : ltb total n ≡ false = ground (arith, e) in if_false _ _ fits ∙ omega (arith, e)

  -- The other one is there and may read, or is gone.
  record IsResumed (w : Pair) : Type 0 where
    pub counted : IsCounted w
    pub peer_within : IsWithin w.peer
    pub free : (w.peer.alive ≡ false) ⊎ (w.peer.read_paused ≡ false)

  pause_peer_read-IsResumed :
      (now : ℕ) (w : Pair) → IsCounted w → IsWithin w.peer → IsResumed (pause_peer_read now false w)
  unfolding pause_peer_read resume
  pause_peer_read-IsResumed now w counted peer =
      let again : Pair = record w { peer = resume now w.peer } in
      if_both IsResumed (not w.peer.alive) w (if w.peer.read_paused then again else w)
        (λ gone. record { counted = counted; peer_within = peer; free = inl (false_of_not gone) })
        (λ _.
          if_both IsResumed w.peer.read_paused again w
            (λ _. record {
              counted = counted;
              peer_within = record {
                cap = peer.cap;
                armed = peer.armed;
                dead = peer.dead;
                received = peer.received;
                timed = inr (_, refl);
              };
              free = inr refl;
            })
            (λ open_again. record { counted = counted; peer_within = peer; free = inr open_again }))

  shut-IsSound : (w : Pair) → IsResumed w → IsSound (shut w)
  unfolding shut release_tx
  shut-IsSound w v =
      let left =
        fetch_sub-rest w.tx_total (length w.me.tx) (length w.peer.tx + others)
          (omega (arith, v.counted)) in
      record {
        counted = omega (arith, left);
        me_within = record {
          cap = omega arith;
          armed = inl refl;
          dead = inr refl;
          received = inl refl;
          timed = inl refl;
        };
        peer_within = v.peer_within;
        me_paused = inl (inl refl);
        peer_paused = inl v.free;
      }

  -- One connection is closed, whatever waits there.
  close_one-IsSound :
      (now : ℕ) (w : Pair)
      → w.me.alive ≡ true
      → IsCounted w
      → IsWithin w.peer
      → IsSound (close_one now w)
  unfolding close_one
  close_one-IsSound now w here counted peer =
      let r = pause_peer_read now false w in
      if_both IsSound (not w.me.alive) w (shut r)
        (λ gone. absurd (ground (arith, here, false_of_not gone)))
        (λ _. shut-IsSound r (pause_peer_read-IsResumed now w counted peer))

  close_one-any : (now : ℕ) (w : Pair) → IsSound w → IsSound (close_one now w)
  unfolding close_one
  close_one-any now w v =
      let r = pause_peer_read now false w in
      if_both IsSound (not w.me.alive) w (shut r) (λ _. v)
        (λ _. shut-IsSound r (pause_peer_read-IsResumed now w v.counted v.peer_within))

  -- The pair is closed from one side, whatever waits there.
  pub close_conn-IsSound :
      (now : ℕ) (w : Pair)
      → w.me.alive ≡ true
      → IsCounted w
      → IsWithin w.peer
      → IsSound (close_conn now w)
  unfolding close_conn close_both
  close_conn-IsSound now w here counted peer =
      let one = close_one now w in
      let v = swap_sides-IsSound one (close_one-IsSound now w here counted peer) in
      if_both IsSound (not w.me.alive) w (close_both now w)
        (λ gone. absurd (ground (arith, here, false_of_not gone)))
        (λ _.
          swap_sides-IsSound (close_one now (swap_sides one))
            (close_one-any now (swap_sides one) v))

  pub close_conn-any : (now : ℕ) (w : Pair) → IsSound w → IsSound (close_conn now w)
  unfolding close_conn
  close_conn-any now w v = elim (Bool-cases w.me.alive) [
    | inl here ↦ close_conn-IsSound now w here v.counted v.peer_within
    | inr gone ↦
        if_both IsSound (not w.me.alive) w (close_both now w) (λ _. v)
          (λ here. absurd (ground (arith, gone, true_of_not here)))
  ]
