-- ===== src/Server/Reactor/Sending.antt =====
-- What is sent through server/reactor_relay.cpp keeps the invariant of the pair.
use mathlib.Core.Path.{subst}
use tetris_multiplayer_rl.Server.Reactor.Sound.{
  IsSound, IsCounted, IsWithin, IsPaused, pause_peer_read-pause, fetch_sub-rest, close_conn-IsSound,
}
use tetris_multiplayer_rl.Common.Returns.{if_both}
use tetris_multiplayer_rl.Server.Reactor.{
  close_conn, last_words, Pair, send_out, room_for, reject_conn, k_max_rx_bytes, k_send_high_water,
  k_send_hard_cap, tx_budget_reason, build_reject, budget_text, pause_peer_read, add_words,
  append_tx, after_append, send_with, queue_send,
}
use tetris_multiplayer_rl.Common.{
  ltb, ◌==◌, if◌then◌else◌, false_of_not, true_of_not, length, drop, length-append, length-drop, ℕ,
  ◌+◌, ◌≤◌, ◌≡◌, refl, sym, ◌∙◌, ◌⊎◌, inl, inr, Bool, true, false, not, Option, none, some, List,
  arith,
}

room_for-le : (room n : ℕ) → room_for room n ≤ n
unfolding room_for
room_for-le room n =
    if_both (λ m. m ≤ n) (ltb n room) n room (λ _. omega arith) (λ h. ground (arith, h))

pub send_out-IsWithin : (room : ℕ) (w : Pair) → IsWithin w.me → IsWithin (send_out room w).me
unfolding send_out
send_out-IsWithin room w v =
    let size = length-drop (room_for room (length w.me.tx)) w.me.tx in
    record {
      cap = omega (arith, v.cap, size);
      armed = elim v.armed [ inl e ↦ inl (omega (arith, e, size)) | inr on ↦ inr on ];
      dead = elim v.dead [ inl here ↦ inl here | inr e ↦ inr (omega (arith, e, size)) ];
      received = v.received;
      timed = v.timed;
    }

module _ (others : ℕ) where
  pub send_out-IsCounted :
      (room : ℕ) (w : Pair) → IsCounted others w → IsCounted others (send_out room w)
  unfolding send_out
  send_out-IsCounted room w counted =
      let sent = room_for room (length w.me.tx) in
      let fits = room_for-le room (length w.me.tx) in
      let size = length-drop sent w.me.tx in
      let left =
        fetch_sub-rest others w.tx_total sent
          (length (drop sent w.me.tx) + length w.peer.tx + others)
          (omega (arith, counted, fits, size)) in
      omega (arith, left)

  last_words-IsCounted :
      (frame : List ℕ) (out : Option ℕ) (w : Pair)
      → IsCounted others w
      → IsCounted others (last_words frame out w)
  unfolding last_words add_words
  last_words-IsCounted frame none w counted = omega (arith, counted, length-append w.me.tx frame)
  last_words-IsCounted frame (some room) w counted =
      send_out-IsCounted room (add_words frame w)
        (omega (arith, counted, length-append w.me.tx frame))

  last_words-same :
      (frame : List ℕ) (out : Option ℕ) (w : Pair)
      → ((last_words frame out w).me.alive ≡ w.me.alive) × ((last_words frame out w).peer ≡ w.peer)
  unfolding last_words add_words send_out
  last_words-same frame none w = (refl, refl)
  last_words-same frame (some room) w = (refl, refl)

  -- A connection that is refused, whatever waits there.
  reject_conn-IsSound :
      (now : ℕ) (frame : List ℕ) (out : Option ℕ) (w : Pair)
      → w.me.alive ≡ true
      → IsCounted others w
      → IsWithin w.peer
      → IsSound others (reject_conn now frame out w)
  unfolding reject_conn
  reject_conn-IsSound now frame out w here counted peer =
      let same = last_words-same frame out w in
      if_both (IsSound others) (not w.me.alive) w (close_conn now (last_words frame out w))
        (λ g. absurd (ground (arith, here, false_of_not g)))
        (λ _.
          close_conn-IsSound others now (last_words frame out w) (same.0 ∙ here)
            (last_words-IsCounted frame out w counted) (subst IsWithin (sym same.1) peer))

  -- A connection with bytes just put behind those that wait.
  record IsFilled (w : Pair) : Type 0 where
    pub here : w.me.alive ≡ true
    pub counted : IsCounted others w
    pub armed : w.me.want_write ≡ true
    pub received : (w.me.alive ≡ false) ⊎ (length w.me.rx ≤ k_max_rx_bytes)
    pub timed : (w.me.alive ≡ false) ⊎ ((t : ℕ) × (w.me.deadline ≡ some t))
    pub peer_within : IsWithin w.peer
    pub me_paused : IsPaused w.me w.peer
    pub peer_paused : IsPaused w.peer w.me

  after_append-IsSound :
      (now : ℕ) (again : Option ℕ) (w : Pair)
      → IsFilled w
      → IsSound others (after_append now again w).1
  unfolding after_append
  after_append-IsSound now again w v =
      let P = λ (r : Bool × Pair). IsSound others r.1 in
      let refused : Pair = record w { reject_tx_budget = w.reject_tx_budget + 1 } in
      let frame = build_reject tx_budget_reason budget_text in
      let paused =
        if ltb k_send_high_water (length w.me.tx) then pause_peer_read now true w else w in
      let rest : Bool × Pair =
        if ltb w.tx_budget w.tx_total
        then (false, reject_conn now frame again refused)
        else (true, paused) in
      if_both P (ltb k_send_hard_cap (length w.me.tx)) (false, close_conn now w) rest
        (λ _. close_conn-IsSound others now w v.here v.counted v.peer_within)
        (λ small.
          if_both P (ltb w.tx_budget w.tx_total) (false, reject_conn now frame again refused)
            (true, paused)
            (λ _. reject_conn-IsSound now frame again refused v.here v.counted v.peer_within)
            (λ _.
              let sound : IsSound others w = record {
                counted = v.counted;
                me_within = record {
                  cap = ground (arith, small);
                  armed = inr v.armed;
                  dead = inl v.here;
                  received = v.received;
                  timed = v.timed;
                };
                peer_within = v.peer_within;
                me_paused = v.me_paused;
                peer_paused = v.peer_paused;
              } in
              if_both (IsSound others) (ltb k_send_high_water (length w.me.tx))
                (pause_peer_read now true w) w
                (λ high. pause_peer_read-pause others now w sound (ground (arith, high)))
                (λ _. sound)))

  append_tx-IsFilled :
      (rest : List ℕ) (w : Pair)
      → w.me.alive ≡ true
      → IsSound others w
      → IsFilled (append_tx rest w)
  unfolding append_tx
  append_tx-IsFilled rest w here v =
      let size = length-append w.me.tx rest in
      record {
        here = here;
        counted = omega (arith, v.counted, size);
        armed = refl;
        received = v.me_within.received;
        timed = v.me_within.timed;
        peer_within = v.peer_within;
        me_paused = v.me_paused;
        peer_paused = elim v.peer_paused [
          | inl free ↦ inl free
          | inr high ↦ inr (omega (arith, high, size))
        ];
      }

  send_with-IsSound :
      (now : ℕ) (again : Option ℕ) (bytes : List ℕ) (out : Option ℕ) (w : Pair)
      → w.me.alive ≡ true
      → IsSound others w
      → IsSound others (send_with now again bytes out w).1
  unfolding send_with
  send_with-IsSound now again bytes none w here v = v
  send_with-IsSound now again bytes (some room) w here v =
      let sent = room_for room (length bytes) in
      let filled = append_tx (drop sent bytes) w in
      if_both (λ (r : Bool × Pair). IsSound others r.1) (ltb sent (length bytes))
        (after_append now again filled) (true, w)
        (λ _. after_append-IsSound now again filled (append_tx-IsFilled (drop sent bytes) w here v))
        (λ _. v)

  pub queue_send-IsSound :
      (now : ℕ) (out again : Option ℕ) (bytes : List ℕ) (w : Pair)
      → IsSound others w
      → IsSound others (queue_send now out again bytes w).1
  unfolding queue_send
  queue_send-IsSound now out again bytes w v =
      let o = if length w.me.tx == 0 then out else some 0 in
      if_both (λ (r : Bool × Pair). IsSound others r.1) (not w.me.alive) (false, w)
        (send_with now again bytes o w) (λ _. v)
        (λ here. send_with-IsSound now again bytes o w (true_of_not here) v)
