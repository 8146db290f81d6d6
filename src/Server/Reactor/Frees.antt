-- ===== src/Server/Reactor/Frees.antt =====
-- A connection of server/reactor_relay.cpp that nobody can let go on is closed at its deadline, and
-- the other one with it.
use tetris_multiplayer_rl.Common.Returns.{if_both}
use tetris_multiplayer_rl.Server.Reactor.Waiting.{on_timeout}
use tetris_multiplayer_rl.Server.Reactor.{
  swap_sides, resume, pause_peer_read, release_tx, shut, close_conn, k_idle_timeout, Pair,
  close_one, Conn, close_both,
}
use tetris_multiplayer_rl.Server.Reactor.Sound.{IsSound, close_conn-any, IsWithin}
use tetris_multiplayer_rl.Common.{
  if◌then◌else◌, false_of_not, length, ℕ, ◌+◌, ◌≡◌, refl, ◌∙◌, ◌⊎◌, inl, inr, true, false, not,
  ◌&&◌, some, arith,
}

pause_peer_read-alive :
    (now : ℕ) (w : Pair) → (pause_peer_read now false w).peer.alive ≡ w.peer.alive
unfolding pause_peer_read resume
pause_peer_read-alive now w =
    let again : Pair = record w { peer = resume now w.peer } in
    if_both (λ (u : Pair). u.peer.alive ≡ w.peer.alive) (not w.peer.alive) w
      (if w.peer.read_paused then again else w) (λ _. refl)
      (λ _.
        if_both (λ (u : Pair). u.peer.alive ≡ w.peer.alive) w.peer.read_paused again w (λ _. refl)
          (λ _. refl))

none_waits : (c : Conn) → IsWithin c → c.alive ≡ false → length c.tx ≡ 0
none_waits c v gone = elim v.dead [
  | inl here ↦ absurd (ground (arith, here, gone))
  | inr empty ↦ empty
]

close_one-alive :
    (now : ℕ) (w : Pair)
    → ((close_one now w).me.alive ≡ false)
      × (w.peer.alive ≡ false → (close_one now w).peer.alive ≡ false)
unfolding close_one shut release_tx
close_one-alive now w =
    let r = pause_peer_read now false w in
    if_both (λ (u : Pair). (u.me.alive ≡ false) × (w.peer.alive ≡ false → u.peer.alive ≡ false))
      (not w.me.alive) w (shut r) (λ gone. (false_of_not gone, λ e. e))
      (λ _. (refl, λ e. pause_peer_read-alive now w ∙ e))

close_conn-alive :
    (now : ℕ) (w : Pair)
    → w.me.alive ≡ true
    → ((close_conn now w).me.alive ≡ false) × ((close_conn now w).peer.alive ≡ false)
unfolding close_conn close_both swap_sides
close_conn-alive now w here =
    let one = close_one now w in
    let first = close_one-alive now w in
    let second = close_one-alive now (swap_sides one) in
    if_both (λ (u : Pair). (u.me.alive ≡ false) × (u.peer.alive ≡ false)) (not w.me.alive) w
      (close_both now w) (λ gone. absurd (ground (arith, here, false_of_not gone)))
      (λ _. (second.1 first.0, second.0))

-- Both are closed, and nothing of theirs is counted any more.
module _ (others : ℕ) where
  abbrev pub IsOver : Pair → Type 0
  IsOver w = (w.me.alive ≡ false) × (w.peer.alive ≡ false) × (w.tx_total ≡ others)

  closed-IsOver :
      (w : Pair) → IsSound others w → w.me.alive ≡ false → w.peer.alive ≡ false → IsOver w
  closed-IsOver w v gone off =
      let mine = none_waits w.me v.me_within gone in
      let its = none_waits w.peer v.peer_within off in
      (gone, off, omega (arith, v.counted, mine, its))

  close_conn-IsOver :
      (now : ℕ) (w : Pair) → IsSound others w → w.me.alive ≡ true → IsOver (close_conn now w)
  close_conn-IsOver now w v here =
      let off = close_conn-alive now w here in
      closed-IsOver (close_conn now w) (close_conn-any others now w v) off.0 off.1

  -- A connection whose deadline is reached while it is open is closed together with the other one,
  -- and the counter is left with what waits for `others`, unless it is only paused by the other one,
  -- which is open and not paused itself: two that pause each other do not wait for ever.
  pub on_timeout-IsOver :
      (now : ℕ) (w : Pair)
      → IsSound others w
      → w.me.alive ≡ true
      → (w.me.read_paused ≡ false) ⊎ ((w.peer.alive ≡ false) ⊎ (w.peer.read_paused ≡ true))
      → IsOver (on_timeout now w)
  unfolding on_timeout
  on_timeout-IsOver now w v here stuck =
      let later : Pair = record w { me = record w.me { deadline = some (now + k_idle_timeout) } } in
      let held = w.me.read_paused && w.peer.alive && not w.peer.read_paused in
      if_both IsOver (not w.me.alive) w (if held then later else close_conn now w)
        (λ gone. absurd (ground (arith, here, false_of_not gone)))
        (λ _.
          if_both IsOver held later (close_conn now w) (λ h. absurd (ground (arith, h, stuck)))
            (λ _. close_conn-IsOver now w v here))
