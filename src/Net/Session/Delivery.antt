-- ===== src/Net/Session/Delivery.antt =====
-- The rounds of `ioThread` of net/session.cpp go on whatever comes in, keep the session within its
-- bounds, and send the queue in order.
use tetris_multiplayer_rl.Net.Session.{get_remote_input}
use tetris_multiplayer_rl.Net.Session.Grows.{Grows-others}
use tetris_multiplayer_rl.Common.Returns.{if_both, Returns}
use tetris_multiplayer_rl.Common.Assoc.{find}
use tetris_multiplayer_rl.Net.Session.Rounds.{keep_alive-Grows, IsSound}
use tetris_multiplayer_rl.Net.Session.Sending.{
  received-Kept, lost-Kept, Kept, IsReceived, outgoing, unsent-Kept,
}
use tetris_multiplayer_rl.Net.Session.Io.{
  drain, receive, keep_alive, lose, io_round, io_rounds, Link, k_connection_timeout_ms,
}
use tetris_multiplayer_rl.Common.{
  ltb, ◌>>=◌, All, ℕ, ◌≡◌, refl, sym, ap, ◌∙◌, ◌⊎◌, inl, inr, Bool, true, not, ◌&&◌, Option, none,
  some, List, [], ◌∷◌, ◌++◌,
}
use mathlib.Core.List.{append-nil, append_assoc}

module _ (sends : List (List ℕ) → List ℕ → Bool) where
  module _ (now elapsed : ℕ) (l : Link) (sound : IsSound l.session) where
    io_round-Kept :
        (received : Option (List ℕ))
        → IsReceived received
        → Returns (Kept l) (io_round sends now elapsed received l)
    unfolding io_round
    io_round-Kept received h =
        let s = l.session in
        let same = Grows-others s s refl refl refl refl refl (λ b. b) in
        if_both (Returns (Kept l)) s.quit _ _
          (λ over. (l, refl, unsent-Kept sends l s same sound over))
          (λ runs.
            if_both (Returns (Kept l)) (not s.ready && ltb k_connection_timeout_ms elapsed) _ _
              (λ late. (_, refl, lost-Kept sends now elapsed l sound s same))
              (λ in_time. in_time_round received h))
      where
        in_time_round :
            (received : Option (List ℕ))
            → IsReceived received
            → Returns (Kept l) (elim received [
              | none ↦ some (record l { session = lose (keep_alive now l.session) })
              | some bytes ↦ receive now bytes (keep_alive now l.session) >>= λ taken.
                  some (drain sends taken.send_q (record l { session = taken }))
            ])
        in_time_round none h = (
          _,
          refl,
          lost-Kept sends now elapsed l sound (keep_alive now l.session)
              (keep_alive-Grows now l.session),
        )
        in_time_round (some bytes) h = received-Kept sends now elapsed l sound bytes h

  -- All that the rounds keep.
  rounds-Kept :
      (rounds : List (ℕ × ℕ × Option (List ℕ))) (l : Link)
      → IsSound l.session
      → All (λ turn. IsReceived turn.2) rounds
      → (t : Link) × (io_rounds sends rounds l ≡ some t)
        × IsSound t.session
        × (more : List (List ℕ)) × (outgoing t ≡ outgoing l ++ more)
        × ((tick mask : ℕ)
            → find tick l.session.remote_inputs ≡ some mask
            → find tick t.session.remote_inputs ≡ some mask)
  unfolding io_rounds
  rounds-Kept [] l sound h = (l, refl, sound, [], sym (append-nil (outgoing l)), λ tick mask e. e)
  rounds-Kept ((now, elapsed, received) ∷ rounds) l sound (v, h) =
      let (m, e, k) = io_round-Kept now elapsed l sound received v in
      let (t, d, u, more, o, inputs) = rounds-Kept rounds m k.sound h in
      (
        t,
        ap (λ o. o >>= io_rounds sends rounds) e ∙ d,
        u,
        k.order.0 ++ more,
        o ∙ ap (λ x. x ++ more) k.order.1 ∙ append_assoc (outgoing l) k.order.0 more,
        λ tick mask g. inputs tick mask (k.inputs tick mask g),
      )

  -- However many rounds run, whatever bytes come in, and whichever sends get through: the thread goes
  -- on, the session stays within its bounds (8192 inputs, 256 chat lines, 4096 queued frames), and what
  -- it sends and then queues goes on from what it had sent and queued, in that order.
  pub io_rounds-IsSound :
      (rounds : List (ℕ × ℕ × Option (List ℕ))) (l : Link)
      → IsSound l.session
      → All (λ turn. IsReceived turn.2) rounds
      → (t : Link) × (io_rounds sends rounds l ≡ some t)
        × IsSound t.session
        × (more : List (List ℕ)) × (outgoing t ≡ outgoing l ++ more)
  io_rounds-IsSound rounds l sound h =
      let (t, e, u, more, o, inputs) = rounds-Kept rounds l sound h in (t, e, u, more, o)

  -- An input that the session holds stays, with its mask, however many rounds run, whatever bytes come
  -- in, a second input for its tick included, and whichever sends get through.
  pub io_rounds-get_remote_input :
      (rounds : List (ℕ × ℕ × Option (List ℕ))) (l : Link) (tick mask : ℕ)
      → IsSound l.session
      → All (λ turn. IsReceived turn.2) rounds
      → get_remote_input tick l.session ≡ some mask
      → (t : Link) × (io_rounds sends rounds l ≡ some t)
        × (get_remote_input tick t.session ≡ some mask)
  unfolding get_remote_input
  io_rounds-get_remote_input rounds l tick mask sound h held =
      let (t, e, u, more, o, inputs) = rounds-Kept rounds l sound h in (t, e, inputs tick mask held)

  -- A round that leaves the session running has sent all that was queued.
  pub io_round-empties :
      (now elapsed : ℕ) (received : Option (List ℕ)) (l : Link)
      → IsSound l.session
      → IsReceived received
      → (t : Link) × (io_round sends now elapsed received l ≡ some t)
        × ((t.session.quit ≡ true)
            ⊎ ((t.session.send_q ≡ [])
                × (more : List (List ℕ)) × (t.sent ≡ (l.sent ++ l.session.send_q) ++ more)))
  unfolding outgoing
  io_round-empties now elapsed received l sound h =
      let (t, e, k) = io_round-Kept now elapsed l sound received h in
      (
        t,
        e,
        elim k.done [
          | inl over ↦ inl over
          | inr empty ↦ inr (
            empty,
            k.order.0,
            sym (append-nil t.sent) ∙ ap (λ q. t.sent ++ q) (sym empty) ∙ k.order.1,
          )
        ],
      )
