-- ===== src/Net/Session/Sending.antt =====
-- The sends of a round of `ioThread` of net/session.cpp keep the order of the queue and the bounds.
use tetris_multiplayer_rl.Net.Session.Grows.{IsBounded, Grows, Grows-trans}
use tetris_multiplayer_rl.Net.Session.Rounds.{IsSound, keep_alive-Grows, receive-Grows}
use tetris_multiplayer_rl.Net.Session.{Session}
use tetris_multiplayer_rl.Common.Assoc.{find}
use tetris_multiplayer_rl.Common.Returns.{if_both, Returns}
use tetris_multiplayer_rl.Net.Session.Io.{lose, Link, drain, keep_alive, receive}
use tetris_multiplayer_rl.Common.{
  ◌>>=◌, length, All, IsByte, ℕ, ◌≤◌, ◌≡◌, refl, sym, ap, ◌∙◌, ◌⊎◌, inl, inr, Bool, true, Option,
  none, some, List, [], ◌∷◌, ◌++◌, arith,
}
use mathlib.Core.List.{append_assoc, append-nil}
use mathlib.Core.Path.{subst}

-- What was sent and what is queued, in order.
unfoldable pub outgoing : Link → List (List ℕ)
outgoing l = l.sent ++ l.session.send_q

-- What a socket gives: bytes, or nothing where the connection is lost.
abbrev pub IsReceived : Option (List ℕ) → Type 0
IsReceived none = Unit
IsReceived (some bytes) = All IsByte bytes

-- What a drain of the queue `q` leaves.
record Drained (q : List (List ℕ)) (l t : Link) : Type 0 where
  pub order : t.sent ++ t.session.send_q ≡ l.sent ++ q
  pub done : (t.session.quit ≡ true) ⊎ (t.session.send_q ≡ [])
  pub inputs : t.session.remote_inputs ≡ l.session.remote_inputs
  pub chats : t.session.chat_q ≡ l.session.chat_q
  pub waits : t.session.recv_buf ≡ l.session.recv_buf
  pub shorter : length t.session.send_q ≤ length q

-- What a round keeps.
pub record Kept (l t : Link) : Type 0 where
  pub order : (more : List (List ℕ)) × (outgoing t ≡ outgoing l ++ more)
  pub done : (t.session.quit ≡ true) ⊎ (t.session.send_q ≡ [])
  pub inputs :
      (tick mask : ℕ)
      → find tick l.session.remote_inputs ≡ some mask
      → find tick t.session.remote_inputs ≡ some mask
  pub sound : IsSound t.session

module _ (sends : List (List ℕ) → List ℕ → Bool) where
  drain-Drained : (q : List (List ℕ)) (l : Link) → Drained q l (drain sends q l)
  unfolding drain
  drain-Drained [] l = record {
    order = refl;
    done = inr refl;
    inputs = refl;
    chats = refl;
    waits = refl;
    shorter = omega arith;
  }
  drain-Drained (pkt ∷ q) l =
      let l' = record l { sent = l.sent ++ pkt ∷ [] } in
      let rest = drain-Drained q l' in
      if_both (Drained (pkt ∷ q) l) (sends l.sent pkt) _ _
        (λ through. record {
          order = rest.order ∙ append_assoc l.sent (pkt ∷ []) q;
          done = rest.done;
          inputs = rest.inputs;
          chats = rest.chats;
          waits = rest.waits;
          shorter = omega (arith, rest.shorter);
        })
        (λ failed. record {
          order = append_assoc l.sent (pkt ∷ []) q;
          done = inl refl;
          inputs = refl;
          chats = refl;
          waits = refl;
          shorter = omega arith;
        })

  -- The session grew to `s`, and either nothing was sent, or its queue was.
  pub unsent-Kept :
      (l : Link) (s : Session)
      → Grows l.session s
      → IsSound l.session
      → s.quit ≡ true
      → Kept l (record l { session = s })
  unfolding outgoing
  unsent-Kept l s g (b, bytes) over = record {
    order = (
      g.queue.0,
      ap (λ q. l.sent ++ q) g.queue.1 ∙ sym (append_assoc l.sent l.session.send_q g.queue.0),
    );
    done = inl over;
    inputs = g.inputs;
    sound = (g.bounds b, subst (All IsByte) (sym g.waits) bytes);
  }

  sent-Kept :
      (l : Link) (s : Session)
      → Grows l.session s
      → IsBounded l.session
      → All IsByte s.recv_buf
      → Kept l (drain sends s.send_q (record l { session = s }))
  unfolding outgoing
  sent-Kept l s g b bytes =
      let d = drain-Drained s.send_q (record l { session = s }) in
      let grown = g.bounds b in
      record {
        order = (
          g.queue.0,
          d.order
              ∙ ap (λ q. l.sent ++ q) g.queue.1
              ∙ sym (append_assoc l.sent l.session.send_q g.queue.0),
        );
        done = d.done;
        inputs = λ tick mask e. ap (find tick) d.inputs ∙ g.inputs tick mask e;
        sound = (
          (
            omega (arith, grown.0, ap length d.inputs),
            omega (arith, grown.1, ap length d.chats),
            omega (arith, grown.2, d.shorter),
          ),
          subst (All IsByte) (sym d.waits) bytes,
        );
      }

  -- A round in which nothing came in yet, the keep-alive frames queued.
  module _ (now elapsed : ℕ) (l : Link) (sound : IsSound l.session) where
    pub received-Kept :
        (bytes : List ℕ)
        → All IsByte bytes
        → Returns (Kept l) (
            receive now bytes (keep_alive now l.session) >>= λ taken.
            some (drain sends taken.send_q (record l { session = taken })))
    unfolding outgoing
    received-Kept bytes h =
        let s = keep_alive now l.session in
        let alive = keep_alive-Grows now l.session in
        let (r, e, left, t, d, g) =
          receive-Grows now bytes s (subst (All IsByte) (sym alive.waits) sound.1) h in
        let s' = record s { recv_buf = r.stream_buf } in
        let first = record l.session { recv_buf = r.stream_buf } in
        let grows : Grows first t =
          Grows-trans first s' t
            (record {
              inputs = alive.inputs;
              reached = alive.reached;
              queue = alive.queue;
              waits = refl;
              quits = alive.quits;
              bounds = alive.bounds;
            })
            g in
        let k =
          sent-Kept (record l { session = first }) t grows sound.0
            (subst (All IsByte) (sym g.waits) left) in
        (
          drain sends t.send_q (record l { session = t }),
          ap (λ o. o >>= λ (x : Session). some (drain sends x.send_q (record l { session = x }))) d,
          record { order = k.order; done = k.done; inputs = k.inputs; sound = k.sound },
        )

    -- Where the connection is lost, the queue stays as it is.
    pub lost-Kept : (s : Session) → Grows l.session s → Kept l (record l { session = lose s })
    unfolding lose
    lost-Kept s g =
        unsent-Kept l (lose s)
          (Grows-trans l.session s (lose s) g (record {
            inputs = λ tick mask e. e;
            reached = omega arith;
            queue = ([], sym (append-nil s.send_q));
            waits = refl;
            quits = λ e. refl;
            bounds = λ b. b;
          }))
          sound refl
