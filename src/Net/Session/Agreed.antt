-- ===== src/Net/Session/Agreed.antt =====
-- What the flags of the lobby of net/session.cpp stand for: the answers that were read, and the one
-- that is sent or waits.
use tetris_multiplayer_rl.Net.Session.Io.{lose}
use tetris_multiplayer_rl.Common.Returns.{if_both}
use tetris_multiplayer_rl.Net.Framing.{queue_cancel, ready_msg, Frame, build_frame}
use tetris_multiplayer_rl.Net.Session.Queue.{
  declines, cancels, confirms, queue_quit, queue_do_cancel, fail, Choice, queue_decline, choose_all,
  queue_confirm, choose,
}
use tetris_multiplayer_rl.Net.Session.Matching.{Seeker}
use tetris_multiplayer_rl.Net.Session.Lobby.{
  Heard, says_no, lobby_frame, drain_answers, lobby_frames,
}
use mathlib.Core.Path.{subst}
use mathlib.Core.List.{
  Mem, Mem-prop, mem-append, mem-append_left, mem-append_right, mem-cons_self, append_assoc,
}
use mathlib.Core.Logic.Or
use tetris_multiplayer_rl.Common.{
  ◌==◌, if◌then◌else◌, All, ℕ, suc, ◌+◌, ◌≤◌, ◌≡◌, refl, sym, ◌∙◌, ◌≢◌, ◌⊎◌, inl, inr, Bool, true,
  false, List, [], ◌∷◌, ◌++◌, arith,
}

-- A frame that is no answer of the lobby, or says yes: its first byte is not 0.
abbrev pub IsNoRefusal : Frame → Type 0
IsNoRefusal f =
    (f.type ≢ ready_msg) ⊎ ((v : ℕ) × (rest : List ℕ) × (f.payload ≡ v ∷ rest) × (v ≢ 0))

unfoldable pub answers : List Frame → ℕ
answers [] = 0
answers (f ∷ frames) = let n = answers frames in if f.type == ready_msg then suc n else n

-- READY(1), the player's own answer.
abbrev pub own_answer : List ℕ
own_answer = build_frame ready_msg (1 ∷ [])

-- A player who confirmed has the answer sent, or waiting to be sent.
abbrev pub IsTold : List (List ℕ) × Seeker → Type 0
IsTold st = st.1.queue_local_ready ≡ true → Mem own_answer (st.0 ++ st.1.queue_send_q)

-- The steps of the player and of the sends touch neither the other's answer nor the game's bytes.
pub record Moves (st t : List (List ℕ) × Seeker) : Type 0 where
  pub buffer : t.1.session.recv_buf ≡ st.1.session.recv_buf
  pub other : t.1.queue_peer_ready ≡ st.1.queue_peer_ready
  pub told : IsTold st → IsTold t

pub Moves-trans : (x y z : List (List ℕ) × Seeker) → Moves x y → Moves y z → Moves x z
Moves-trans x y z h k = record {
  buffer = k.buffer ∙ h.buffer;
  other = k.other ∙ h.other;
  told = λ v. k.told (h.told v);
}

-- More frames sent.
told_more :
    (sent more q : List (List ℕ))
    → Mem own_answer (sent ++ q)
    → Mem own_answer ((sent ++ more) ++ q)
told_more sent more q m =
    Or.elim Mem-prop (mem-append.0 m) (λ x. mem-append_left q (mem-append_left more x))
      (λ y. mem-append_right (sent ++ more) y)

queue_confirm-Moves : (sent : List (List ℕ)) (s : Seeker) → Moves (sent, s) (sent, queue_confirm s)
unfolding queue_confirm
queue_confirm-Moves sent s =
    let q = s.queue_send_q ++ own_answer ∷ [] in
    let on : Seeker = record s { queue_local_ready = true; queue_send_q = q } in
    if_both (λ (t : Seeker). Moves (sent, s) (sent, t)) s.queue_local_ready s on
      (λ _. record { buffer = refl; other = refl; told = λ v. v })
      (λ _. record {
        buffer = refl;
        other = refl;
        told = λ v e. mem-append_right sent (mem-append_right s.queue_send_q mem-cons_self);
      })

choose-Moves : (c : Choice) (st : List (List ℕ) × Seeker) → Moves st (choose c st)
unfolding choose queue_decline queue_do_cancel queue_quit
choose-Moves confirms (sent, s) = queue_confirm-Moves sent s
choose-Moves declines (sent, s) = record {
  buffer = refl;
  other = refl;
  told = λ v e. told_more sent (build_frame ready_msg (0 ∷ []) ∷ []) s.queue_send_q (v e);
}
choose-Moves cancels (sent, s) = record {
  buffer = refl;
  other = refl;
  told = λ v e. told_more sent (build_frame queue_cancel [] ∷ []) s.queue_send_q (v e);
}

pub choose_all-Moves :
    (choices : List Choice) (st : List (List ℕ) × Seeker) → Moves st (choose_all choices st)
unfolding choose_all
choose_all-Moves [] st = record { buffer = refl; other = refl; told = λ v. v }
choose_all-Moves (c ∷ choices) st =
    Moves-trans st (choose c st) (choose_all choices (choose c st)) (choose-Moves c st)
      (choose_all-Moves choices (choose c st))

module _ (sends : List (List ℕ) → List ℕ → Bool) where
  -- What was sent and what waits are the same frames before and after, in order.
  drain_answers-same :
      (q sent : List (List ℕ)) (s : Seeker)
      → let t = drain_answers sends q sent s in
        (t.0 ++ t.1.queue_send_q ≡ sent ++ q)
        × (t.1.queue_local_ready ≡ s.queue_local_ready)
        × (t.1.queue_peer_ready ≡ s.queue_peer_ready)
        × (t.1.session.recv_buf ≡ s.session.recv_buf)
  unfolding drain_answers fail lose
  drain_answers-same [] sent s = (refl, refl, refl, refl)
  drain_answers-same (pkt ∷ q) sent s =
      let P = λ (t : List (List ℕ) × Seeker).
        (t.0 ++ t.1.queue_send_q ≡ sent ++ pkt ∷ q)
        × (t.1.queue_local_ready ≡ s.queue_local_ready)
        × (t.1.queue_peer_ready ≡ s.queue_peer_ready)
        × (t.1.session.recv_buf ≡ s.session.recv_buf) in
      let same = append_assoc sent (pkt ∷ []) q in
      if_both P (sends sent pkt) _ _
        (λ _. let (a, b, c, d) = drain_answers-same q (sent ++ pkt ∷ []) s in (a ∙ same, b, c, d))
        (λ _. (same, refl, refl, refl))

  pub drain_answers-Moves :
      (st : List (List ℕ) × Seeker) → Moves st (drain_answers sends st.1.queue_send_q st.0 st.1)
  drain_answers-Moves st =
      let (a, b, c, d) = drain_answers-same st.1.queue_send_q st.0 st.1 in
      record { buffer = d; other = c; told = λ v e. subst (Mem own_answer) (sym a) (v (sym b ∙ e)) }

-- What the frames of the lobby tell: who goes on was refused by none, and knows of an answer from one.
pub record IsHeard (frames : List Frame) (h t : Heard) : Type 0 where
  pub accepted : t.peer_declined ≡ false → (h.peer_declined ≡ false) × All IsNoRefusal frames
  pub other :
      t.seeker.queue_peer_ready ≡ true → (h.seeker.queue_peer_ready ≡ true) ⊎ (1 ≤ answers frames)
  pub mine : t.seeker.queue_local_ready ≡ h.seeker.queue_local_ready
  pub queued : t.seeker.queue_send_q ≡ h.seeker.queue_send_q

says_no-yes :
    (p : List ℕ) → says_no p ≡ false → (v : ℕ) × (rest : List ℕ) × (p ≡ v ∷ rest) × (v ≢ 0)
unfolding says_no
says_no-yes [] e = absurd (ground (arith, e))
says_no-yes (v ∷ rest) e = (v, rest, refl, λ z. absurd (ground (arith, e, z)))

lobby_frame-IsHeard : (f : Frame) (h : Heard) → IsHeard (f ∷ []) h (lobby_frame f h)
unfolding lobby_frame answers
lobby_frame-IsHeard f h =
    let P = IsHeard (f ∷ []) h in
    if_both P (f.type == ready_msg) _ _
      (λ ready.
        let one : 1 ≤ answers (f ∷ []) = ground (arith, ready) in
        if_both P (says_no f.payload) _ _
          (λ no. record {
            accepted = λ e. absurd (ground (arith, e));
            other = λ e. inl e;
            mine = refl;
            queued = refl;
          })
          (λ yes. record {
            accepted = λ e. (e, (inr (says_no-yes f.payload yes), tt));
            other = λ e. inr one;
            mine = refl;
            queued = refl;
          }))
      (λ game. record {
        accepted = λ e. (e, (inl (λ c. absurd (ground (arith, game, c))), tt));
        other = λ e. inl e;
        mine = refl;
        queued = refl;
      })

answers-more :
    (f : Frame) (frames : List Frame)
    → (answers (f ∷ []) ≤ answers (f ∷ frames)) × (answers frames ≤ answers (f ∷ frames))
unfolding answers
answers-more f frames =
    if_both (λ (n : ℕ). (answers (f ∷ []) ≤ n) × (answers frames ≤ n)) (f.type == ready_msg)
      (suc (answers frames)) (answers frames) (λ ready. (ground (arith, ready), omega arith))
      (λ game. (ground (arith, game), omega arith))

pub answers-append : (xs ys : List Frame) → answers (xs ++ ys) ≡ answers xs + answers ys
unfolding answers
answers-append [] ys = omega arith
answers-append (f ∷ xs) ys =
    let rest = answers-append xs ys in
    if_both (λ (n : ℕ). n ≡ answers (f ∷ xs) + answers ys) (f.type == ready_msg)
      (suc (answers (xs ++ ys))) (answers (xs ++ ys)) (λ ready. ground (arith, ready, rest))
      (λ game. ground (arith, game, rest))

pub lobby_frames-IsHeard :
    (frames : List Frame) (h : Heard) → IsHeard frames h (lobby_frames frames h)
unfolding lobby_frames
lobby_frames-IsHeard [] h = record {
  accepted = λ e. (e, tt);
  other = λ e. inl e;
  mine = refl;
  queued = refl;
}
lobby_frames-IsHeard (f ∷ frames) h =
    let one = lobby_frame-IsHeard f h in
    let rest = lobby_frames-IsHeard frames (lobby_frame f h) in
    let more = answers-more f frames in
    record {
      accepted = λ e.
          let (good, all) = rest.accepted e in
          let (fine, first) = one.accepted good in (fine, (first.0, all));
      other = λ e. elim (rest.other e) [
        | inl on ↦ elim (one.other on) [
          | inl before ↦ inl before
          | inr here ↦ inr (omega (arith, here, more))
        ]
        | inr later ↦ inr (omega (arith, later, more))
      ];
      mine = rest.mine ∙ one.mine;
      queued = rest.queued ∙ one.queued;
    }
