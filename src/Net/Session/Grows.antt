-- ===== src/Net/Session/Grows.antt =====
-- What no step of net/session.cpp takes away from a session: the inputs it holds, the place it has
-- reached, the frames it queues, and the bounds on all three.
use tetris_multiplayer_rl.Common.Returns.{if_both}
use tetris_multiplayer_rl.Net.Session.Handle.{take_input, take_inputs, emplace}
use tetris_multiplayer_rl.Common.Assoc.{find}
use tetris_multiplayer_rl.Net.Session.{Session, push_send}
use tetris_multiplayer_rl.Common.{
  ltb, leb, ◌==◌, if◌then◌else◌, ==_iff, Bool-cases, Option-cases, if_false, has_value, length,
  length-append, u32, ℕ, ◌+◌, ◌-◌, ◌≤◌, ◌<◌, ◌≡◌, refl, sym, ap, ◌∙◌, inl, inr, true, false, not,
  ◌&&◌, none, some, List, [], ◌∷◌, ◌++◌, arith,
}
use mathlib.Core.List.{append-nil, append_assoc}

abbrev pub IsBounded : Session → Type 0
IsBounded s = (length s.remote_inputs ≤ 8192) × (length s.chat_q ≤ 256) × (length s.send_q ≤ 4096)

pub record Grows (s t : Session) : Type 0 where
  pub inputs :
      (tick mask : ℕ)
      → find tick s.remote_inputs ≡ some mask
      → find tick t.remote_inputs ≡ some mask
  pub reached : s.last_remote_tick ≤ t.last_remote_tick
  pub queue : (more : List (List ℕ)) × (t.send_q ≡ s.send_q ++ more)
  pub waits : t.recv_buf ≡ s.recv_buf
  pub quits : s.quit ≡ true → t.quit ≡ true
  pub bounds : IsBounded s → IsBounded t

pub Grows-trans : (s t u : Session) → Grows s t → Grows t u → Grows s u
Grows-trans s t u g h = record {
  inputs = λ tick mask e. h.inputs tick mask (g.inputs tick mask e);
  reached = omega (arith, g.reached, h.reached);
  queue = (
    g.queue.0 ++ h.queue.0,
    h.queue.1 ∙ ap (λ q. q ++ h.queue.0) g.queue.1 ∙ append_assoc s.send_q g.queue.0 h.queue.0,
  );
  waits = h.waits ∙ g.waits;
  quits = λ e. h.quits (g.quits e);
  bounds = λ b. h.bounds (g.bounds b);
}

-- A change of the other fields.
pub Grows-others :
    (s t : Session)
    → t.remote_inputs ≡ s.remote_inputs
    → t.last_remote_tick ≡ s.last_remote_tick
    → t.send_q ≡ s.send_q
    → t.recv_buf ≡ s.recv_buf
    → t.quit ≡ s.quit
    → (length s.chat_q ≤ 256 → length t.chat_q ≤ 256)
    → Grows s t
Grows-others s t inputs reached queue waits quits chats = record {
  inputs = λ tick mask e. ap (find tick) inputs ∙ e;
  reached = omega (arith, reached);
  queue = ([], queue ∙ sym (append-nil s.send_q));
  waits = waits;
  quits = λ e. quits ∙ e;
  bounds =
      λ b. (omega (arith, b.0, ap length inputs), chats b.1, omega (arith, b.2, ap length queue));
}

pub push_send-Grows : (fr : List ℕ) (s : Session) → Grows s (push_send fr s)
unfolding push_send
push_send-Grows fr s =
    if_both (Grows s) (leb 4096 (length s.send_q)) _ _
      (λ full. record {
        inputs = λ tick mask e. e;
        reached = omega arith;
        queue = ([], sym (append-nil s.send_q));
        waits = refl;
        quits = λ e. refl;
        bounds = λ b. b;
      })
      (λ room. record {
        inputs = λ tick mask e. e;
        reached = omega arith;
        queue = (fr ∷ [], refl);
        waits = refl;
        quits = λ e. e;
        bounds = λ b. (b.0, b.1, ground (arith, room, length-append s.send_q (fr ∷ [])));
      })

module _ (tick mask : ℕ) (m : List (ℕ × ℕ)) where
  pub emplace_new : find tick m ≡ none → emplace tick mask m ≡ (tick, mask) ∷ m
  unfolding emplace
  emplace_new h = ap (λ o. elim o [ none ↦ (tick, mask) ∷ m | some old ↦ m ]) h

  pub emplace_old : (old : ℕ) → find tick m ≡ some old → emplace tick mask m ≡ m
  unfolding emplace
  emplace_old old h = ap (λ o. elim o [ none ↦ (tick, mask) ∷ m | some old ↦ m ]) h

  -- An input that is there stays.
  pub find-emplace : (k v : ℕ) → find k m ≡ some v → find k (emplace tick mask m) ≡ some v
  find-emplace k v h = elim (Option-cases (find tick m)) [
    | inl new ↦
        let other : (tick == k) ≡ false = elim (Bool-cases (tick == k)) [
          | inl same ↦
              let e : none ≡ some v = sym new ∙ ap (λ t. find t m) ((==_iff tick k).0 same) ∙ h in
              absurd (ground (arith, e))
          | inr other ↦ other
        ] in
        ap (find k) (emplace_new new) ∙ if_false _ _ other ∙ h
    | inr (old, e) ↦ ap (find k) (emplace_old old e) ∙ h
  ]

  length-emplace :
      length m ≤ 8192
      → (leb 8192 (length m) && not (has_value (find tick m))) ≡ false
      → length (emplace tick mask m) ≤ 8192
  length-emplace h room = elim (Option-cases (find tick m)) [
    | inl new ↦
        let free = ap (λ o. leb 8192 (length m) && not (has_value o)) (sym new) ∙ room in
        let less : length m < 8192 = ground (arith, free, h) in
        omega (arith, less, ap length (emplace_new new))
    | inr (old, e) ↦ omega (arith, h, ap length (emplace_old old e))
  ]

pub take_input-Grows : (cur tick mask : ℕ) (s : Session) → Grows s (take_input cur tick mask s)
unfolding take_input
take_input-Grows cur tick mask s =
    let same = Grows-others s s refl refl refl refl refl (λ b. b) in
    if_both (Grows s) (ltb 4096 (if leb cur tick then tick - cur else cur - tick)) _ _ (λ far. same)
      (λ near.
        if_both (Grows s)
          (leb 8192 (length s.remote_inputs) && not (has_value (find tick s.remote_inputs))) _ _
          (λ full. same)
          (λ room. record {
            inputs = λ k v. find-emplace tick mask s.remote_inputs k v;
            reached = ground arith;
            queue = ([], sym (append-nil s.send_q));
            waits = refl;
            quits = λ e. e;
            bounds = λ b. (length-emplace tick mask s.remote_inputs b.0 room, b.1, b.2);
          }))

pub take_inputs-Grows :
    (cur from i : ℕ) (arr : List ℕ) (s : Session) → Grows s (take_inputs cur from i arr s)
unfolding take_inputs
take_inputs-Grows cur from i [] s = Grows-others s s refl refl refl refl refl (λ b. b)
take_inputs-Grows cur from i (mask ∷ arr) s =
    let first = take_input cur (u32 (from + i)) mask s in
    Grows-trans s first (take_inputs cur from (i + 1) arr first)
      (take_input-Grows cur (u32 (from + i)) mask s) (take_inputs-Grows cur from (i + 1) arr first)
