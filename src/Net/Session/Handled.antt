-- ===== src/Net/Session/Handled.antt =====
-- `handleFrame` of net/session.cpp gives a session for every frame, and takes nothing away.
use tetris_multiplayer_rl.Net.Framing.Reads.{
  get_elem?-Read, le_read_u64-Read, le_read_u16-Read, le_read_u32-Read,
}
use tetris_multiplayer_rl.Common.Returns.{Returns-read, if_both, Returns}
use tetris_multiplayer_rl.Net.Framing.{
  chat, pong, ping, game_over_choice, hash_msg, input_msg, seed_msg, le_write_u32, hello_ack, ack,
  build_frame, hello, Frame, match_result,
}
use tetris_multiplayer_rl.Net.Session.Grows.{
  take_inputs-Grows, push_send-Grows, Grows-trans, Grows, Grows-others, IsBounded,
}
use tetris_multiplayer_rl.Net.Session.{Session}
use tetris_multiplayer_rl.Net.Session.Handle.{
  take_inputs, handle_hello, handle_chat, handle_seed, handle_frame, handle_input, handle_choice,
  handle_hash, handle_match_result, queue_chat, handle_frames,
}
use tetris_multiplayer_rl.Common.{
  ltb, leb, ◌==◌, leb→le, ==_iff, Bool-cases, ◌>>=◌, length, take, drop, length-append, length-drop,
  ℕ, ◌+◌, ◌≤◌, ◌≡◌, refl, ap, ◌∙◌, inl, inr, Bool, ◌||◌, Option, some, List, [], ◌∷◌, ◌++◌, arith,
}

abbrev pub Grown : Session → Option Session → Type 0
Grown s o = Returns (Grows s) o

module _ (s : Session) where
  Grown-some : (t : Session) → Grows s t → Grown s (some t)
  Grown-some t g = (t, refl, g)

  Grown-same : Grown s (some s)
  Grown-same = Grown-some s (Grows-others s s refl refl refl refl refl (λ b. b))

  handle_seed-Grown : (now : ℕ) (p : List ℕ) → Grown s (handle_seed now p s)
  unfolding handle_seed
  handle_seed-Grown now p =
      if_both (Grown s) (leb 14 (length p)) _ _
        (λ long.
          let size = leb→le 14 (length p) long in
          Returns-read (Grows s) _ _ (le_read_u64-Read p 0 (omega (arith, size))) (λ a.
            Returns-read (Grows s) _ _ (le_read_u32-Read p 8 (omega (arith, size))) (λ b.
              Returns-read (Grows s) _ _ (get_elem?-Read p 12 (omega (arith, size))) (λ c.
                Returns-read (Grows s) _ _ (get_elem?-Read p 13 (omega (arith, size)))
                  (λ d. Grown-some _ (Grows-others s _ refl refl refl refl refl (λ b. b)))))))
        (λ short. Grown-same)

  handle_input-Grown : (p : List ℕ) → Grown s (handle_input p s)
  unfolding handle_input
  handle_input-Grown p =
      if_both (Grown s) (leb 6 (length p)) _ _
        (λ long.
          let size = leb→le 6 (length p) long in
          Returns-read (Grows s) _ _ (le_read_u32-Read p 0 (omega (arith, size))) (λ from.
            Returns-read (Grows s) _ _ (le_read_u16-Read p 4 (omega (arith, size))) (λ cnt.
              let t = take_inputs s.last_remote_tick from 0 (take cnt (drop 6 p)) s in
              let fr = build_frame ack (le_write_u32 [] t.last_remote_tick) in
              Grown-some _ (
                if_both (Grows s) (ltb (length p) (6 + cnt)) _ _
                  (λ cut. Grows-others s s refl refl refl refl refl (λ b. b))
                  (λ whole.
                    Grows-trans s t _
                      (take_inputs-Grows s.last_remote_tick from 0 (take cnt (drop 6 p)) s)
                      (push_send-Grows fr t))))))
        (λ short. Grown-same)

  handle_hash-Grown : (p : List ℕ) → Grown s (handle_hash p s)
  unfolding handle_hash
  handle_hash-Grown p =
      if_both (Grown s) (length p == 12) _ _
        (λ long.
          let size : length p ≡ 12 = (==_iff (length p) 12).0 long in
          Returns-read (Grows s) _ _ (le_read_u32-Read p 0 (omega (arith, size))) (λ a.
            Returns-read (Grows s) _ _ (le_read_u64-Read p 4 (omega (arith, size)))
              (λ b. Grown-some _ (Grows-others s _ refl refl refl refl refl (λ b. b)))))
        (λ short. Grown-same)

  handle_choice-Grows : (p : List ℕ) → Grows s (handle_choice p s)
  unfolding handle_choice
  handle_choice-Grows [] = Grows-others s s refl refl refl refl refl (λ b. b)
  handle_choice-Grows (choice ∷ p) =
      if_both (Grows s) ((choice == 1) || (choice == 2)) _ _
        (λ valid. Grows-others s _ refl refl refl refl refl (λ b. b))
        (λ other. Grows-others s s refl refl refl refl refl (λ b. b))

  queue_chat-length :
      (text : List ℕ) → length s.chat_q ≤ 256 → length (queue_chat text s.chat_q) ≤ 256
  unfolding queue_chat
  queue_chat-length text h = elim (Bool-cases (leb 256 (length s.chat_q))) [
    | inl full ↦
        rw full
          (omega (arith, h, length-append (drop 1 s.chat_q) (text ∷ []), length-drop 1 s.chat_q))
    | inr room ↦ rw room (ground (arith, room, length-append s.chat_q (text ∷ [])))
  ]

  handle_chat-Grown : (p : List ℕ) → Grown s (handle_chat p s)
  unfolding handle_chat
  handle_chat-Grown p =
      if_both (Grown s) (ltb (length p) 2) _ _ (λ short. Grown-same)
        (λ long. Returns-read (Grows s) _ _ (le_read_u16-Read p 0 (ground (arith, long))) (λ n.
          Grown-some _ (
            if_both (Grows s) (ltb (length p) (n + 2)) _ _
              (λ cut. Grows-others s s refl refl refl refl refl (λ b. b))
              (λ whole.
                Grows-others s _ refl refl refl refl refl
                  (queue_chat-length (take n (drop 2 p)))))))

  handle_match_result-Grown : (p : List ℕ) → Grown s (handle_match_result p s)
  unfolding handle_match_result
  handle_match_result-Grown p =
      if_both (Grown s) (ltb (length p) 12) _ _ (λ short. Grown-same)
        (λ long.
          let size : 12 ≤ length p = ground (arith, long) in
          Returns-read (Grows s) _ _ (le_read_u32-Read p 0 (omega (arith, size))) (λ a.
            Returns-read (Grows s) _ _ (le_read_u32-Read p 4 (omega (arith, size))) (λ b.
              Returns-read (Grows s) _ _ (le_read_u32-Read p 8 (omega (arith, size)))
                (λ c. Grown-some _ (Grows-others s _ refl refl refl refl refl (λ b. b))))))

  pub handle_frame-Grown : (now : ℕ) (f : Frame) → Grown s (handle_frame now f s)
  unfolding handle_frame handle_hello
  handle_frame-Grown now f =
      let other = λ (b : Bool) (x y : Option Session) (h : Grown s x) (k : Grown s y).
        if_both (Grown s) b x y (λ e. h) (λ e. k) in
      let p = f.payload in
      other (f.type == hello) _ _
        (Grown-some _ (push_send-Grows (build_frame hello_ack (1 ∷ [])) s))
        (other (f.type == seed_msg) _ _ (handle_seed-Grown now p) (
          other (f.type == input_msg) _ _ (handle_input-Grown p) (
            other (f.type == hash_msg) _ _ (handle_hash-Grown p) (
              other (f.type == game_over_choice) _ _ (Grown-some _ (handle_choice-Grows p)) (
                other (f.type == ping) _ _ (Grown-some _ (push_send-Grows (build_frame pong p) s)) (
                  other (f.type == pong) _ _
                    (Grown-some _ (Grows-others s _ refl refl refl refl refl (λ b. b)))
                    (other (f.type == chat) _ _ (handle_chat-Grown p) (
                      other (f.type == match_result) _ _ (handle_match_result-Grown p)
                        Grown-same))))))))

-- All the frames of a batch.
pub handle_frames-Grows :
    (now : ℕ) (frames : List Frame) (s : Session)
    → (t : Session) × (handle_frames now frames s ≡ some t) × Grows s t
unfolding handle_frames
handle_frames-Grows now [] s = (s, refl, Grows-others s s refl refl refl refl refl (λ b. b))
handle_frames-Grows now (f ∷ frames) s =
    let (t, e, g) = handle_frame-Grown s now f in
    let (u, d, h) = handle_frames-Grows now frames t in
    (u, ap (λ o. o >>= handle_frames now frames) e ∙ d, Grows-trans s t u g h)

-- Whatever frames come in, in whatever order, at a session within its bounds (8192 inputs, 256 chat
-- lines, 4096 queued frames): `handleFrame` reads inside each payload and gives a session that is
-- within its bounds, has reached no earlier tick, and queues what it queued, with the replies behind.
pub handle_frames-IsBounded :
    (now : ℕ) (frames : List Frame) (s : Session)
    → IsBounded s
    → (t : Session) × (handle_frames now frames s ≡ some t)
      × IsBounded t
      × (s.last_remote_tick ≤ t.last_remote_tick)
      × (more : List (List ℕ)) × (t.send_q ≡ s.send_q ++ more)
handle_frames-IsBounded now frames s b =
    let (t, e, g) = handle_frames-Grows now frames s in
    (t, e, g.bounds b, g.reached, g.queue.0, g.queue.1)
