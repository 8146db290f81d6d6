-- ===== src/Server/Lobby/Reading.antt =====
-- The loop of `consume_ready_frames` of server/relay.cpp ends, and does what the parser's view of the
-- front of the buffer asks for.
use tetris_multiplayer_rl.Net.Framing.Skips.{Skips-none, Skips, Skips-took}
use tetris_multiplayer_rl.Net.Framing.Parse.{read_value, le_read_u16_lem}
use tetris_multiplayer_rl.Net.Framing.{
  le_read_u32, k_max_payload_bytes, le_read_u16, checksum, queue_cancel, ready_msg, Frame,
}
use tetris_multiplayer_rl.Common.Returns.{Returns-some, if_both, Returns}
use tetris_multiplayer_rl.Server.Lobby.Hearing.{
  Hears-answer_with, overlong, waits, Hears-refused, Hears-behind, Hears, says,
}
use tetris_multiplayer_rl.Server.Lobby.{
  broken, pending, answer_with, accepted, declined, consume_ready_frames, Consumed,
}
use tetris_multiplayer_rl.Net.Framing.Stream.{
  round_of-took, round_of, value, took, body, next_frame,
}
use tetris_multiplayer_rl.Common.{
  ltb, ◌==◌, if◌then◌else◌, suc-==-zero, if_true, if_false, false_of_not, true_of_not, length, take,
  drop, All, length-drop, All-drop, IsByte, ℕ, zero, suc, ◌+◌, ◌-◌, ◌*◌, ◌<◌, ◌≡◌, refl, sym, ap,
  ◌∙◌, Bool, true, false, not, ◌&&◌, Option, some, List, [], ◌∷◌, arith,
}

second_of : {a b : Bool} → (not a && not b) ≡ false → a ≡ false → b ≡ true
second_of {a = true} {b = b} h k = absurd (ground (arith, k))
second_of {a = false} {b = true} h k = refl
second_of {a = false} {b = false} h k = absurd (ground (arith, h))

Returns-behind :
    (buf mid : List ℕ) (sent : List (List ℕ)) (o : Option Consumed)
    → Skips buf mid []
    → Returns (Hears mid sent) o
    → Returns (Hears buf sent) o
Returns-behind buf mid sent o g (c, e, h) = (c, e, Hears-behind buf mid sent c g h)

-- The frame at the front of a buffer that is long enough for it.
module _ (lo hi ty : ℕ) (s : List ℕ) where
  front :
      (len : ℕ)
      → len ≡ lo + hi * 256
      → ltb 4097 len ≡ false
      → ltb (length (lo ∷ hi ∷ ty ∷ s)) (2 + len + 4) ≡ false
      → next_frame (lo ∷ hi ∷ ty ∷ s) ≡ took (2 + len + 4) (body len (ty ∷ s))
  unfolding next_frame
  front len e fits there =
      let size : len + 6 ≡ 2 + len + 4 = omega arith in
      ap (λ l. round_of l (ty ∷ s)) (sym e)
      ∙ round_of-took len (ty ∷ s) fits (ground (arith, there))
      ∙ ap (λ l. took l (body len (ty ∷ s))) size

  body_if :
      (len n : ℕ)
      → len ≡ suc n
      → body len (ty ∷ s) ≡ (
          if value (take 4 (drop n s)) == checksum (take n s)
          then record { type = ty; payload = take n s } ∷ []
          else [])
  unfolding body
  body_if len n e = rw e refl

  body_none : (len : ℕ) → len ≡ 0 → body len (ty ∷ s) ≡ []
  unfolding body
  body_none len e = rw e refl

says_cancel :
    (f : Frame)
    → (f.type == ready_msg) ≡ false
    → (f.type == queue_cancel) ≡ true
    → says f ≡ declined
unfolding says
says_cancel f h k = rw (h, k) refl

-- The answer that the first byte of a READY gives.
says_ready :
    (ty : ℕ) (n : ℕ) (v : ℕ) (s : List ℕ)
    → (ty == ready_msg) ≡ true
    → says (record { type = ty; payload = take n (v ∷ s) })
      ≡ (if n == 0 then declined else if v == 0 then declined else accepted)
unfolding says
says_ready ty zero v s h = rw h refl
says_ready ty (suc n) v s h = rw (h, suc-==-zero n) refl

module _ (sends : List (List ℕ) → List ℕ → Bool) where
  Returns-refused :
      (buf rest : List ℕ) (sent : List (List ℕ)) (f : Frame)
      → says f ≡ declined
      → Skips buf rest (f ∷ [])
      → Returns (Hears buf sent) (some (answer_with sends 0 rest sent))
  Returns-refused buf rest sent f e g =
      (answer_with sends 0 rest sent, refl, Hears-refused sends buf rest sent f e g)

  Hears-stop :
      (buf : List ℕ) (sent : List (List ℕ))
      → Returns (Hears buf sent) (some (record { answer = pending; buf = buf; sent = sent }))
  Hears-stop buf sent = (
    record { answer = pending; buf = buf; sent = sent },
    refl,
    waits buf buf sent (Skips-none buf),
  )

  -- With enough fuel the loop ends, and reads no byte that is not there.
  pub consume_ready_frames-Hears :
      (fuel : ℕ) (buf : List ℕ) (sent : List (List ℕ))
      → length buf < fuel
      → All IsByte buf
      → Returns (Hears buf sent) (consume_ready_frames sends fuel buf sent)
  unfolding consume_ready_frames
  consume_ready_frames-Hears zero buf sent h bytes = absurd (omega arith)
  consume_ready_frames-Hears (suc fuel) [] sent h bytes = Hears-stop [] sent
  consume_ready_frames-Hears (suc fuel) (lo ∷ []) sent h bytes = Hears-stop (lo ∷ []) sent
  consume_ready_frames-Hears (suc fuel) (lo ∷ hi ∷ []) sent h bytes = Hears-stop (lo ∷ hi ∷ []) sent
  consume_ready_frames-Hears (suc fuel) (lo ∷ hi ∷ ty ∷ []) sent h bytes =
      Hears-stop (lo ∷ hi ∷ ty ∷ []) sent
  consume_ready_frames-Hears (suc fuel) (lo ∷ hi ∷ ty ∷ v ∷ s) sent h bytes =
      let buf = lo ∷ hi ∷ ty ∷ v ∷ s in
      let len = lo + hi * 256 in
      let total = 2 + len + 4 in
      let P = Returns (Hears buf sent) in
      let n = len - 1 in
      let stop = Hears-stop buf sent in
      let f : Frame = record { type = ty; payload = take n (v ∷ s) } in
      let sum = value (take 4 (drop n (v ∷ s))) in
      let next =
        consume_ready_frames-Hears fuel (drop total buf) sent
          (omega (arith, h, length-drop total buf)) (All-drop IsByte total buf bytes) in
      let behind = Returns-behind buf (drop total buf) sent _ in
      let refused = Returns-refused buf (drop total buf) sent f in
      if_both P (ltb (length buf) 6) _ _ (λ _. stop)
        (λ six.
          Returns-some (Hears buf sent) (le_read_u16 buf 0) _ len
            (le_read_u16_lem buf 0 lo hi (ty ∷ v ∷ s) refl bytes.0 bytes.1.0)
            (if_both P (ltb (k_max_payload_bytes + 1) len) _ _
              (λ _. (record { answer = broken; buf = []; sent = sent }, refl, overlong buf sent))
              (λ fits.
                if_both P (ltb (length buf) total) _ _ (λ _. stop)
                  (λ there.
                    if_both P (ltb len 1) _ _
                      (λ empty.
                        behind
                          (Skips-took buf total [] (
                            front lo hi ty (v ∷ s) len refl fits there
                            ∙ ap (took total)
                                (body_none lo hi ty (v ∷ s) len (ground (arith, empty)))))
                          next)
                      (λ typed.
                        let one : len ≡ suc n = ground (arith, typed) in
                        let three : 2 + len ≡ suc (suc (suc n)) = omega (arith, one) in
                        let at =
                          front lo hi ty (v ∷ s) len refl fits there
                          ∙ ap (took total) (body_if lo hi ty (v ∷ s) len n one) in
                        if_both P (not (ty == ready_msg) && not (ty == queue_cancel)) _ _
                          (λ _. stop)
                          (λ mine.
                            Returns-some (Hears buf sent) (le_read_u32 buf (2 + len)) _ sum
                              (read_value buf (2 + len) (drop n (v ∷ s))
                                (ap (λ p. drop p buf) three)
                                (ground (arith, there, length-drop n (v ∷ s)))
                                (All-drop IsByte n (v ∷ s) bytes.1.1.1))
                              (if_both P (not (sum == checksum f.payload)) _ _
                                (λ wrong.
                                  behind
                                    (Skips-took buf total [] (
                                      at
                                      ∙ ap (took total)
                                          (if_false (f ∷ []) [] (false_of_not wrong))))
                                    next)
                                (λ right.
                                  let g = Skips-took buf total (f ∷ []) (
                                    at
                                    ∙ ap (took total) (if_true (f ∷ []) [] (true_of_not right))) in
                                  if_both P (not (ty == ready_msg)) _ _
                                    (λ other.
                                      refused
                                        (says_cancel f (false_of_not other)
                                          (second_of mine (false_of_not other)))
                                        g)
                                    (λ ready.
                                      let said = says_ready ty n v s (true_of_not ready) in
                                      if_both P (len - 1 == 0) _ _
                                        (λ e. refused (said ∙ if_true declined _ e) g)
                                        (λ e. (
                                          answer_with sends (if v == 0 then 0 else 1)
                                              (drop total buf) sent,
                                          refl,
                                          Hears-answer_with sends v buf (drop total buf) sent f
                                              (said ∙ if_false declined _ e) g,
                                        )))))))))))
