-- ===== src/Net/Framing/Loop.antt =====
-- The loop of `parse_frames` of net/framing.cpp against the rounds of the stream.
use tetris_multiplayer_rl.Net.Framing.Parse.{read_frame_lem, le_read_u16_lem}
use tetris_multiplayer_rl.Net.Framing.Stream.{
  bad, broken, waiting, round_of-took, consumed, wait, Round, took, round_of, Parses, body,
  next_frame, round_of-bad, round_of-wait,
}
use tetris_multiplayer_rl.Net.Framing.{
  read_frame, le_read_u16, parse_loop, Parsed, Frame, parse_frames,
}
use tetris_multiplayer_rl.Common.{
  ltb, Bool-cases, length, drop, All, length-drop, All-drop, drop-drop, IsByte, ℕ, zero, suc, ◌+◌,
  ◌*◌, ◌≤◌, ◌<◌, ◌≡◌, refl, sym, ap, ◌∙◌, inl, inr, true, false, Option, some, List, [], ◌∷◌, ◌++◌,
  arith,
}
use mathlib.Core.Path.{subst}
use mathlib.Core.List.{append-nil}

abbrev stopped : List ℕ → ℕ → List Frame → Option Parsed
stopped buf offset out = some (record { ok = true; stream_buf = drop offset buf; out = out })

-- One round on each branch of the loop.
module _ (fuel : ℕ) (buf : List ℕ) (offset : ℕ) (out : List Frame) where
  loop_short :
      ltb (length buf) (offset + 2) ≡ true
      → parse_loop (suc fuel) buf offset out ≡ stopped buf offset out
  unfolding parse_loop
  loop_short h = rw h

  module _ (h : ltb (length buf) (offset + 2) ≡ false) where
    loop_bad :
        (len : ℕ)
        → le_read_u16 buf offset ≡ some len
        → ltb 4097 len ≡ true
        → parse_loop (suc fuel) buf offset out
          ≡ some (record { ok = false; stream_buf = []; out = out })
    unfolding parse_loop
    loop_bad len r j = rw (h, r, j)

    loop_wait :
        (len : ℕ)
        → le_read_u16 buf offset ≡ some len
        → ltb 4097 len ≡ false
        → ltb (length buf) (offset + (2 + len + 4)) ≡ true
        → parse_loop (suc fuel) buf offset out ≡ stopped buf offset out
    unfolding parse_loop
    loop_wait len r j k = rw (h, r, j, k)

    loop_skip :
        le_read_u16 buf offset ≡ some 0
        → ltb (length buf) (offset + (2 + 0 + 4)) ≡ false
        → parse_loop (suc fuel) buf offset out ≡ parse_loop fuel buf (offset + (2 + 0 + 4)) out
    unfolding parse_loop
    loop_skip r k = rw (h, r, k)

    loop_frame :
        (n : ℕ) (frames : List Frame)
        → le_read_u16 buf offset ≡ some (suc n)
        → ltb 4097 (suc n) ≡ false
        → ltb (length buf) (offset + (2 + suc n + 4)) ≡ false
        → read_frame buf offset (suc n) out ≡ some frames
        → parse_loop (suc fuel) buf offset out
          ≡ parse_loop fuel buf (offset + (2 + suc n + 4)) frames
    unfolding parse_loop
    loop_frame n frames r j k f =
        let typed : ltb (suc n) 1 ≡ false = ground arith in rw (h, r, j, k, typed, f)

-- What the loop gives from `offset` on, and that the stream there means it.
record Outcome (fuel : ℕ) (buf : List ℕ) (offset : ℕ) (out : List Frame) : Type 0 where
  pub result : Parsed
  pub returns : parse_loop fuel buf offset out ≡ some result
  pub parses : Parses (drop offset buf) out result

module _ (fuel : ℕ) (buf : List ℕ) (offset : ℕ) (out : List Frame) where
  stop :
      parse_loop (suc fuel) buf offset out ≡ stopped buf offset out
      → next_frame (drop offset buf) ≡ wait
      → Outcome (suc fuel) buf offset out
  stop e w = record {
    result = record { ok = true; stream_buf = drop offset buf; out = out };
    returns = e;
    parses = waiting (drop offset buf) out w;
  }

  go_on :
      (need : ℕ) (frames : List Frame)
      → next_frame (drop offset buf) ≡ took need frames
      → parse_loop (suc fuel) buf offset out ≡ parse_loop fuel buf (offset + need) (out ++ frames)
      → Outcome fuel buf (offset + need) (out ++ frames)
      → Outcome (suc fuel) buf offset out
  go_on need frames t e o = record {
    result = o.result;
    returns = e ∙ o.returns;
    parses =
        consumed (drop offset buf) out need frames o.result t (
          subst (λ s. Parses s (out ++ frames) o.result) (sym (drop-drop offset need buf))
            o.parses);
  }

  -- A round with a length field in front.
  module _ (lo hi : ℕ) (s : List ℕ) (at : drop offset buf ≡ lo ∷ hi ∷ s)
      (bytes : All IsByte (lo ∷ hi ∷ s)) where
    total : length buf ≡ offset + (2 + length s)
    total = omega (arith, length-drop offset buf, ap length at)

    long : ltb (length buf) (offset + 2) ≡ false
    long = ground (arith, total)

    len_at : le_read_u16 buf offset ≡ some (lo + hi * 256)
    len_at = le_read_u16_lem buf offset lo hi s at bytes.0 bytes.1.0

    front : (r : Round) → round_of (lo + hi * 256) s ≡ r → next_frame (drop offset buf) ≡ r
    unfolding next_frame
    front r e = ap next_frame at ∙ e

    skip_round :
        lo + hi * 256 ≡ 0
        → ltb (length s) (0 + 4) ≡ false
        → ((need : ℕ) (frames : List Frame) → 0 < need → Outcome fuel buf (offset + need) frames)
        → Outcome (suc fuel) buf offset out
    unfolding body
    skip_round e there next =
        let t = front _ (ap (λ n. round_of n s) e ∙ round_of-took 0 s refl there) in
        let r =
          loop_skip fuel buf offset out long (len_at ∙ ap some e) (ground (arith, total, there)) in
        go_on 6 [] t (r ∙ ap (parse_loop fuel buf (offset + 6)) (sym (append-nil out)))
          (next 6 (out ++ []) (omega arith))

    frame_round :
        (n t : ℕ) (s' : List ℕ)
        → lo + hi * 256 ≡ suc n
        → s ≡ t ∷ s'
        → ltb 4097 (suc n) ≡ false
        → ltb (length s) (suc n + 4) ≡ false
        → ((need : ℕ) (frames : List Frame) → 0 < need → Outcome fuel buf (offset + need) frames)
        → Outcome (suc fuel) buf offset out
    frame_round n t s' e c fits there next =
        let all : All IsByte (t ∷ s') = subst (All IsByte) c bytes.1.1 in
        let whole : n + 4 ≤ length s' = ground (arith, there, ap length c) in
        let frames = body (suc n) s in
        let read =
          read_frame_lem buf offset n out lo hi t s' (at ∙ ap (λ x. lo ∷ hi ∷ x) c) whole all.1
          ∙ ap (λ x. some (out ++ body (suc n) x)) (sym c) in
        let taken = front _ (ap (λ m. round_of m s) e ∙ round_of-took (suc n) s fits there) in
        let need : 2 + suc n + 4 ≡ suc n + 6 = omega arith in
        let r =
          loop_frame fuel buf offset out long n (out ++ frames) (len_at ∙ ap some e) fits
            (ground (arith, total, there)) read
          ∙ ap (λ m. parse_loop fuel buf (offset + m) (out ++ frames)) need in
        go_on (suc n + 6) frames taken r (next (suc n + 6) (out ++ frames) (omega arith))

  round :
      (s : List ℕ)
      → drop offset buf ≡ s
      → All IsByte s
      → ((need : ℕ) (frames : List Frame)
          → 0 < need
          → 6 ≤ length s
          → Outcome fuel buf (offset + need) frames)
      → Outcome (suc fuel) buf offset out
  unfolding next_frame
  round [] at bytes next =
      stop (loop_short fuel buf offset out (ground (arith, length-drop offset buf, ap length at)))
        (ap next_frame at)
  round (b ∷ []) at bytes next =
      stop (loop_short fuel buf offset out (ground (arith, length-drop offset buf, ap length at)))
        (ap next_frame at)
  round (lo ∷ hi ∷ s) at bytes next = elim (Bool-cases (ltb 4097 (lo + hi * 256))) [
    | inl over ↦ record {
      result = record { ok = false; stream_buf = []; out = out };
      returns =
          loop_bad fuel buf offset out (long lo hi s at bytes) (lo + hi * 256)
            (len_at lo hi s at bytes) over;
      parses = broken (drop offset buf) out (front lo hi s at bytes bad (round_of-bad _ s over));
    }
    | inr fits ↦ elim (Bool-cases (ltb (length s) (lo + hi * 256 + 4))) [
      | inl short ↦
          stop
            (loop_wait fuel buf offset out (long lo hi s at bytes) (lo + hi * 256)
              (len_at lo hi s at bytes) fits (ground (arith, total lo hi s at bytes, short)))
            (front lo hi s at bytes wait (round_of-wait _ s fits short))
      | inr there ↦ complete (lo + hi * 256) refl s refl fits there
    ]
  ]
    where
      complete :
          (len : ℕ)
          → lo + hi * 256 ≡ len
          → (s' : List ℕ) → s ≡ s'
          → ltb 4097 (lo + hi * 256) ≡ false
          → ltb (length s) (lo + hi * 256 + 4) ≡ false
          → Outcome (suc fuel) buf offset out
      complete zero e s' c fits there =
          skip_round lo hi s at bytes e (ap (λ n. ltb (length s) (n + 4)) (sym e) ∙ there)
            (λ need frames pos. next need frames pos (ground (arith, there)))
      complete (suc n) e [] c fits there = absurd (ground (arith, there, ap length c))
      complete (suc n) e (t ∷ s') c fits there =
          frame_round lo hi s at bytes n t s' e c (ap (ltb 4097) (sym e) ∙ fits)
            (ap (λ m. ltb (length s) (m + 4)) (sym e) ∙ there)
            (λ need frames pos. next need frames pos (ground (arith, there)))

loop_lem :
    (fuel : ℕ) (buf : List ℕ) (offset : ℕ) (out : List Frame)
    → All IsByte buf
    → length (drop offset buf) < fuel
    → Outcome fuel buf offset out
loop_lem zero buf offset out bytes h = absurd (omega arith)
loop_lem (suc fuel) buf offset out bytes h =
    round fuel buf offset out (drop offset buf) refl (All-drop IsByte offset buf bytes)
      (λ need frames pos six.
        loop_lem fuel buf (offset + need) frames bytes
          (omega (arith, h, length-drop offset buf, length-drop (offset + need) buf)))

-- On every buffer of bytes the loop of `parse_frames` ends within its fuel and reads no byte that is
-- not there, and its result is the one that the rounds of the stream add up to.
pub parse_frames-Parses :
    (buf : List ℕ) (out : List Frame)
    → All IsByte buf
    → (r : Parsed) × (parse_frames buf out ≡ some r) × Parses buf out r
unfolding parse_frames
parse_frames-Parses buf out bytes =
    let o = loop_lem (length buf + 1) buf 0 out bytes (omega arith) in
    (o.result, o.returns, o.parses)
