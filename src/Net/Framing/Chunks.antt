-- ===== src/Net/Framing/Chunks.antt =====
-- `parse_frames` of net/framing.cpp over a stream that comes in pieces: the result does not depend
-- on where the stream is cut, and what waits in the buffer is bounded.
use tetris_multiplayer_rl.Net.Framing.Loop.{parse_frames-Parses}
use tetris_multiplayer_rl.Net.Framing.{parse_frames, Parsed, Frame}
use tetris_multiplayer_rl.Net.Framing.Stream.{
  broken, body, took, wait, bad, next_frame, Parses, Round, round_of, waiting, consumed,
  round_of-bad, round_of-wait, round_of-took, need_of, frames_of,
}
use tetris_multiplayer_rl.Common.{
  ltb, if◌then◌else◌, Bool-cases, if_true, if_false, length, take, drop, All, length-append,
  length-drop, All-append, All-drop, drop-append, take-append, IsByte, ℕ, zero, suc, ◌+◌, ◌*◌, ◌≤◌,
  ◌≡◌, refl, sym, ap, ◌∙◌, ◌≢◌, inl, inr, true, false, some, List, [], ◌∷◌, ◌++◌, arith,
}
use mathlib.Core.Path.{subst}

-- The three shapes of a result, by the round at the front.
Parses-wait :
    (s : List ℕ) (out : List Frame) (r : Parsed)
    → Parses s out r
    → next_frame s ≡ wait
    → r ≡ record { ok = true; stream_buf = s; out = out }
Parses-wait s out r (waiting _ _ e) h = refl
Parses-wait s out r (broken _ _ e) h = absurd (ground (arith, e, h))
Parses-wait s out r (consumed _ _ need frames _ e p) h = absurd (ground (arith, e, h))

Parses-bad :
    (s : List ℕ) (out : List Frame) (r : Parsed)
    → Parses s out r
    → next_frame s ≡ bad
    → r ≡ record { ok = false; stream_buf = []; out = out }
Parses-bad s out r (waiting _ _ e) h = absurd (ground (arith, e, h))
Parses-bad s out r (broken _ _ e) h = refl
Parses-bad s out r (consumed _ _ need frames _ e p) h = absurd (ground (arith, e, h))

Parses-took :
    (s : List ℕ) (out : List Frame) (need : ℕ) (frames : List Frame) (r : Parsed)
    → Parses s out r
    → next_frame s ≡ took need frames
    → Parses (drop need s) (out ++ frames) r
unfolding need_of frames_of
Parses-took s out need frames r (waiting _ _ e) h = absurd (ground (arith, e, h))
Parses-took s out need frames r (broken _ _ e) h = absurd (ground (arith, e, h))
Parses-took s out need frames r (consumed _ _ need' frames' _ e p) h =
    let n : need' ≡ need = ap need_of (sym e ∙ h) in
    let f : frames' ≡ frames = ap frames_of (sym e ∙ h) in
    subst (λ k. Parses (drop k s) (out ++ frames) r) n
      (subst (λ x. Parses (drop need' s) (out ++ x) r) f p)

Parses-unique :
    (s : List ℕ) (out : List Frame) (r q : Parsed) → Parses s out r → Parses s out q → r ≡ q
Parses-unique s out r q (waiting _ _ e) p = sym (Parses-wait s out q p e)
Parses-unique s out r q (broken _ _ e) p = sym (Parses-bad s out q p e)
Parses-unique s out r q (consumed _ _ need frames _ e o) p =
    Parses-unique (drop need s) (out ++ frames) r q o (Parses-took s out need frames q p e)

pub parse_frames_of :
    (buf : List ℕ) (out : List Frame) (r : Parsed)
    → All IsByte buf
    → Parses buf out r
    → parse_frames buf out ≡ some r
parse_frames_of buf out r bytes p =
    let (q, e, o) = parse_frames-Parses buf out bytes in e ∙ ap some (Parses-unique buf out q r o p)

pub Parses-of :
    (buf : List ℕ) (out : List Frame) (r : Parsed)
    → All IsByte buf
    → parse_frames buf out ≡ some r
    → Parses buf out r
Parses-of buf out r bytes h =
    let (q, e, o) = parse_frames-Parses buf out bytes in
    let same : some q ≡ some r = sym e ∙ h in subst (Parses buf out) (ground (arith, same)) o

-- A round that is all there is the same when more bytes follow.
pub body-append :
    (len : ℕ) (s more : List ℕ) → len + 4 ≤ length s → body len (s ++ more) ≡ body len s
unfolding body
body-append zero s more h = refl
body-append (suc n) [] more h = absurd (omega arith)
body-append (suc n) (t ∷ s) more h =
    let payload = take-append n s more (omega arith) in
    let chk =
      ap (take 4) (drop-append n s more (omega arith))
      ∙ take-append 4 (drop n s) more (omega (arith, length-drop n s)) in
    rw (payload, chk)

round_of-append :
    (len : ℕ) (s more : List ℕ) (r : Round)
    → round_of len s ≡ r
    → r ≢ wait
    → round_of len (s ++ more) ≡ r
round_of-append len s more r e n = elim (Bool-cases (ltb 4097 len)) [
  | inl over ↦ round_of-bad len (s ++ more) over ∙ sym (round_of-bad len s over) ∙ e
  | inr fits ↦ elim (Bool-cases (ltb (length s) (len + 4))) [
    | inl short ↦ absurd (n (sym e ∙ round_of-wait len s fits short))
    | inr there ↦
        round_of-took len (s ++ more) fits (ground (arith, there, length-append s more))
        ∙ ap (took (len + 6)) (body-append len s more (ground (arith, there)))
        ∙ sym (round_of-took len s fits there)
        ∙ e
  ]
]

pub next_frame-append :
    (s more : List ℕ) (r : Round) → next_frame s ≡ r → r ≢ wait → next_frame (s ++ more) ≡ r
unfolding next_frame
next_frame-append [] more r e n = absurd (n (sym e))
next_frame-append (b ∷ []) more r e n = absurd (n (sym e))
next_frame-append (lo ∷ hi ∷ s) more r e n = round_of-append (lo + hi * 256) s more r e n

-- A round takes bytes that are there.
round_of-need :
    (len : ℕ) (s : List ℕ) (need : ℕ) (frames : List Frame)
    → round_of len s ≡ took need frames
    → need ≤ 2 + length s
unfolding need_of
round_of-need len s need frames e = elim (Bool-cases (ltb 4097 len)) [
  | inl over ↦ let c = sym (round_of-bad len s over) ∙ e in absurd (ground (arith, c))
  | inr fits ↦ elim (Bool-cases (ltb (length s) (len + 4))) [
    | inl short ↦ let c = sym (round_of-wait len s fits short) ∙ e in absurd (ground (arith, c))
    | inr there ↦
        let c = ap need_of (sym (round_of-took len s fits there) ∙ e) in ground (arith, c, there)
  ]
]

pub next_frame-need :
    (s : List ℕ) (need : ℕ) (frames : List Frame)
    → next_frame s ≡ took need frames
    → need ≤ length s
unfolding next_frame
next_frame-need [] need frames e = absurd (ground (arith, e))
next_frame-need (b ∷ []) need frames e = absurd (ground (arith, e))
next_frame-need (lo ∷ hi ∷ s) need frames e =
    omega (arith, round_of-need (lo + hi * 256) s need frames e)

-- The rest of a stream, once more of it has come.
pub Parses-append :
    (s more : List ℕ) (out : List Frame) (r q : Parsed)
    → Parses s out r
    → (if r.ok then Parses (r.stream_buf ++ more) r.out q else (q ≡ r))
    → Parses (s ++ more) out q
Parses-append s more out r q (waiting _ _ e) p = p
Parses-append s more out r q (broken _ _ e) p =
    subst (Parses (s ++ more) out) (sym p)
      (broken (s ++ more) out (next_frame-append s more bad e (λ c. ground (arith, c))))
Parses-append s more out r q (consumed _ _ need frames _ e o) p =
    let rest = Parses-append (drop need s) more (out ++ frames) r q o p in
    let at = drop-append need s more (next_frame-need s need frames e) in
    consumed (s ++ more) out need frames q
      (next_frame-append s more (took need frames) e (λ c. ground (arith, c)))
      (subst (λ x. Parses x (out ++ frames) q) (sym at) rest)

pub Parses-bytes :
    (s : List ℕ) (out : List Frame) (r : Parsed)
    → Parses s out r
    → All IsByte s
    → All IsByte r.stream_buf
Parses-bytes s out r (waiting _ _ e) bytes = bytes
Parses-bytes s out r (broken _ _ e) bytes = tt
Parses-bytes s out r (consumed _ _ need frames _ e o) bytes =
    Parses-bytes (drop need s) (out ++ frames) r o (All-drop IsByte need s bytes)

-- A stream that comes in two pieces gives what it gives whole: after a first piece that was not
-- refused, the parser goes on with the bytes it kept and the next piece; a refusal stays.
pub parse_frames-append :
    (s more : List ℕ) (out : List Frame) (r : Parsed)
    → All IsByte s
    → All IsByte more
    → parse_frames s out ≡ some r
    → parse_frames (s ++ more) out
      ≡ (if r.ok then parse_frames (r.stream_buf ++ more) r.out else some r)
parse_frames-append s more out r bytes more_bytes h =
    let p = Parses-of s out r bytes h in
    let whole = All-append IsByte s more bytes more_bytes in
    elim (Bool-cases r.ok) [
      | inl ok ↦
          let left =
            All-append IsByte r.stream_buf more (Parses-bytes s out r p bytes) more_bytes in
          let (q, e, o) = parse_frames-Parses (r.stream_buf ++ more) r.out left in
          parse_frames_of (s ++ more) out q whole (Parses-append s more out r q p (rw ok o))
          ∙ sym e
          ∙ sym (if_true (parse_frames (r.stream_buf ++ more) r.out) (some r) ok)
      | inr refused ↦
          parse_frames_of (s ++ more) out r whole (Parses-append s more out r r p (rw refused refl))
          ∙ sym (if_false (parse_frames (r.stream_buf ++ more) r.out) (some r) refused)
    ]
