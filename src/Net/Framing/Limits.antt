-- ===== src/Net/Framing/Limits.antt =====
-- The limits that `parse_frames` of net/framing.cpp keeps: the bytes that wait in the buffer, and
-- the payloads that it hands on.
use tetris_multiplayer_rl.Net.Framing.RoundTrip.{IsFrame}
use tetris_multiplayer_rl.Net.Framing.Loop.{parse_frames-Parses}
use tetris_multiplayer_rl.Net.Framing.{checksum, parse_frames, Parsed, k_max_payload_bytes, Frame}
use tetris_multiplayer_rl.Net.Framing.Stream.{
  broken, round_of-took, Parses, round_of-bad, took, value, wait, body, next_frame, frames_of,
  round_of, waiting, consumed, round_of-wait,
}
use tetris_multiplayer_rl.Common.{
  ltb, ◌==◌, if◌then◌else◌, Bool-cases, length, take, drop, All, All-append, All-drop, All-take,
  length-take, IsByte, ℕ, zero, suc, ◌+◌, ◌*◌, ◌≤◌, ◌<◌, ◌≡◌, sym, ap, ◌∙◌, inl, inr, Bool, true,
  false, some, List, [], ◌∷◌, ◌++◌, arith,
}
use mathlib.Core.Path.{subst}
use mathlib.Core.List.{append-nil, append_assoc}

abbrev pub IsWithinLimit : Frame → Type 0
IsWithinLimit f = length f.payload ≤ k_max_payload_bytes

body-IsFrame :
    (len : ℕ) (s : List ℕ)
    → len ≤ 4097
    → len + 4 ≤ length s
    → All IsByte s
    → All IsFrame (body len s)
unfolding body
body-IsFrame zero s h j bytes = tt
body-IsFrame (suc n) [] h j bytes = absurd (omega arith)
body-IsFrame (suc n) (t ∷ s) h j bytes = go (value (take 4 (drop n s)) == checksum (take n s))
  where
    go : (b : Bool) → All IsFrame (if b then record { type = t; payload = take n s } ∷ [] else [])
    go true = (
      record {
        typed = bytes.0;
        within = omega (arith, length-take n s (omega arith));
        bytes = All-take IsByte n s bytes.1;
      },
      tt,
    )
    go false = tt

frames-IsFrame :
    (len : ℕ) (s : List ℕ) (need : ℕ) (frames : List Frame)
    → round_of len s ≡ took need frames
    → All IsByte s
    → All IsFrame frames
unfolding frames_of
frames-IsFrame len s need frames e bytes = elim (Bool-cases (ltb 4097 len)) [
  | inl over ↦ let c = sym (round_of-bad len s over) ∙ e in absurd (ground (arith, c))
  | inr fits ↦ elim (Bool-cases (ltb (length s) (len + 4))) [
    | inl short ↦ let c = sym (round_of-wait len s fits short) ∙ e in absurd (ground (arith, c))
    | inr there ↦
        subst (All IsFrame) (ap frames_of (sym (round_of-took len s fits there) ∙ e))
          (body-IsFrame len s (ground (arith, fits)) (ground (arith, there)) bytes)
  ]
]

next_frame-IsFrame :
    (s : List ℕ) (need : ℕ) (frames : List Frame)
    → next_frame s ≡ took need frames
    → All IsByte s
    → All IsFrame frames
unfolding next_frame
next_frame-IsFrame [] need frames e bytes = absurd (ground (arith, e))
next_frame-IsFrame (b ∷ []) need frames e bytes = absurd (ground (arith, e))
next_frame-IsFrame (lo ∷ hi ∷ s) need frames e bytes =
    frames-IsFrame (lo + hi * 256) s need frames e bytes.1.1

-- A stream whose front is not all there is short.
next_frame-wait : (s : List ℕ) → next_frame s ≡ wait → length s < 4103
unfolding next_frame
next_frame-wait [] e = omega arith
next_frame-wait (b ∷ []) e = omega arith
next_frame-wait (lo ∷ hi ∷ s) e = elim (Bool-cases (ltb 4097 (lo + hi * 256))) [
  | inl over ↦ let c = sym (round_of-bad _ s over) ∙ e in absurd (ground (arith, c))
  | inr fits ↦ elim (Bool-cases (ltb (length s) (lo + hi * 256 + 4))) [
    | inl short ↦ ground (arith, fits, short)
    | inr there ↦ let c = sym (round_of-took _ s fits there) ∙ e in absurd (ground (arith, c))
  ]
]

-- What a result keeps of the limits.
pub record Limits (out : List Frame) (r : Parsed) : Type 0 where
  pub pending : length r.stream_buf < 4103
  pub fresh : List Frame
  pub added : r.out ≡ out ++ fresh
  pub within : All IsFrame fresh

pub Parses-Limits :
    (s : List ℕ) (out : List Frame) (r : Parsed) → Parses s out r → All IsByte s → Limits out r
Parses-Limits s out r (waiting _ _ e) bytes = record {
  pending = next_frame-wait s e;
  fresh = [];
  added = sym (append-nil out);
  within = tt;
}
Parses-Limits s out r (broken _ _ e) bytes = record {
  pending = omega arith;
  fresh = [];
  added = sym (append-nil out);
  within = tt;
}
Parses-Limits s out r (consumed _ _ need frames _ e o) bytes =
    let rest = Parses-Limits (drop need s) (out ++ frames) r o (All-drop IsByte need s bytes) in
    record {
      pending = rest.pending;
      fresh = frames ++ rest.fresh;
      added = rest.added ∙ append_assoc out frames rest.fresh;
      within =
          All-append IsFrame frames rest.fresh (next_frame-IsFrame s need frames e bytes)
            rest.within;
    }

within-IsFrame : (frames : List Frame) → All IsFrame frames → All IsWithinLimit frames
within-IsFrame [] h = tt
within-IsFrame (f ∷ frames) (v, h) = (v.within, within-IsFrame frames h)

-- On every buffer of bytes the parser returns, less than one largest frame of 4103 bytes waits in
-- the buffer after it, and it adds frames behind those there were, each with a payload in the limit.
pub parse_frames-Limits :
    (buf : List ℕ) (out : List Frame)
    → All IsByte buf
    → (r : Parsed) × (parse_frames buf out ≡ some r)
      × (length r.stream_buf < 4103)
      × (fresh : List Frame) × (r.out ≡ out ++ fresh)
      × All IsWithinLimit fresh
parse_frames-Limits buf out bytes =
    let (r, e, p) = parse_frames-Parses buf out bytes in
    let l = Parses-Limits buf out r p bytes in
    (r, e, l.pending, l.fresh, l.added, within-IsFrame l.fresh l.within)
