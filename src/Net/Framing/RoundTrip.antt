-- ===== src/Net/Framing/RoundTrip.antt =====
-- `build_frame` and `parse_frames` of net/framing.cpp: what one writes the other reads back.
use tetris_multiplayer_rl.Net.Framing.Chunks.{parse_frames_of}
use tetris_multiplayer_rl.Net.Framing.Loop.{parse_frames-Parses}
use tetris_multiplayer_rl.Net.Framing.Stream.{
  round_of-took, round_of, consumed, Parses, took, value, body, next_frame,
}
use tetris_multiplayer_rl.Net.Framing.{
  le_write, le_write_u32, le_write_u16, fnv1a32_step, Parsed, fnv1a32_seed, k_max_payload_bytes,
  Frame, checksum, build_frame, fnv1a32, parse_frames,
}
use tetris_multiplayer_rl.Common.{
  ltb, ◌==◌, if◌then◌else◌, ==_iff, if_true, length, take, drop, All, length-append,
  take-append_length, drop-append_length, All-append, u8, u16, u32, IsByte, le_bytes, ℕ, zero, suc,
  ◌+◌, ◌*◌, ◌/◌, ◌^◌, ◌≤◌, ◌<◌, bit_xor, ◌≡◌, refl, sym, ap, ◌∙◌, false, List, [], ◌∷◌, ◌++◌, arith,
}
use mathlib.Core.Path.{subst}
use mathlib.Core.List.{append-nil, append_assoc}
use native.Mathlib.Nat.{pow-suc}

pub value-le_bytes : (n x : ℕ) → x < 256 ^ n → value (le_bytes n x) ≡ x
unfolding value
value-le_bytes zero x h = omega arith
value-le_bytes (suc n) x h =
    omega (arith, value-le_bytes n (x / 256) (omega (arith, pow-suc 256 n)))

fnv1a32-lt : (bytes : List ℕ) (h : ℕ) → h < 2 ^ 32 → fnv1a32 bytes h < 2 ^ 32
unfolding fnv1a32 fnv1a32_step
fnv1a32-lt [] h k = k
fnv1a32-lt (b ∷ bytes) h k = fnv1a32-lt bytes (u32 (bit_xor h b * 16777619)) (omega arith)

pub checksum-lt : (payload : List ℕ) → checksum payload < 2 ^ 32
unfolding checksum
checksum-lt [] = omega arith
checksum-lt (b ∷ payload) = fnv1a32-lt (b ∷ payload) fnv1a32_seed (omega arith)

-- A frame that the format can carry.
pub record IsFrame (f : Frame) : Type 0 where
  pub typed : IsByte f.type
  pub within : length f.payload ≤ k_max_payload_bytes
  pub bytes : All IsByte f.payload

-- The bytes of a frame with the checksum `sum`.
abbrev pub frame_bytes : ℕ → List ℕ → ℕ → List ℕ
frame_bytes t p sum =
    (u8 (1 + length p) ∷ u8 ((1 + length p) / 256) ∷ t ∷ []) ++ p ++ le_bytes 4 sum

pub build_frame_lem :
    (t : ℕ) (p : List ℕ)
    → IsByte t
    → length p ≤ k_max_payload_bytes
    → build_frame t p ≡ frame_bytes t p (checksum p)
unfolding build_frame le_write_u16 le_write_u32 le_write
build_frame_lem t p h k =
    let small : ltb 4096 (length p) ≡ false = ground (arith, k) in
    let len : u16 (1 + length p) ≡ 1 + length p = omega (arith, k) in
    let type : u8 t ≡ t = omega (arith, h) in rw (small, len, type) refl

pub length-le_bytes : (n x : ℕ) → length (le_bytes n x) ≡ n
length-le_bytes zero x = refl
length-le_bytes (suc n) x = ap suc (length-le_bytes n (x / 256))

-- The frame that is handed on, if the checksum is right.
abbrev pub checked : ℕ → List ℕ → ℕ → List Frame
checked t p sum = if sum == checksum p then record { type = t; payload = p } ∷ [] else []

module _ (t : ℕ) (p : List ℕ) (sum : ℕ) (rest : List ℕ) where
  body-frame :
      sum < 2 ^ 32 → body (suc (length p)) (t ∷ (p ++ le_bytes 4 sum) ++ rest) ≡ checked t p sum
  unfolding body
  body-frame h =
      let c = le_bytes 4 sum in
      let payload =
        ap (take (length p)) (append_assoc p c rest) ∙ take-append_length p (c ++ rest) in
      let behind =
        ap (drop (length p)) (append_assoc p c rest) ∙ drop-append_length p (c ++ rest) in
      let four =
        ap (λ k. take k (c ++ rest)) (sym (length-le_bytes 4 sum)) ∙ take-append_length c rest in
      let chk = ap value (ap (take 4) behind ∙ four) ∙ value-le_bytes 4 sum h in
      rw (chk, payload) refl

  next_frame-frame :
      sum < 2 ^ 32
      → length p ≤ k_max_payload_bytes
      → next_frame (frame_bytes t p sum ++ rest) ≡ took (suc (length p) + 6) (checked t p sum)
  unfolding next_frame
  next_frame-frame h k =
      let s = t ∷ (p ++ le_bytes 4 sum) ++ rest in
      let len : u8 (1 + length p) + u8 ((1 + length p) / 256) * 256 ≡ suc (length p) =
        omega (arith, k) in
      let size : length s ≡ suc (length p + 4 + length rest) = omega (
        arith,
        length-append (p ++ le_bytes 4 sum) rest,
        length-append p (le_bytes 4 sum),
        length-le_bytes 4 sum,
      ) in
      ap (λ n. round_of n s) len
      ∙ round_of-took (suc (length p)) s (ground (arith, k)) (ground (arith, size))
      ∙ ap (took (suc (length p) + 6)) (body-frame h)

  drop-frame : drop (suc (length p) + 6) (frame_bytes t p sum ++ rest) ≡ rest
  drop-frame =
      let size : length (frame_bytes t p sum) ≡ suc (length p) + 6 =
        omega (arith, length-append p (le_bytes 4 sum), length-le_bytes 4 sum) in
      ap (λ n. drop n (frame_bytes t p sum ++ rest)) (sym size)
      ∙ drop-append_length (frame_bytes t p sum) rest

  -- The frame is read, and the parser goes on behind it.
  pub Parses-frame :
      (out : List Frame) (r : Parsed)
      → sum < 2 ^ 32
      → length p ≤ k_max_payload_bytes
      → Parses rest (out ++ checked t p sum) r
      → Parses (frame_bytes t p sum ++ rest) out r
  Parses-frame out r h k next =
      consumed (frame_bytes t p sum ++ rest) out (suc (length p) + 6) (checked t p sum) r
        (next_frame-frame h k)
        (subst (λ x. Parses x (out ++ checked t p sum) r) (sym drop-frame) next)

checked_right :
    (t : ℕ) (p : List ℕ) → checked t p (checksum p) ≡ record { type = t; payload = p } ∷ []
checked_right t p = if_true _ _ ((==_iff (checksum p) (checksum p)).1 refl)

-- The stream that a sender writes.
unfoldable pub written : List Frame → List ℕ
written [] = []
written (f ∷ frames) = build_frame f.type f.payload ++ written frames

Parses-written :
    (frames : List Frame) (tail : List ℕ) (out : List Frame) (r : Parsed)
    → All IsFrame frames
    → Parses tail (out ++ frames) r
    → Parses (written frames ++ tail) out r
unfolding written
Parses-written [] tail out r h p = subst (λ x. Parses tail x r) (append-nil out) p
Parses-written (f ∷ frames) tail out r (v, h) p =
    let rest = written frames ++ tail in
    let bytes =
      append_assoc (build_frame f.type f.payload) (written frames) tail
      ∙ ap (λ x. x ++ rest) (build_frame_lem f.type f.payload v.typed v.within) in
    let next =
      Parses-written frames tail (out ++ f ∷ []) r h
        (subst (λ x. Parses tail x r) (sym (append_assoc out (f ∷ []) frames)) p) in
    subst (λ x. Parses x out r) (sym bytes)
      (Parses-frame f.type f.payload (checksum f.payload) rest out r (checksum-lt f.payload)
        v.within
        (subst (λ x. Parses rest (out ++ x) r) (sym (checked_right f.type f.payload)) next))

pub le_bytes-IsByte : (n x : ℕ) → All IsByte (le_bytes n x)
le_bytes-IsByte zero x = tt
le_bytes-IsByte (suc n) x = (omega arith, le_bytes-IsByte n (x / 256))

pub frame_bytes-IsByte :
    (t : ℕ) (p : List ℕ) (sum : ℕ) → IsByte t → All IsByte p → All IsByte (frame_bytes t p sum)
frame_bytes-IsByte t p sum h bytes = (
  omega arith,
  (omega arith, (h, All-append IsByte p (le_bytes 4 sum) bytes (le_bytes-IsByte 4 sum))),
)

written-IsByte : (frames : List Frame) → All IsFrame frames → All IsByte (written frames)
unfolding written
written-IsByte [] h = tt
written-IsByte (f ∷ frames) (v, h) =
    let bytes = frame_bytes-IsByte f.type f.payload (checksum f.payload) v.typed v.bytes in
    All-append IsByte (build_frame f.type f.payload) (written frames)
      (subst (All IsByte) (sym (build_frame_lem f.type f.payload v.typed v.within)) bytes)
      (written-IsByte frames h)

-- A stream of frames, each with a type byte and at most 4096 bytes of payload, is read back in order,
-- and the parser goes on with the bytes behind it, whatever they are.
pub parse_frames-written :
    (frames : List Frame) (tail : List ℕ) (out : List Frame)
    → All IsFrame frames
    → All IsByte tail
    → parse_frames (written frames ++ tail) out ≡ parse_frames tail (out ++ frames)
parse_frames-written frames tail out h bytes =
    let (r, e, p) = parse_frames-Parses tail (out ++ frames) bytes in
    let all = All-append IsByte (written frames) tail (written-IsByte frames h) bytes in
    parse_frames_of (written frames ++ tail) out r all (Parses-written frames tail out r h p)
    ∙ sym e
