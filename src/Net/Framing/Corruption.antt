-- ===== src/Net/Framing/Corruption.antt =====
-- The checksum of net/framing.cpp: `fnv1a32` tells apart payloads that differ in one byte.
use tetris_multiplayer_rl.Net.Framing.Chunks.{parse_frames_of}
use tetris_multiplayer_rl.Net.Framing.Stream.{Parses}
use tetris_multiplayer_rl.Net.Framing.Loop.{parse_frames-Parses}
use tetris_multiplayer_rl.Net.Framing.RoundTrip.{
  IsFrame, checksum-lt, frame_bytes, build_frame_lem, checked, Parses-frame, frame_bytes-IsByte,
}
use tetris_multiplayer_rl.Common.Bits.{bit_xor-lt, bit_xor-injective, bit_xor_comm}
use tetris_multiplayer_rl.Net.Framing.{
  fnv1a32_step, fnv1a32, fnv1a32_seed, checksum, Frame, build_frame, parse_frames,
}
use mathlib.Core.Path.{subst}
use mathlib.Core.List.{append-nil}
use tetris_multiplayer_rl.Common.{
  ◌==◌, ==_iff, Bool-cases, if_false, length, get_or, set, All, length-set, All-append, All-set,
  set-append_before, u8, u32, IsByte, le_bytes, ℕ, zero, suc, ◌+◌, ◌*◌, ◌/◌, ◌^◌, ◌≤◌, ◌<◌, bit_xor,
  ◌≡◌, sym, ap, ◌∙◌, ◌≢◌, inl, inr, false, List, [], ◌∷◌, ◌++◌, arith,
}

-- The factor is odd, so a product of 32 bits gives back what it is made of.
times_prime : (x y : ℕ) → x < 2 ^ 32 → y < 2 ^ 32 → u32 (x * 16777619) ≡ u32 (y * 16777619) → x ≡ y
times_prime x y h k e =
    let back_x : u32 (u32 (x * 16777619) * 899433627) ≡ x = omega arith in
    let back_y : u32 (u32 (y * 16777619) * 899433627) ≡ y = omega arith in
    sym back_x ∙ ap (λ (t : ℕ). u32 (t * 899433627)) e ∙ back_y

byte_bound : (b : ℕ) → IsByte b → b < 2 ^ 32
byte_bound b h = omega arith

module _ (h h' b b' : ℕ) (hb : h < 2 ^ 32) (hb' : h' < 2 ^ 32) (bb : IsByte b)
    (bb' : IsByte b') where
  step_state : fnv1a32_step h b ≡ fnv1a32_step h' b → h ≡ h'
  unfolding fnv1a32_step
  step_state e = bit_xor-injective 32 h h' b hb hb' (byte_bound b bb) (
      times_prime (bit_xor h b) (bit_xor h' b) (bit_xor-lt 32 h b hb (byte_bound b bb))
        (bit_xor-lt 32 h' b hb' (byte_bound b bb)) e)

  step_byte : fnv1a32_step h b ≡ fnv1a32_step h b' → b ≡ b'
  unfolding fnv1a32_step
  step_byte e =
      let x = byte_bound b bb in
      let x' = byte_bound b' bb' in
      let same =
        times_prime (bit_xor h b) (bit_xor h b') (bit_xor-lt 32 h b hb x) (bit_xor-lt 32 h b' hb x')
          e in
      bit_xor-injective 32 b b' h x x' hb
        (bit_xor_comm 32 b h x hb ∙ same ∙ bit_xor_comm 32 h b' hb x')

fnv1a32_step-lt : (h b : ℕ) → fnv1a32_step h b < 2 ^ 32
unfolding fnv1a32_step
fnv1a32_step-lt h b = omega arith

-- On the same bytes the hash tells apart the states it starts from.
fnv1a32-injective :
    (bytes : List ℕ) (h h' : ℕ)
    → h < 2 ^ 32
    → h' < 2 ^ 32
    → All IsByte bytes
    → fnv1a32 bytes h ≡ fnv1a32 bytes h'
    → h ≡ h'
unfolding fnv1a32
fnv1a32-injective [] h h' k k' all e = e
fnv1a32-injective (b ∷ bytes) h h' k k' (bb, all) e = step_state h h' b b k k' bb bb (
    fnv1a32-injective bytes (fnv1a32_step h b) (fnv1a32_step h' b) (fnv1a32_step-lt h b)
      (fnv1a32_step-lt h' b) all e)

fnv1a32-set :
    (bytes : List ℕ) (i v h : ℕ)
    → i < length bytes
    → IsByte v
    → h < 2 ^ 32
    → All IsByte bytes
    → fnv1a32 (set bytes i v) h ≡ fnv1a32 bytes h
    → get_or bytes i 0 ≡ v
unfolding fnv1a32
fnv1a32-set [] i v h k bv hb all e = absurd (omega arith)
fnv1a32-set (b ∷ bytes) zero v h k bv hb (bb, all) e =
    let states =
      fnv1a32-injective bytes (fnv1a32_step h v) (fnv1a32_step h b) (fnv1a32_step-lt h v)
        (fnv1a32_step-lt h b) all e in
    sym (step_byte h h v b hb hb bv bb states)
fnv1a32-set (b ∷ bytes) (suc i) v h k bv hb (bb, all) e =
    fnv1a32-set bytes i v (fnv1a32_step h b) (omega (arith, k)) bv (fnv1a32_step-lt h b) all e

-- A change of one byte of a payload changes its checksum.
checksum-set :
    (payload : List ℕ) (i v : ℕ)
    → i < length payload
    → IsByte v
    → All IsByte payload
    → checksum (set payload i v) ≡ checksum payload
    → get_or payload i 0 ≡ v
unfolding checksum
checksum-set [] i v k bv all e = absurd (omega arith)
checksum-set (b ∷ payload) zero v k bv all e =
    fnv1a32-set (b ∷ payload) zero v fnv1a32_seed k bv (omega arith) all e
checksum-set (b ∷ payload) (suc i) v k bv all e =
    fnv1a32-set (b ∷ payload) (suc i) v fnv1a32_seed k bv (omega arith) all e

set-frame_bytes :
    (t : ℕ) (p : List ℕ) (sum i v : ℕ)
    → i < length p
    → set (frame_bytes t p sum) (3 + i) v ≡ frame_bytes t (set p i v) sum
set-frame_bytes t p sum i v h =
    let at : 3 + i ≡ suc (suc (suc i)) = omega arith in
    ap (λ n. set (frame_bytes t p sum) n v) at
    ∙ ap (λ x. (u8 (1 + length p) ∷ u8 ((1 + length p) / 256) ∷ t ∷ []) ++ x)
        (set-append_before p (le_bytes 4 sum) i v h)
    ∙ ap (λ n. (u8 (1 + n) ∷ u8 ((1 + n) / 256) ∷ t ∷ []) ++ set p i v ++ le_bytes 4 sum)
        (sym (length-set p i v))

-- A frame with one payload byte changed on the way is dropped, and the parser goes on with the bytes
-- behind it: the frame has a type byte and at most 4096 bytes of payload.
pub parse_frames-changed :
    (f : Frame) (i v : ℕ) (tail : List ℕ) (out : List Frame)
    → IsFrame f
    → i < length f.payload
    → IsByte v
    → get_or f.payload i 0 ≢ v
    → All IsByte tail
    → parse_frames (set (build_frame f.type f.payload) (3 + i) v ++ tail) out
      ≡ parse_frames tail out
parse_frames-changed f i v tail out frame k bv other bytes =
    let (r, e, p) = parse_frames-Parses tail out bytes in
    let sum = checksum f.payload in
    let payload = set f.payload i v in
    let stream : set (build_frame f.type f.payload) (3 + i) v ≡ frame_bytes f.type payload sum =
      ap (λ x. set x (3 + i) v) (build_frame_lem f.type f.payload frame.typed frame.within)
      ∙ set-frame_bytes f.type f.payload sum i v k in
    let wrong : (sum == checksum payload) ≡ false = elim (Bool-cases (sum == checksum payload)) [
      | inl same ↦
          absurd (other (checksum-set f.payload i v k bv frame.bytes (sym ((==_iff _ _).0 same))))
      | inr differs ↦ differs
    ] in
    let dropped : checked f.type payload sum ≡ [] = if_false _ _ wrong in
    let next =
      subst (λ x. Parses tail x r) (sym (append-nil out) ∙ ap (λ x. out ++ x) (sym dropped)) p in
    let size : length payload ≤ 4096 = omega (arith, length-set f.payload i v, frame.within) in
    let all =
      All-append IsByte (frame_bytes f.type payload sum) tail
        (frame_bytes-IsByte f.type payload sum frame.typed
          (All-set IsByte f.payload i v bv frame.bytes))
        bytes in
    ap (λ x. parse_frames (x ++ tail) out) stream
    ∙ parse_frames_of (frame_bytes f.type payload sum ++ tail) out r all
        (Parses-frame f.type payload sum tail out r (checksum-lt f.payload) size next)
    ∙ sym e
