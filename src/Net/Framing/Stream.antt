-- ===== src/Net/Framing/Stream.antt =====
-- The stream that net/framing.cpp parses, round by round: what the bytes at its front mean, and
-- which result the rounds add up to.
use tetris_multiplayer_rl.Net.Framing.{Parsed, checksum, Frame}
use tetris_multiplayer_rl.Common.{
  ltb, ◌==◌, if◌then◌else◌, length, take, drop, ℕ, zero, suc, ◌+◌, ◌*◌, ◌≡◌, true, false, List, [],
  ◌∷◌, ◌++◌,
}

-- The front of the stream: not all there, a length over the limit, or `need` bytes with the frames
-- they give.
pub data Round : Type 0 where
  wait : Round
  bad : Round
  took : ℕ → List Frame → Round

-- What a round takes.
unfoldable pub need_of : Round → ℕ
need_of wait = 0
need_of bad = 0
need_of (took need frames) = need

unfoldable pub frames_of : Round → List Frame
frames_of wait = []
frames_of bad = []
frames_of (took need frames) = frames

-- A little-endian number.
unfoldable pub value : List ℕ → ℕ
value [] = 0
value (b ∷ bytes) = b + 256 * value bytes

-- The bytes behind the length field: a type, the payload, the checksum.
unfoldable pub body : ℕ → List ℕ → List Frame
body zero s = []
body (suc n) [] = []
body (suc n) (t ∷ s) =
    if value (take 4 (drop n s)) == checksum (take n s)
    then record { type = t; payload = take n s } ∷ []
    else []

unfoldable pub round_of : ℕ → List ℕ → Round
unfolding body
round_of len s =
    if ltb 4097 len
    then bad
    else if ltb (length s) (len + 4)
    then wait
    else took (len + 6) (body len s)

unfoldable pub next_frame : List ℕ → Round
unfolding round_of
next_frame [] = wait
next_frame (b ∷ []) = wait
next_frame (lo ∷ hi ∷ s) = round_of (lo + hi * 256) s

-- The result on a stream, after the frames `out`.
pub data Parses : List ℕ → List Frame → Parsed → Type 0 where
  waiting :
      (s : List ℕ) (out : List Frame)
      → next_frame s ≡ wait
      → Parses s out (record { ok = true; stream_buf = s; out = out })
  broken :
      (s : List ℕ) (out : List Frame)
      → next_frame s ≡ bad
      → Parses s out (record { ok = false; stream_buf = []; out = out })
  consumed :
      (s : List ℕ) (out : List Frame) (need : ℕ) (frames : List Frame) (r : Parsed)
      → next_frame s ≡ took need frames
      → Parses (drop need s) (out ++ frames) r
      → Parses s out r

-- The three answers at the front of a stream with a length field.
module _ (len : ℕ) (s : List ℕ) where
  pub round_of-bad : ltb 4097 len ≡ true → round_of len s ≡ bad
  unfolding round_of
  round_of-bad h = rw h

  pub round_of-wait : ltb 4097 len ≡ false → ltb (length s) (len + 4) ≡ true → round_of len s ≡ wait
  unfolding round_of
  round_of-wait h j = rw (h, j)

  pub round_of-took :
      ltb 4097 len ≡ false
      → ltb (length s) (len + 4) ≡ false
      → round_of len s ≡ took (len + 6) (body len s)
  unfolding round_of
  round_of-took h j = rw (h, j)
