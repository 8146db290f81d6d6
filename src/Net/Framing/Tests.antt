-- ===== src/Net/Framing/Tests.antt =====
-- Runs of net/framing.cpp, and its theorems on concrete streams.
use tetris_multiplayer_rl.Common.Literals.{all_bytes_lem}
use tetris_multiplayer_rl.Net.Framing.Loop.{parse_frames-Parses}
use tetris_multiplayer_rl.Net.Framing.Stream.{Parses}
use tetris_multiplayer_rl.Net.Framing.Corruption.{parse_frames-changed}
use tetris_multiplayer_rl.Net.Framing.Limits.{parse_frames-Limits, IsWithinLimit}
use tetris_multiplayer_rl.Net.Framing.Chunks.{parse_frames-append}
use tetris_multiplayer_rl.Net.Framing.RoundTrip.{parse_frames-written, written, IsFrame}
use tetris_multiplayer_rl.Net.Framing.{
  checksum, read_frame, le_read_u32, le_read_u16, parse_loop, build_frame, Parsed, parse_frames,
  Frame,
}
use tetris_multiplayer_rl.Common.{
  length, set, All, IsByte, ℕ, ◌+◌, ◌<◌, ◌≡◌, refl, true, false, some, List, [], ◌∷◌, ◌++◌, arith,
}

abbrev input_frame : Frame
input_frame = record { type = 4; payload = 1 ∷ 0 ∷ 17 ∷ [] }

abbrev ping : Frame
ping = record { type = 6; payload = [] }

input_frame-IsFrame : IsFrame input_frame
input_frame-IsFrame = record {
  typed = omega arith;
  within = omega arith;
  bytes = all_bytes_lem (1 ∷ 0 ∷ 17 ∷ []) refl;
}

ping-IsFrame : IsFrame ping
ping-IsFrame = record { typed = omega arith; within = omega arith; bytes = all_bytes_lem [] refl }

-- A whole frame and the first bytes of the next one.
abbrev stream : List ℕ
stream = 1 ∷ 0 ∷ 6 ∷ 0 ∷ 0 ∷ 0 ∷ 0 ∷ 4 ∷ 0 ∷ 4 ∷ []

stream-IsByte : All IsByte stream
stream-IsByte = all_bytes_lem stream refl

stream_run :
    parse_frames stream []
    ≡ some (record { ok = true; stream_buf = 4 ∷ 0 ∷ 4 ∷ []; out = ping ∷ [] })
unfolding parse_frames parse_loop le_read_u16 le_read_u32 read_frame checksum
stream_run = refl

-- A length of 4098 is refused.
refused_run :
    parse_frames (2 ∷ 16 ∷ 0 ∷ []) (ping ∷ [])
    ≡ some (record { ok = false; stream_buf = []; out = ping ∷ [] })
unfolding parse_frames parse_loop le_read_u16
refused_run = refl

parse_frames-append_example :
    parse_frames (stream ++ 1 ∷ 0 ∷ []) [] ≡ parse_frames (4 ∷ 0 ∷ 4 ∷ 1 ∷ 0 ∷ []) (ping ∷ [])
parse_frames-append_example =
    parse_frames-append stream (1 ∷ 0 ∷ []) []
      (record { ok = true; stream_buf = 4 ∷ 0 ∷ 4 ∷ []; out = ping ∷ [] }) stream-IsByte
      (all_bytes_lem (1 ∷ 0 ∷ []) refl) stream_run

parse_frames-Limits_example :
    (r : Parsed) × (parse_frames stream [] ≡ some r)
    × (length r.stream_buf < 4103)
    × (fresh : List Frame) × (r.out ≡ [] ++ fresh)
    × All IsWithinLimit fresh
parse_frames-Limits_example = parse_frames-Limits stream [] stream-IsByte

parse_frames-written_example :
    parse_frames (written (input_frame ∷ ping ∷ []) ++ stream) []
    ≡ parse_frames stream ([] ++ input_frame ∷ ping ∷ [])
parse_frames-written_example =
    parse_frames-written (input_frame ∷ ping ∷ []) stream []
      (input_frame-IsFrame, (ping-IsFrame, tt)) stream-IsByte

parse_frames-changed_example :
    parse_frames (set (build_frame 4 (1 ∷ 0 ∷ 17 ∷ [])) (3 + 2) 16 ++ stream) (ping ∷ [])
    ≡ parse_frames stream (ping ∷ [])
parse_frames-changed_example =
    parse_frames-changed input_frame 2 16 stream (ping ∷ []) input_frame-IsFrame (omega arith)
      (omega arith) (omega arith) stream-IsByte

parse_frames-Parses_example : (r : Parsed) × (parse_frames stream [] ≡ some r) × Parses stream [] r
parse_frames-Parses_example = parse_frames-Parses stream [] stream-IsByte
