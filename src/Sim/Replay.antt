-- ===== src/Sim/Replay.antt =====
-- core/replay.h and core/replay.cpp: the recorded inputs of a match and their text file. A file is
-- the list of its words, split at white space as the stream operators do: digits are a number, and
-- any other word is the key that it spells.
pub mod RoundTrip
mod Tests
use tetris_multiplayer_rl.Common.{
  ltb, leb, if◌then◌else◌, ◌>>=◌, length, set, replicate, u8, ℕ, zero, suc, ◌+◌, ◌^◌, Option, none,
  some, List, [], ◌∷◌,
}

pub record FrameInputs : Type 0 where
  pub p1 : ℕ
  pub p2 : ℕ

abbrev pub no_inputs : FrameInputs
no_inputs = record { p1 = 0; p2 = 0 }

pub record ReplayData : Type 0 where
  pub seed : ℕ
  pub frames : List FrameInputs

pub data Word : Type 0 where
  seed_key : Word
  ticks_key : Word
  other_key : Word
  number : ℕ → Word

unfoldable pub save_frames : ℕ → List FrameInputs → List Word
save_frames i [] = []
save_frames i (fr ∷ frames) = number i ∷ number fr.p1 ∷ number fr.p2 ∷ save_frames (i + 1) frames

-- `Save`, where the file opens.
unfoldable pub save : ReplayData → List Word
unfolding save_frames
save rp =
    seed_key ∷ number rp.seed ∷ ticks_key ∷ number (length rp.frames) ∷ save_frames 0 rp.frames

-- `f >> n` for an unsigned integer of `bits` bits: it fails on another word and out of range.
unfoldable pub read_number : ℕ → List Word → Option (ℕ × List Word)
read_number bits [] = none
read_number bits (seed_key ∷ file) = none
read_number bits (ticks_key ∷ file) = none
read_number bits (other_key ∷ file) = none
read_number bits (number n ∷ file) = if ltb n (2 ^ bits) then some (n, file) else none

-- `f >> key` and the test of the key: of the two keys in the file, which both tests read.
unfoldable pub read_seed_key : List Word → Option (List Word)
read_seed_key (seed_key ∷ file) = some file
read_seed_key file = none

unfoldable pub read_ticks_key : List Word → Option (List Word)
read_ticks_key (ticks_key ∷ file) = some file
read_ticks_key file = none

unfoldable pub read_inputs : List Word → Option (ℕ × ℕ × ℕ × List Word)
read_inputs file = do
  (idx, file1) ← read_number 64 file
  (p1, file2) ← read_number 32 file1
  (p2, file3) ← read_number 32 file2
  some (idx, p1, p2, file3)

-- The loop of `Load`, at most `left` times.
unfoldable pub load_loop : ℕ → ℕ → List Word → List FrameInputs → List FrameInputs
load_loop zero ticks file frames = frames
load_loop (suc left) ticks file frames =
    let next = load_loop left ticks in
    elim (read_inputs file) [
      | none ↦ frames
      | some (idx, p1, p2, rest) ↦
          if leb ticks idx
          then frames
          else next rest (set frames idx (record { p1 = u8 p1; p2 = u8 p2 }))
    ]

-- `Load`, where the file opens: `none` is its `false`, which leaves the replay as it was.
unfoldable pub load : List Word → Option ReplayData
load file = do
  file1 ← read_seed_key file
  (seed, file2) ← read_number 64 file1
  file3 ← read_ticks_key file2
  (ticks, file4) ← read_number 64 file3
  some (record { seed = seed; frames = load_loop ticks ticks file4 (replicate ticks no_inputs) })
