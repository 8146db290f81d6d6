-- ===== src/Sim/Replay/RoundTrip.antt =====
-- `Save` and `Load` of core/replay.cpp: what one writes the other reads back.
use tetris_multiplayer_rl.Sim.Replay.{
  ticks_key, read_ticks_key, no_inputs, read_seed_key, save_frames, save, number, FrameInputs, Word,
  load_loop, load, ReplayData, read_inputs, read_number,
}
use tetris_multiplayer_rl.Common.{
  leb, if◌then◌else◌, lt→ltb, if_true, if_false, length, set, replicate, All, length-append,
  set-append_length, u8, IsByte, ℕ, suc, ◌+◌, ◌^◌, ◌<◌, ◌≡◌, refl, sym, ap, ◌∙◌, false, none, some,
  List, [], ◌∷◌, ◌++◌, arith,
}
use mathlib.Core.List.{append_assoc}

abbrev pub IsInputs : FrameInputs → Type 0
IsInputs fr = IsByte fr.p1 × IsByte fr.p2

-- A replay whose numbers fit the types of the source.
pub record IsReplay (rp : ReplayData) : Type 0 where
  pub seed : rp.seed < 2 ^ 64
  pub ticks : length rp.frames < 2 ^ 64
  pub inputs : All IsInputs rp.frames

read_number_fits :
    (bits n : ℕ) (file : List Word)
    → n < 2 ^ bits
    → read_number bits (number n ∷ file) ≡ some (n, file)
unfolding read_number
read_number_fits bits n file h = if_true _ _ (lt→ltb n (2 ^ bits) h)

read_inputs_fits :
    (idx p1 p2 : ℕ) (file : List Word)
    → idx < 2 ^ 64
    → IsByte p1
    → IsByte p2
    → read_inputs (number idx ∷ number p1 ∷ number p2 ∷ file) ≡ some (idx, p1, p2, file)
unfolding read_inputs
read_inputs_fits idx p1 p2 file h j k =
    rw
      (
        read_number_fits 64 idx (number p1 ∷ number p2 ∷ file) h,
        read_number_fits 32 p1 (number p2 ∷ file) (omega arith),
        read_number_fits 32 p2 file (omega arith),
      )
      refl

module _ (left ticks idx p1 p2 : ℕ) (file rest : List Word) (frames : List FrameInputs) where
  load_loop_step :
      read_inputs file ≡ some (idx, p1, p2, rest)
      → leb ticks idx ≡ false
      → load_loop (suc left) ticks file frames
        ≡ load_loop left ticks rest (set frames idx (record { p1 = u8 p1; p2 = u8 p2 }))
  unfolding load_loop
  load_loop_step r h =
      ap
        (λ o. elim o [
          | none ↦ frames
          | some (idx, p1, p2, rest) ↦
              if leb ticks idx
              then frames
              else load_loop left ticks rest (set frames idx (record { p1 = u8 p1; p2 = u8 p2 }))
        ])
        r
      ∙ if_false _ _ h

-- The frames that are read so far, and those to come, which are empty.
load_loop-save_frames :
    (done frames : List FrameInputs) (ticks : ℕ)
    → ticks ≡ length done + length frames
    → ticks < 2 ^ 64
    → All IsInputs frames
    → load_loop
        (length frames)
        ticks
        (save_frames (length done) frames)
        (done ++ replicate (length frames) no_inputs)
      ≡ done ++ frames
unfolding load_loop save_frames
load_loop-save_frames done [] ticks e h v = refl
load_loop-save_frames done (fr ∷ frames) ticks e h ((a, b), v) =
    let i = length done in
    let file = save_frames (i + 1) frames in
    let here = read_inputs_fits i fr.p1 fr.p2 file (omega arith) a b in
    let within : leb ticks i ≡ false = ground (arith, e) in
    let same : (record { p1 = u8 fr.p1; p2 = u8 fr.p2 }) ≡ fr =
      λ t. record { p1 = byte fr.p1 a t; p2 = byte fr.p2 b t } in
    let written =
      set-append_length done (replicate (length frames) no_inputs) no_inputs
        (record { p1 = u8 fr.p1; p2 = u8 fr.p2 })
      ∙ ap (λ x. done ++ x ∷ replicate (length frames) no_inputs) same
      ∙ sym (append_assoc done (fr ∷ []) (replicate (length frames) no_inputs)) in
    let size : i + 1 ≡ length (done ++ fr ∷ []) = omega (arith, length-append done (fr ∷ [])) in
    let rest =
      load_loop-save_frames (done ++ fr ∷ []) frames ticks
        (omega (arith, e, length-append done (fr ∷ []))) h v in
    load_loop_step (length frames) ticks i fr.p1 fr.p2
      (number i ∷ number fr.p1 ∷ number fr.p2 ∷ file) file
      (done ++ no_inputs ∷ replicate (length frames) no_inputs) here within
    ∙ ap (load_loop (length frames) ticks file) written
    ∙ ap
        (λ n.
          load_loop (length frames) ticks (save_frames n frames)
            ((done ++ fr ∷ []) ++ replicate (length frames) no_inputs))
        size
    ∙ rest
    ∙ append_assoc done (fr ∷ []) frames
  where
    byte : (p : ℕ) → IsByte p → u8 p ≡ p
    byte p h = omega arith

-- A replay with a 64-bit seed, fewer than 2 ^ 64 frames, and inputs of a byte is read back from its
-- file as it was.
pub load-save : (rp : ReplayData) → IsReplay rp → load (save rp) ≡ some rp
unfolding load save read_seed_key read_ticks_key
load-save rp v =
    let n = length rp.frames in
    let file = save_frames 0 rp.frames in
    let all = load_loop-save_frames [] rp.frames n (omega arith) v.ticks v.inputs in
    rw
      (
        read_number_fits 64 rp.seed (ticks_key ∷ number n ∷ file) v.seed,
        read_number_fits 64 n file v.ticks,
      )
      (ap (λ x. some (record { seed = rp.seed; frames = x })) all)
