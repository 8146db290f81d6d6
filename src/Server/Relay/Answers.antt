-- ===== src/Server/Relay/Answers.antt =====
-- A MATCH_RESULT from server/relay.cpp to `GetMatchResult` of net/session.cpp.
use tetris_multiplayer_rl.Net.Session.Lockstep.{receive_one}
use tetris_multiplayer_rl.Net.Framing.RoundTrip.{IsFrame}
use tetris_multiplayer_rl.Net.Session.Io.{receive}
use tetris_multiplayer_rl.Net.Framing.{match_result, Frame, le_write, le_write_u32}
use tetris_multiplayer_rl.Net.Framing.Reads.{le_read_u32-written}
use tetris_multiplayer_rl.Net.Session.{Session, get_match_result}
use tetris_multiplayer_rl.Net.Session.Handle.{handle_match_result, handle_frame}
use tetris_multiplayer_rl.Server.Relay.Summaries.{le_words-IsByte, le_words}
use tetris_multiplayer_rl.Common.Int.{ℤ, pos, negsuc, to_u32, to_int}
use tetris_multiplayer_rl.Server.Relay.Result.{Change, build_match_result, result_frame}
use tetris_multiplayer_rl.Common.{
  ltb, if_true, if_false, le_bytes, ℕ, ◌-◌, ◌^◌, ◌<◌, ◌≡◌, refl, ap, ◌∙◌, true, false, some, List,
  [], ◌∷◌, ◌++◌, arith,
}

-- A number that fits an `int`.
abbrev pub IsInt : ℤ → Type 0
IsInt (pos n) = n < 2 ^ 31
IsInt (negsuc n) = n < 2 ^ 31

to_int-to_u32 : (x : ℤ) → IsInt x → to_int (to_u32 x) ≡ x
to_int-to_u32 (pos n) h =
    let small : to_u32 (pos n) ≡ n = omega (arith, h) in
    let low : ltb n (2 ^ 31) ≡ true = ground (arith, h) in ap to_int small ∙ if_true _ _ low
to_int-to_u32 (negsuc n) h =
    let u : to_u32 (negsuc n) ≡ 2 ^ 32 - 1 - n = omega (arith, h) in
    let high : ltb (2 ^ 32 - 1 - n) (2 ^ 31) ≡ false = ground (arith, h) in
    let back : 2 ^ 32 - 1 - (2 ^ 32 - 1 - n) ≡ n = omega (arith, h) in
    ap to_int u ∙ if_false _ _ high ∙ ap negsuc back

to_u32-lt : (x : ℤ) → to_u32 x < 2 ^ 32
to_u32-lt (pos n) = omega arith
to_u32-lt (negsuc n) = omega arith

module _ (c : Change) (before : IsInt c.elo_before) (after : IsInt c.elo_after)
    (delta : IsInt c.delta) where
  abbrev answer : List ℕ
  answer = le_words (to_u32 c.elo_before ∷ to_u32 c.elo_after ∷ to_u32 c.delta ∷ [])

  handle_answer :
      (s : Session)
      → handle_match_result answer s
        ≡ some (record s {
          match_result = record {
            elo_before = c.elo_before;
            elo_after = c.elo_after;
            delta = c.delta;
          };
          match_result_valid = true;
        })
  unfolding handle_match_result
  handle_answer s =
      let a = to_u32 c.elo_before in
      let b = to_u32 c.elo_after in
      let d = to_u32 c.delta in
      let e1 =
        le_read_u32-written [] (le_words (b ∷ d ∷ [])) a (to_u32-lt c.elo_before)
          (le_words-IsByte (b ∷ d ∷ [])) in
      let e2 =
        le_read_u32-written (le_bytes 4 a) (le_words (d ∷ [])) b (to_u32-lt c.elo_after)
          (le_words-IsByte (d ∷ [])) in
      let e3 = le_read_u32-written (le_bytes 4 a ++ le_bytes 4 b) [] d (to_u32-lt c.delta) tt in
      rw
        (
          e1,
          e2,
          e3,
          to_int-to_u32 c.elo_before before,
          to_int-to_u32 c.elo_after after,
          to_int-to_u32 c.delta delta,
        )
        refl

  -- The three numbers of a rating change that fit an `int` come to the client as the relay sent them:
  -- a session with no bytes waiting that takes the result's frame then gives them, and no others.
  pub result_frame-get_match_result :
      (now : ℕ) (s : Session)
      → s.recv_buf ≡ []
      → (t : Session) × (receive now (result_frame c) s ≡ some t)
        × (get_match_result t
            ≡ some (record { elo_before = c.elo_before; elo_after = c.elo_after; delta = c.delta }))
  unfolding result_frame build_match_result le_write_u32 le_write handle_frame get_match_result
  result_frame-get_match_result now s waits =
      let f : Frame = record { type = match_result; payload = answer } in
      let v : IsFrame f = record {
        typed = omega arith;
        within = omega arith;
        bytes = le_words-IsByte (to_u32 c.elo_before ∷ to_u32 c.elo_after ∷ to_u32 c.delta ∷ []);
      } in
      (
        record s {
          match_result = record {
            elo_before = c.elo_before;
            elo_after = c.elo_after;
            delta = c.delta;
          };
          match_result_valid = true;
        },
        receive_one now f s v waits ∙ handle_answer s,
        refl,
      )
