-- ===== src/Server/Relay/Ranked.antt =====
-- The ranked direction of `forwarderLoop` of server/relay.cpp, which keeps the summaries back and
-- hands on the other frames, and a whole match: both directions and the last one's stop. Which send
-- gets through is a function of the sends before it, and the meta server's answer is a parameter.
use tetris_multiplayer_rl.Net.Framing.{
  checksum, k_max_payload_bytes, le_read_u16, match_summary, is_server_only_type, le_read_u32,
}
use tetris_multiplayer_rl.Server.Relay.Result.{
  finalize_ranked, finalize_forfeit, parse_summary, Saved, Action, Channel, Post, Summary,
}
use tetris_multiplayer_rl.Common.{
  ltb, ◌==◌, if◌then◌else◌, ◌>>=◌, has_value, length, get_elem?, take, drop, ℕ, zero, suc, ◌+◌, ◌-◌,
  Bool, true, false, not, ◌&&◌, Option, none, some, List, [], ◌∷◌, ◌++◌,
}

-- The variables of one direction's batch.
pub record Ranked : Type 0 where
  pub stream_buf : List ℕ
  pub ch : Channel
  pub out : List (List ℕ)
  pub send_failed : Bool

-- The first summary of a side is kept.
unfoldable pub store_summary : Bool → Summary → Channel → Channel
store_summary true s ch = if has_value ch.summary_a then ch else record ch { summary_a = some s }
store_summary false s ch = if has_value ch.summary_b then ch else record ch { summary_b = some s }

-- A MATCH_SUMMARY frame is stored where its check and its size are right.
unfoldable pub intercept : Bool → List ℕ → ℕ → Channel → Channel
unfolding store_summary
intercept a_to_b payload chk ch =
    if not (chk == checksum payload)
    then ch
    else elim (parse_summary payload) [ none ↦ ch | some s ↦ store_summary a_to_b s ch ]

module _ (sends : List (List ℕ) → List ℕ → Bool) (a_to_b : Bool) where
  -- The loop over the frames. A round takes six bytes or more.
  unfoldable pub ranked_loop : ℕ → Ranked → Option Ranked
  unfolding intercept
  ranked_loop zero st = none
  ranked_loop (suc fuel) st =
      let next = ranked_loop fuel in
      let buf = st.stream_buf in
      if ltb (length buf) 2
      then some st
      else le_read_u16 buf 0 >>= λ len.
          let total = 2 + len + 4 in
          let rest = drop total buf in
          if ltb (k_max_payload_bytes + 1) len
          then some (record st { stream_buf = [] })
          else if ltb (length buf) total
          then some st
          else if ltb len 1
          then next (record st { stream_buf = rest })
          else get_elem? buf 2 >>= λ type.
              if type == match_summary
              then (do
                chk ← le_read_u32 buf (2 + len)
                next (record st {
                  stream_buf = rest;
                  ch = intercept a_to_b (take (len - 1) (drop 3 buf)) chk st.ch;
                }))
              else if is_server_only_type type
              then next (record st { stream_buf = rest })
              else if sends st.out (take total buf)
              then next (record st { stream_buf = rest; out = st.out ++ take total buf ∷ [] })
              else some (record st { out = st.out ++ take total buf ∷ []; send_failed = true })

-- A match: what each direction holds, the frames handed to each side, and the results.
pub record Match : Type 0 where
  pub ch : Channel
  pub buf_a : List ℕ
  pub buf_b : List ℕ
  pub to_a : List (List ℕ)
  pub to_b : List (List ℕ)
  pub results : List Action

-- A batch of bytes from one side, or the end of the last direction, after the loss of a side. A list
-- of steps may go on where a direction of the code has ended, so it has more runs than the code.
pub data Step : Type 0 where
  from_a : List ℕ → Step
  from_b : List ℕ → Step
  stopped : ℕ → Step

module _ (post_match : Post → Option Saved) where
  -- The result, where a batch brought the second summary.
  unfoldable pub end_ranked_batch : Channel → Channel × List Action
  unfolding finalize_ranked
  end_ranked_batch ch =
      if has_value ch.summary_a && has_value ch.summary_b && not ch.summary_handled
      then finalize_ranked post_match ch
      else (ch, [])

  module _ (sends_to_a sends_to_b : List (List ℕ) → List ℕ → Bool) where
    unfoldable pub step : Step → Match → Option Match
    unfolding ranked_loop end_ranked_batch finalize_forfeit
    step (from_a raw) m = do
      let buf = m.buf_a ++ raw
      st ←
          ranked_loop sends_to_b true (length buf + 1)
            (record { stream_buf = buf; ch = m.ch; out = m.to_b; send_failed = false })
      let done = end_ranked_batch st.ch
      some (record m {
        ch = done.0;
        buf_a = st.stream_buf;
        to_b = st.out;
        results = m.results ++ done.1;
      })
    step (from_b raw) m = do
      let buf = m.buf_b ++ raw
      st ←
          ranked_loop sends_to_a false (length buf + 1)
            (record { stream_buf = buf; ch = m.ch; out = m.to_a; send_failed = false })
      let done = end_ranked_batch st.ch
      some (record m {
        ch = done.0;
        buf_b = st.stream_buf;
        to_a = st.out;
        results = m.results ++ done.1;
      })
    step (stopped disconnect_side) m =
        let done = finalize_forfeit post_match disconnect_side m.ch in
        some (record m { ch = done.0; results = m.results ++ done.1 })

    unfoldable pub run : List Step → Match → Option Match
    unfolding step
    run [] m = some m
    run (s ∷ steps) m = step s m >>= run steps
