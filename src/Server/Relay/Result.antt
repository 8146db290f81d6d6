-- ===== src/Server/Relay/Result.antt =====
-- The result of a ranked match in server/relay.cpp: the summaries that the two clients send, the
-- cross-check, the forfeit, and the request to the meta server. That request goes over HTTP: its
-- answer is a parameter.
use Prim.Native.Nat.{max}
use tetris_multiplayer_rl.Net.Framing.{match_result, build_frame, le_read_u32, le_write_u32}
use tetris_multiplayer_rl.Common.{
  ◌==◌, if◌then◌else◌, ◌>>=◌, has_value, length, get_elem?, ℕ, bit_xor, Bool, true, not, ◌&&◌, ◌||◌,
  Option, none, some, List, [], ◌∷◌, ◌++◌,
}
use tetris_multiplayer_rl.Common.Int.{ℤ, pos, eqb_ℤ, to_u32, to_int}

pub record Summary : Type 0 where
  pub won : ℕ
  pub my_score : ℕ
  pub my_lines : ℕ
  pub opp_score : ℕ
  pub opp_lines : ℕ
  pub duration_s : ℕ

unfoldable pub parse_summary : List ℕ → Option Summary
parse_summary p =
    if length p == 21
    then (do
      won ← get_elem? p 0
      my_score ← le_read_u32 p 1
      my_lines ← le_read_u32 p 5
      opp_score ← le_read_u32 p 9
      opp_lines ← le_read_u32 p 13
      duration_s ← le_read_u32 p 17
      some (record {
        won = won;
        my_score = my_score;
        my_lines = my_lines;
        opp_score = opp_score;
        opp_lines = opp_lines;
        duration_s = duration_s;
      }))
    else none

unfoldable pub build_match_result : ℤ → ℤ → ℤ → List ℕ
build_match_result elo_before elo_after delta =
    let before = le_write_u32 [] (to_u32 elo_before) in
    let after = le_write_u32 before (to_u32 elo_after) in
    build_frame match_result (le_write_u32 after (to_u32 delta))

-- The parts of `Channel` that the result is made of.
pub record Channel : Type 0 where
  pub player_a_id : ℤ
  pub player_b_id : ℤ
  pub player_a_elo : ℤ
  pub player_b_elo : ℤ
  pub has_meta : Bool
  pub summary_a : Option Summary
  pub summary_b : Option Summary
  pub summary_handled : Bool

-- What `post_match` is called with, and what it answers.
pub record Post : Type 0 where
  pub player_a : ℤ
  pub player_b : ℤ
  pub winner : Option ℤ
  pub score_a : ℤ
  pub score_b : ℤ
  pub lines_a : ℤ
  pub lines_b : ℤ
  pub duration_s : ℤ
  pub timeout_s : ℕ

pub record Change : Type 0 where
  pub elo_before : ℤ
  pub elo_after : ℤ
  pub delta : ℤ

pub record Saved : Type 0 where
  pub a : Change
  pub b : Change

pub data Action : Type 0 where
  posts : Post → Action
  sends_a : List ℕ → Action
  sends_b : List ℕ → Action

-- Both sides agree on the winner, the scores and the lines.
unfoldable pub cross_ok : Summary → Summary → Bool
cross_ok a b =
    not (bit_xor a.won b.won == 0)
    && ((a.my_score == b.opp_score) && (b.my_score == a.opp_score))
    && ((a.my_lines == b.opp_lines) && (b.my_lines == a.opp_lines))

unfoldable pub winner_of : Channel → Summary → Summary → Option ℤ
winner_of ch a b =
    if cross_ok a b then some (if a.won == 1 then ch.player_a_id else ch.player_b_id) else none

unfoldable pub result_frame : Change → List ℕ
result_frame c = build_match_result c.elo_before c.elo_after c.delta

abbrev pub unchanged : ℤ → Change
unchanged elo = record { elo_before = elo; elo_after = elo; delta = pos 0 }

module _ (post_match : Post → Option Saved) where
  -- The two results that are sent: the saved ones, or no change where nothing is saved.
  unfoldable pub send_results : Channel → Option Saved → List Action
  send_results ch none =
      sends_a (result_frame (unchanged ch.player_a_elo))
      ∷ sends_b (result_frame (unchanged ch.player_b_elo))
      ∷ []
  send_results ch (some res) = sends_a (result_frame res.a) ∷ sends_b (result_frame res.b) ∷ []

  -- What `finalizeRanked` asks to be saved.
  unfoldable pub ranked_request : Channel → Summary → Summary → Post
  unfolding winner_of
  ranked_request ch a b = record {
    player_a = ch.player_a_id;
    player_b = ch.player_b_id;
    winner = winner_of ch a b;
    score_a = to_int a.my_score;
    score_b = to_int b.my_score;
    lines_a = to_int a.my_lines;
    lines_b = to_int b.my_lines;
    duration_s = to_int (max a.duration_s b.duration_s);
    timeout_s = 10;
  }

  unfoldable pub publish : Channel → Summary → Summary → List Action
  unfolding send_results ranked_request
  publish ch a b =
      if ch.has_meta
      then posts (ranked_request ch a b) ∷ send_results ch (post_match (ranked_request ch a b))
      else send_results ch none

  -- The claim under the lock, and the result. The summaries are set once, so they are read as they
  -- were claimed.
  unfoldable pub finalize_ranked : Channel → Channel × List Action
  unfolding publish
  finalize_ranked ch = if ch.summary_handled then (ch, []) else elim ch.summary_a [
    | none ↦ (ch, [])
    | some a ↦ elim ch.summary_b [
      | none ↦ (ch, [])
      | some b ↦ (record ch { summary_handled = true }, publish ch a b)
    ]
  ]

  -- A send to each side but the one that was lost first: 1 is A, 2 is B, 0 is neither.
  unfoldable pub send_survivors : ℕ → List ℕ → List ℕ → List Action
  send_survivors disconnect_side frame_a frame_b =
      (if disconnect_side == 1 then [] else sends_a frame_a ∷ [])
      ++ (if disconnect_side == 2 then [] else sends_b frame_b ∷ [])

  -- The result where one summary came in: it says who won.
  unfoldable pub forfeit_request : Channel → Option Summary → Option Summary → Post
  forfeit_request ch a b =
      let none_seen : Summary = record {
        won = 0;
        my_score = 0;
        my_lines = 0;
        opp_score = 0;
        opp_lines = 0;
        duration_s = 0;
      } in
      let sa : Summary = elim a [ none ↦ none_seen | some s ↦ s ] in
      let sb : Summary = elim b [ none ↦ none_seen | some s ↦ s ] in
      record {
        player_a = ch.player_a_id;
        player_b = ch.player_b_id;
        winner = some (
            if has_value a
            then (if sa.won == 0 then ch.player_b_id else ch.player_a_id)
            else (if sb.won == 0 then ch.player_a_id else ch.player_b_id));
        score_a = to_int (if has_value a then sa.my_score else sb.opp_score);
        score_b = to_int (if has_value b then sb.my_score else sa.opp_score);
        lines_a = to_int (if has_value a then sa.my_lines else sb.opp_lines);
        lines_b = to_int (if has_value b then sb.my_lines else sa.opp_lines);
        duration_s = to_int (max sa.duration_s sb.duration_s);
        timeout_s = 3;
      }

  unfoldable pub publish_forfeit : ℕ → Channel → List Action
  unfolding send_survivors forfeit_request
  publish_forfeit disconnect_side ch =
      let request = forfeit_request ch ch.summary_a ch.summary_b in
      posts request ∷ elim (post_match request) [
        | none ↦ []
        | some res ↦ send_survivors disconnect_side (result_frame res.a) (result_frame res.b)
      ]

  -- `finalizeForfeit`. Nothing is saved where no summary came in.
  unfoldable pub finalize_forfeit : ℕ → Channel → Channel × List Action
  unfolding finalize_ranked publish_forfeit send_survivors
  finalize_forfeit disconnect_side ch =
      if not ch.has_meta || eqb_ℤ ch.player_a_id (pos 0) || eqb_ℤ ch.player_b_id (pos 0)
      then (ch, [])
      else if ch.summary_handled
      then (ch, [])
      else if has_value ch.summary_a && has_value ch.summary_b
      then finalize_ranked ch
      else if not (has_value ch.summary_a) && not (has_value ch.summary_b)
      then (
        record ch { summary_handled = true },
        send_survivors disconnect_side (result_frame (unchanged ch.player_a_elo))
            (result_frame (unchanged ch.player_b_elo)),
      )
      else (record ch { summary_handled = true }, publish_forfeit disconnect_side ch)
