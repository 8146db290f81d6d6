-- ===== src/Server/Relay/Tests.antt =====
-- Runs of the relay of server/relay.cpp.
use tetris_multiplayer_rl.Server.Relay.Filter.Transparent.{unranked_batch-parse_frames}
use tetris_multiplayer_rl.Server.Relay.Filter.Whole.{allowed}
use tetris_multiplayer_rl.Server.Relay.Filter.Relayed.{join}
use tetris_multiplayer_rl.Net.Framing.{parse_frames, Parsed}
use tetris_multiplayer_rl.Server.Relay.Filter.{unranked_batch, Batch}
use tetris_multiplayer_rl.Server.Relay.Answers.{result_frame-get_match_result}
use tetris_multiplayer_rl.Server.Relay.Once.{run-stopped}
use tetris_multiplayer_rl.Server.Relay.Winner.{winner_of-Agree, Wins, Agree}
use tetris_multiplayer_rl.Server.Relay.History.{told}
use tetris_multiplayer_rl.Common.Int.{pos, negsuc}
use tetris_multiplayer_rl.Net.Session.Io.{receive}
use tetris_multiplayer_rl.Server.Relay.Summaries.{send_match_summary-step, IsSummary}
use tetris_multiplayer_rl.Server.Relay.Ranked.{from_b, stopped, from_a, step, run, Match, Step}
use tetris_multiplayer_rl.Net.Session.{
  get_match_result, no_result, host, Session, send_match_summary,
}
use tetris_multiplayer_rl.Server.Relay.Result.{
  result_frame, Saved, Channel, winner_of, Post, Change, Summary,
}
use tetris_multiplayer_rl.Common.{
  ℕ, ◌≤◌, ◌≡◌, refl, ◌↔◌, Bool, true, false, Option, none, some, List, [], ◌∷◌, ◌++◌, arith,
}

abbrev channel : Channel
channel = record {
  player_a_id = pos 31;
  player_b_id = pos 42;
  player_a_elo = pos 1000;
  player_b_elo = pos 1100;
  has_meta = true;
  summary_a = none;
  summary_b = none;
  summary_handled = false;
}

abbrev started : Match
started = record { ch = channel; buf_a = []; buf_b = []; to_a = []; to_b = []; results = [] }

-- The meta server gives and takes 16 points.
abbrev saves : Post → Option Saved
saves r = some (record {
  a = record { elo_before = pos 1000; elo_after = pos 1016; delta = pos 16 };
  b = record { elo_before = pos 1100; elo_after = pos 1084; delta = negsuc 15 };
})

abbrev through : List (List ℕ) → List ℕ → Bool
through out pkt = true

abbrev won_by_a : Summary
won_by_a = record {
  won = 1;
  my_score = 900;
  my_lines = 12;
  opp_score = 400;
  opp_lines = 5;
  duration_s = 80;
}

abbrev lost_by_b : Summary
lost_by_b = record {
  won = 0;
  my_score = 400;
  my_lines = 5;
  opp_score = 900;
  opp_lines = 12;
  duration_s = 81;
}

winner_of-Agree_example :
    (winner_of channel won_by_a lost_by_b ≡ some (pos 31))
    ↔ (Agree won_by_a lost_by_b × Wins channel won_by_a (pos 31))
winner_of-Agree_example =
    winner_of-Agree channel won_by_a lost_by_b (pos 31) (omega arith) (omega arith)

-- A frame of A, a MATCH_RESULT that A makes up, and half a frame of B.
abbrev steps : List Step
steps =
    from_a (1 ∷ 0 ∷ 6 ∷ 0 ∷ 0 ∷ 0 ∷ 0 ∷ 1 ∷ 0 ∷ 19 ∷ 0 ∷ 0 ∷ 0 ∷ 0 ∷ []) ∷ from_b (1 ∷ 0 ∷ []) ∷ []

run-stopped_example :
    (t : Match) × (run saves through through (steps ++ stopped 1 ∷ []) started ≡ some t)
    × (t.ch.summary_handled ≡ true)
    × (1 ≤ told t.results)
run-stopped_example =
    run-stopped saves through through steps 1 started (refl, refl) (refl, refl, refl)
      (λ r. (_, refl))

abbrev client : Session
client = record {
  quit = false;
  connected = true;
  listening = false;
  ready = true;
  connection_failed = false;
  seed_params = record { seed = 7; start_tick = 120; input_delay = 2; role = host };
  recv_buf = [];
  send_q = [];
  remote_inputs = [];
  last_remote_tick = 0;
  last_local_tick = 0;
  last_hash_tick_remote = 0;
  last_hash_remote = 0;
  local_game_over_choice = 0;
  remote_game_over_choice = 0;
  last_pong_ms = 0;
  last_ping_sent_ms = 0;
  last_main_activity_ms = 0;
  heartbeat_tick_end = 0;
  last_heartbeat_ms = 0;
  chat_q = [];
  match_result_valid = false;
  match_result = no_result;
}

won_by_a-IsSummary : IsSummary won_by_a
won_by_a-IsSummary = record {
  won = omega arith;
  my_score = omega arith;
  my_lines = omega arith;
  opp_score = omega arith;
  opp_lines = omega arith;
  duration_s = omega arith;
}

send_match_summary-step_example :
    (fr : List ℕ) × ((send_match_summary 1 900 12 400 5 80 client).send_q ≡ [] ++ fr ∷ [])
    × (t : Match) × (step saves through through (from_a fr) started ≡ some t)
    × (t.ch.summary_a ≡ some won_by_a)
    × (t.to_b ≡ [])
    × (t.buf_a ≡ [])
send_match_summary-step_example =
    send_match_summary-step saves through through won_by_a client started won_by_a-IsSummary
      (omega arith) refl refl

abbrev loss : Change
loss = record { elo_before = pos 1100; elo_after = pos 1084; delta = negsuc 15 }

result_frame-get_match_result_example :
    (t : Session) × (receive 90 (result_frame loss) client ≡ some t)
    × (get_match_result t
        ≡ some (record { elo_before = pos 1100; elo_after = pos 1084; delta = negsuc 15 }))
result_frame-get_match_result_example =
    result_frame-get_match_result loss (omega arith) (omega arith) (omega arith) 90 client refl

-- A MATCH_RESULT that only a server may send, and the front of a ping.
abbrev forged : List ℕ
forged = 1 ∷ 0 ∷ 19 ∷ 0 ∷ 0 ∷ 0 ∷ 0 ∷ 1 ∷ 0 ∷ 6 ∷ []

unranked_batch-parse_frames_example :
    (b : Batch) × (r : Parsed) × (unranked_batch through [] forged [] ≡ some b)
    × (parse_frames ([] ++ forged) [] ≡ some r)
    × (parse_frames (join b.out) []
        ≡ some (record { ok = true; stream_buf = []; out = allowed r.out }))
    × (b.stream_buf ≡ r.stream_buf)
unranked_batch-parse_frames_example =
    unranked_batch-parse_frames through [] forged (λ h b. refl)
      (
        omega arith,
        (
          omega arith,
          (
            omega arith,
            (
              omega arith,
              (
                omega arith,
                (omega arith, (omega arith, (omega arith, (omega arith, (omega arith, tt))))),
              ),
            ),
          ),
        ),
      )
