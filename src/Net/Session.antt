-- ===== src/Net/Session.antt =====
-- The session of net/session.h and net/session.cpp: its state, the senders and the getters. Times
-- are milliseconds, passed in where the code reads its clock. Each function is one step: the code
-- holds the field's mutex for it.
pub mod Handle
pub mod Io
pub mod Lifecycle
pub mod Grows
pub mod Handled
pub mod Rounds
pub mod Sending
pub mod Delivery
pub mod Lockstep
pub mod Restart
pub mod Overflow
pub mod Matching
pub mod Queue
pub mod Lobby
pub mod Agreed
pub mod Kept
pub mod Begun
pub mod Rooms
pub mod Tests
use tetris_multiplayer_rl.Common.Int.{ℤ, pos}
use tetris_multiplayer_rl.Common.Assoc.{find}
use tetris_multiplayer_rl.Net.Framing.{
  game_over_choice, hash_msg, seed_msg, match_summary, chat, le_write_u32, build_frame,
  le_write_u16, input_msg, le_write_u64,
}
use tetris_multiplayer_rl.Common.{
  ltb, leb, ◌==◌, if◌then◌else◌, length, take, u16, ℕ, ◌-◌, Bool, true, false, not, ◌||◌, Option,
  none, some, List, [], ◌∷◌, ◌++◌,
}

pub data Role : Type 0 where
  host : Role
  peer : Role

unfoldable pub role_byte : Role → ℕ
role_byte host = 1
role_byte peer = 2

pub data GameOverChoice : Type 0 where
  none_chosen : GameOverChoice
  restart : GameOverChoice
  go_to_title : GameOverChoice

unfoldable pub choice_byte : GameOverChoice → ℕ
choice_byte none_chosen = 0
choice_byte restart = 1
choice_byte go_to_title = 2

pub record SeedParams : Type 0 where
  pub seed : ℕ
  pub start_tick : ℕ
  pub input_delay : ℕ
  pub role : Role

pub record MatchResult : Type 0 where
  pub elo_before : ℤ
  pub elo_after : ℤ
  pub delta : ℤ

pub record Session : Type 0 where
  pub quit : Bool
  pub connected : Bool
  pub listening : Bool
  pub ready : Bool
  pub connection_failed : Bool
  pub seed_params : SeedParams
  pub recv_buf : List ℕ
  pub send_q : List (List ℕ)
  pub remote_inputs : List (ℕ × ℕ)
  pub last_remote_tick : ℕ
  pub last_local_tick : ℕ
  pub last_hash_tick_remote : ℕ
  pub last_hash_remote : ℕ
  pub local_game_over_choice : ℕ
  pub remote_game_over_choice : ℕ
  pub last_pong_ms : ℕ
  pub last_ping_sent_ms : ℕ
  pub last_main_activity_ms : ℕ
  pub heartbeat_tick_end : ℕ
  pub last_heartbeat_ms : ℕ
  pub chat_q : List (List ℕ)
  pub match_result_valid : Bool
  pub match_result : MatchResult

pub data LinkStatus : Type 0 where
  ok : LinkStatus
  stalled : LinkStatus
  lost : LinkStatus

unfoldable pub link_status : ℕ → Session → LinkStatus
link_status now s =
    if s.connection_failed
    then lost
    else if not s.ready
    then ok
    else if s.last_pong_ms == 0
    then ok
    else if leb 10000 (now - s.last_pong_ms)
    then lost
    else if leb 2000 (now - s.last_pong_ms)
    then stalled
    else ok

abbrev pub k_max_send_queue : ℕ
k_max_send_queue = 4096

-- A full queue is a lost connection: no frame of a lockstep match may be dropped.
unfoldable pub push_send : List ℕ → Session → Session
push_send fr s =
    if leb k_max_send_queue (length s.send_q)
    then record s { connection_failed = true; quit = true }
    else record s { send_q = s.send_q ++ fr ∷ [] }

unfoldable pub input_payload : ℕ → ℕ → List ℕ
input_payload tick mask = le_write_u16 (le_write_u32 [] tick) 1 ++ mask ∷ []

unfoldable pub send_input : ℕ → ℕ → ℕ → Session → Session
unfolding push_send input_payload
send_input now tick mask s =
    let last = if ltb s.last_local_tick tick then tick else s.last_local_tick in
    push_send (build_frame input_msg (input_payload tick mask))
      (record s { last_main_activity_ms = now; last_local_tick = last })

unfoldable pub hash_payload : ℕ → ℕ → List ℕ
hash_payload tick h = le_write_u64 (le_write_u32 [] tick) h

unfoldable pub send_hash : ℕ → ℕ → Session → Session
unfolding push_send hash_payload
send_hash tick h s = push_send (build_frame hash_msg (hash_payload tick h)) s

unfoldable pub send_game_over_choice : GameOverChoice → Session → Session
unfolding push_send choice_byte
send_game_over_choice choice s =
    push_send (build_frame game_over_choice (choice_byte choice ∷ []))
      (record s { local_game_over_choice = choice_byte choice })

unfoldable pub seed_payload : SeedParams → List ℕ
unfolding role_byte
seed_payload p =
    le_write_u32 (le_write_u64 [] p.seed) p.start_tick ++ p.input_delay ∷ role_byte p.role ∷ []

unfoldable pub send_new_seed : ℕ → Session → Session
unfolding push_send seed_payload
send_new_seed new_seed s =
    let params = record s.seed_params { seed = new_seed } in
    push_send (build_frame seed_msg (seed_payload params)) (record s { seed_params = params })

abbrev pub k_max_chat : ℕ
k_max_chat = 1024

unfoldable pub send_chat : List ℕ → Session → Session
unfolding push_send
send_chat text s =
    let n = if ltb k_max_chat (length text) then k_max_chat else length text in
    push_send (build_frame chat (le_write_u16 [] (u16 n) ++ take n text)) s

unfoldable pub pull_chat : Session → Option (List ℕ × Session)
pull_chat s = elim s.chat_q [ [] ↦ none | text ∷ rest ↦ some (text, record s { chat_q = rest }) ]

unfoldable pub summary_payload : ℕ → ℕ → ℕ → ℕ → ℕ → ℕ → List ℕ
summary_payload won my_score my_lines opp_score opp_lines duration_s =
    let first : List ℕ = (if won == 0 then 0 else 1) ∷ [] in
    le_write_u32
      (le_write_u32 (le_write_u32 (le_write_u32 (le_write_u32 first my_score) my_lines) opp_score)
        opp_lines)
      duration_s

unfoldable pub send_match_summary : ℕ → ℕ → ℕ → ℕ → ℕ → ℕ → Session → Session
unfolding push_send summary_payload
send_match_summary won my_score my_lines opp_score opp_lines duration_s s =
    let payload = summary_payload won my_score my_lines opp_score opp_lines duration_s in
    push_send (build_frame match_summary payload) s

unfoldable pub get_match_result : Session → Option MatchResult
get_match_result s = if s.match_result_valid then some s.match_result else none

unfoldable pub get_remote_input : ℕ → Session → Option ℕ
get_remote_input tick s = find tick s.remote_inputs

-- The pair is given either way; the test says whether it is a hash at all.
unfoldable pub get_last_remote_hash : Session → Bool × ℕ × ℕ
get_last_remote_hash s =
    (not (s.last_hash_tick_remote == 0), s.last_hash_tick_remote, s.last_hash_remote)

unfoldable pub get_remote_game_over_choice : Session → Option ℕ
get_remote_game_over_choice s =
    if s.remote_game_over_choice == 0 then none else some s.remote_game_over_choice

abbrev pub no_result : MatchResult
no_result = record { elo_before = pos 0; elo_after = pos 0; delta = pos 0 }

unfoldable pub clear_game_over_choices : Session → Session
clear_game_over_choices s = record s {
  local_game_over_choice = 0;
  remote_game_over_choice = 0;
  match_result_valid = false;
  match_result = no_result;
}

-- A queued frame that `ClearInputs` keeps: its third byte is its type.
unfoldable pub is_kept : List ℕ → Bool
is_kept (a ∷ b ∷ type ∷ rest) = not ((type == input_msg) || (type == hash_msg))
is_kept fr = false

unfoldable pub keep_frames : List (List ℕ) → List (List ℕ)
unfolding is_kept
keep_frames [] = []
keep_frames (fr ∷ q) = let rest = keep_frames q in if is_kept fr then fr ∷ rest else rest

unfoldable pub clear_inputs : Session → Session
unfolding keep_frames
clear_inputs s = record s {
  remote_inputs = [];
  last_remote_tick = 0;
  last_local_tick = 0;
  send_q = keep_frames s.send_q;
  last_hash_tick_remote = 0;
  last_hash_remote = 0;
  last_main_activity_ms = 0;
  heartbeat_tick_end = 0;
  last_heartbeat_ms = 0;
}
