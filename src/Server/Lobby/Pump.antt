-- ===== src/Server/Lobby/Pump.antt =====
-- How server/relay.cpp starts a match: MATCH_FOUND to both players, then the lobby or the forwarders.
use tetris_multiplayer_rl.Net.Framing.{le_write_u64, match_found, build_frame}
use tetris_multiplayer_rl.Server.Relay.Result.{Channel}
use tetris_multiplayer_rl.Net.Session.Matching.{or_default, short_string}
use tetris_multiplayer_rl.Server.Relay.Ranked.{from_b, from_a, Match, Step}
use tetris_multiplayer_rl.Server.Lobby.{goes_on, aborted, queue_lobby, lobby_rounds, Poll}
use tetris_multiplayer_rl.Server.Matchmaker.{Paired}
use tetris_multiplayer_rl.Net.Session.{peer, host, role_byte, Role}
use tetris_multiplayer_rl.Common.{
  if◌then◌else◌, ◌>>=◌, ℕ, Bool, false, not, ◌&&◌, ◌||◌, Option, none, some, List, [], ◌∷◌, ◌++◌,
}

-- The payload, with the icon of the player and of the other one.
unfoldable pub match_found_payload : Role → ℕ → List ℕ → List ℕ → List ℕ → List ℕ
unfolding role_byte short_string or_default
match_found_payload role seed my_icon peer_icon match_uuid =
    le_write_u64 (role_byte role ∷ []) seed
    ++ short_string (or_default my_icon)
    ++ short_string (or_default peer_icon)
    ++ short_string match_uuid

-- Whether it got through, and the frames sent to that player.
unfoldable pub send_match_found :
    (List (List ℕ) → List ℕ → Bool) → Role → ℕ → List ℕ → List ℕ → List ℕ → Bool × List (List ℕ)
unfolding match_found_payload
send_match_found sends role seed my_icon peer_icon match_uuid =
    let frame =
      build_frame match_found (match_found_payload role seed my_icon peer_icon match_uuid) in
    (sends [] frame, frame ∷ [])

-- What becomes of a pair: both sockets are closed, or the match goes on with the frames sent so far.
pub data Pump : Type 0 where
  closed : List (List ℕ) → List (List ℕ) → Pump
  pumped : List (List ℕ) → List (List ℕ) → Pump

module _ (sends_a sends_b : List (List ℕ) → List ℕ → Bool) where
  -- The start that both pumps share: the player who came first is the host.
  unfoldable pub start_pump : Bool → List ℕ → Paired → Pump
  unfolding send_match_found
  start_pump stopping match_uuid m =
      let ok_a =
        send_match_found sends_a host m.seed m.a.selected_icon_id m.b.selected_icon_id match_uuid in
      let ok_b =
        send_match_found sends_b peer m.seed m.b.selected_icon_id m.a.selected_icon_id match_uuid in
      if stopping
      then closed [] []
      else if not ok_a.0 || not ok_b.0
      then closed ok_a.1 ok_b.1
      else pumped ok_a.1 ok_b.1

-- The channel of the forwarders.
unfoldable pub channel_of : Bool → Paired → Channel
channel_of has_meta m = record {
  player_a_id = m.a.player_id;
  player_b_id = m.b.player_id;
  player_a_elo = m.a.elo;
  player_b_elo = m.b.elo;
  has_meta = has_meta;
  summary_a = none;
  summary_b = none;
  summary_handled = false;
}

-- The bytes read in the lobby are the first batch of a direction.
unfoldable pub prefix_steps : List ℕ → List ℕ → List Step
prefix_steps prefix_a prefix_b =
    (elim prefix_a [ [] ↦ [] | c ∷ more ↦ from_a (c ∷ more) ∷ [] ])
    ++ (elim prefix_b [ [] ↦ [] | c ∷ more ↦ from_b (c ∷ more) ∷ [] ])

-- A match whose frames to the players are these, and the batches that its directions begin with.
unfoldable pub start_forwarding_with_prefix :
    Bool → Paired → List (List ℕ) → List (List ℕ) → List ℕ → List ℕ → Match × List Step
unfolding channel_of prefix_steps
start_forwarding_with_prefix has_meta m sent_a sent_b prefix_a prefix_b = (
  record {
    ch = channel_of has_meta m;
    buf_a = [];
    buf_b = [];
    to_a = sent_a;
    to_b = sent_b;
    results = [];
  },
  prefix_steps prefix_a prefix_b,
)

-- The lobby of a pair starts with the bytes of the matchmaker, and the forwarders with what it
-- leaves. A lobby that goes on without both answers has run out of rounds.
module _ (sends_a sends_b : List (List ℕ) → List ℕ → Bool) where
  unfoldable pub queue_lobby_thread :
      Bool → List Poll → Paired → Option (Option (Match × List Step))
  unfolding start_forwarding_with_prefix
  queue_lobby_thread has_meta polls m =
      lobby_rounds sends_a sends_b polls (queue_lobby m.a.stream_buf m.b.stream_buf) >>= λ r.
      some (elim r [
        | aborted l ↦ none
        | goes_on l ↦
            if l.a.ready && l.b.ready
            then some (start_forwarding_with_prefix has_meta m l.a.sent l.b.sent l.a.buf l.b.buf)
            else none
      ])
