-- ===== src/Net/Session/Matching.antt =====
-- What the queue and the rooms of net/session.cpp share: the state that a session keeps before its
-- match, the strings of the payloads, and MATCH_FOUND.
use tetris_multiplayer_rl.Net.Session.Handle.{role_of}
use tetris_multiplayer_rl.Net.Session.{Session, role_byte}
use tetris_multiplayer_rl.Net.Framing.{match_found, le_read_u64, Frame, MsgType}
use tetris_multiplayer_rl.Common.{
  ltb, leb, ◌==◌, if◌then◌else◌, ◌>>=◌, length, get_elem?, take, drop, u8, ℕ, ◌+◌, Bool, ◌&&◌,
  Option, none, some, List, [], ◌∷◌,
}

abbrev pub queue_join_msg : MsgType
queue_join_msg = 10

abbrev pub room_create_msg : MsgType
room_create_msg = 13

abbrev pub room_join_msg : MsgType
room_join_msg = 14

abbrev pub room_leave_msg : MsgType
room_leave_msg = 16

-- The text "default".
abbrev pub default_icon : List ℕ
default_icon = 100 ∷ 101 ∷ 102 ∷ 97 ∷ 117 ∷ 108 ∷ 116 ∷ []

unfoldable pub or_default : List ℕ → List ℕ
or_default [] = default_icon
or_default (c ∷ icon) = c ∷ icon

-- A string with its length in a byte before it, cut where it is longer.
unfoldable pub short_string : List ℕ → List ℕ
short_string s = let n = if ltb 255 (length s) then 255 else length s in u8 n ∷ take n s

-- The string at `pos`, and the position behind it.
unfoldable pub read_short_string : List ℕ → ℕ → List ℕ × ℕ
read_short_string payload pos = elim (get_elem? payload pos) [
  | none ↦ ([], pos)
  | some n ↦
      if ltb (length payload) (pos + 1 + n)
      then ([], pos + 1)
      else (take n (drop (pos + 1) payload), pos + 1 + n)
]

-- The local icon and the remote one.
unfoldable pub parse_match_icons : List ℕ → List ℕ × List ℕ
unfolding read_short_string or_default
parse_match_icons payload =
    let mine = read_short_string payload 9 in
    let peer = read_short_string payload mine.1 in (or_default mine.0, or_default peer.0)

pub data RoomState : Type 0 where
  idle : RoomState
  connecting : RoomState
  waiting : RoomState
  waiting_with_peer : RoomState
  full : RoomState
  not_found : RoomState
  gone_full : RoomState
  starting : RoomState
  failed : RoomState

-- A session that looks for a match, with the fields that only this part uses.
pub record Seeker : Type 0 where
  pub session : Session
  pub local_icon_id : List ℕ
  pub remote_icon_id : List ℕ
  pub queue_matched : Bool
  pub queue_local_ready : Bool
  pub queue_peer_ready : Bool
  pub queue_send_q : List (List ℕ)
  pub room_state : RoomState
  pub room_peer_count : ℕ
  pub room_code : List ℕ
  pub room_send_q : List (List ℕ)

-- The seed, the role and the icons of a match that was found.
unfoldable pub take_match : ℕ → ℕ → List ℕ → Seeker → Option Seeker
unfolding parse_match_icons role_of
take_match start_tick input_delay payload s = do
  role_byte ← get_elem? payload 0
  seed ← le_read_u64 payload 1
  let icons = parse_match_icons payload
  some (record s {
    session = record s.session {
      seed_params = record {
        seed = seed;
        start_tick = start_tick;
        input_delay = input_delay;
        role = role_of role_byte;
      };
    };
    local_icon_id = icons.0;
    remote_icon_id = icons.1;
  })

unfoldable pub is_match_found : Frame → Bool
is_match_found f = (f.type == match_found) && leb 9 (length f.payload)
