-- ===== src/Server/Matchmaker.antt =====
-- The random queue of server/matchmaker.h and server/matchmaker.cpp. What a waiting player's socket
-- gives when the matchmaker looks is a parameter.
pub mod Fifo
mod Tests
use tetris_multiplayer_rl.Common.Int.{ℤ}
use tetris_multiplayer_rl.Net.Framing.{queue_cancel, parse_frames, Frame}
use tetris_multiplayer_rl.Common.{
  ltb, ◌==◌, if◌then◌else◌, ◌>>=◌, length, u32, u64, ℕ, ◌+◌, ◌*◌, ◌/◌, ◌^◌, bit_xor, Bool, true,
  false, not, ◌||◌, Option, none, some, List, [], ◌∷◌, ◌++◌,
}

pub record PlayerInfo : Type 0 where
  pub conn_id : ℕ
  pub player_id : ℤ
  pub elo : ℤ
  pub selected_icon_id : List ℕ
  pub stream_buf : List ℕ

pub record Paired : Type 0 where
  pub a : PlayerInfo
  pub b : PlayerInfo
  pub seed : ℕ
  pub match_id : ℕ

pub record Matchmaker : Type 0 where
  pub waiting : List PlayerInfo
  pub seed_state : ℕ
  pub next_match_id : ℕ
  pub stopping : Bool

unfoldable pub next_seed : ℕ → ℕ
next_seed x =
    let x1 = bit_xor x (u64 (x * 2 ^ 13)) in
    let x2 = bit_xor x1 (x1 / 2 ^ 7) in bit_xor x2 (u64 (x2 * 2 ^ 17))

unfoldable pub enqueue : PlayerInfo → Matchmaker → Matchmaker
enqueue p m = record m { waiting = m.waiting ++ p ∷ [] }

unfoldable pub shutdown : Matchmaker → Matchmaker
shutdown m = if m.stopping then m else record m { stopping = true; waiting = [] }

unfoldable pub cancels : List Frame → Bool
cancels [] = false
cancels (f ∷ frames) = (f.type == queue_cancel) || cancels frames

-- No bytes at all is a closed socket.
module _ (received : PlayerInfo → Option (List ℕ)) where
  -- A player who left, sent what is no frame, or cancelled is `none`. The parser always returns.
  unfoldable pub still_active : PlayerInfo → Option PlayerInfo
  unfolding cancels
  still_active p = do
    bytes ← received p
    r ← parse_frames (p.stream_buf ++ bytes) []
    if not r.ok || cancels r.out then none else some (record p { stream_buf = r.stream_buf })

  -- The players at the front who are not there any more go.
  unfoldable pub drop_inactive : List PlayerInfo → List PlayerInfo
  unfolding still_active
  drop_inactive [] = []
  drop_inactive (p ∷ waiting) =
      let rest = drop_inactive waiting in
      elim (still_active p) [ none ↦ rest | some there ↦ there ∷ waiting ]

  -- A pass of `waitForPair`: a pair, or it waits on.
  unfoldable pub wait_for_pair : Matchmaker → Option Paired × Matchmaker
  unfolding drop_inactive next_seed
  wait_for_pair m =
      if m.stopping || ltb (length m.waiting) 2 then (none, m) else elim (drop_inactive m.waiting) [
        | [] ↦ (none, record m { waiting = [] })
        | a ∷ behind ↦ elim (drop_inactive behind) [
          | [] ↦ (none, record m { waiting = a ∷ [] })
          | b ∷ rest ↦ (
            some (record {
              a = a;
              b = b;
              seed = next_seed m.seed_state;
              match_id = m.next_match_id;
            }),
            record m {
              waiting = rest;
              seed_state = next_seed m.seed_state;
              next_match_id = u32 (m.next_match_id + 1);
            },
          )
        ]
      ]
