-- ===== src/Server/Matchmaker/Tests.antt =====
-- Runs of the queue of server/matchmaker.cpp.
use tetris_multiplayer_rl.Common.Int.{pos}
use tetris_multiplayer_rl.Net.Framing.{
  checksum, le_read_u32, le_read_u16, read_frame, parse_loop, parse_frames,
}
use tetris_multiplayer_rl.Server.Matchmaker.Fifo.{wait_for_pair-first, HasLeft}
use tetris_multiplayer_rl.Server.Matchmaker.{
  next_seed, cancels, still_active, drop_inactive, PlayerInfo, wait_for_pair, Matchmaker,
}
use tetris_multiplayer_rl.Common.{
  ◌==◌, if◌then◌else◌, All, ℕ, ◌≡◌, refl, ◌⊎◌, false, Option, none, some, List, [], ◌∷◌, ◌++◌,
  arith,
}

abbrev player : ℕ → PlayerInfo
player n = record {
  conn_id = n;
  player_id = pos 0;
  elo = pos 1000;
  selected_icon_id = [];
  stream_buf = [];
}

-- Player 1 has closed its socket, and player 3 cancels.
abbrev sockets : PlayerInfo → Option (List ℕ)
sockets p =
    if p.conn_id == 1
    then none
    else if p.conn_id == 3
    then some (1 ∷ 0 ∷ 11 ∷ 0 ∷ 0 ∷ 0 ∷ 0 ∷ [])
    else some (1 ∷ 0 ∷ [])

abbrev queue : Matchmaker
queue = record {
  waiting = player 1 ∷ player 2 ∷ player 3 ∷ player 4 ∷ player 5 ∷ [];
  seed_state = 5;
  next_match_id = 8;
  stopping = false;
}

-- Players 2 and 4 are paired, each with the bytes that came in, and player 5 waits on.
two_and_four : wait_for_pair sockets queue ≡ (
  some (record {
    a = record {
      conn_id = 2;
      player_id = pos 0;
      elo = pos 1000;
      selected_icon_id = [];
      stream_buf = 1 ∷ 0 ∷ [];
    };
    b = record {
      conn_id = 4;
      player_id = pos 0;
      elo = pos 1000;
      selected_icon_id = [];
      stream_buf = 1 ∷ 0 ∷ [];
    };
    seed = next_seed 5;
    match_id = 8;
  }),
  record { waiting = player 5 ∷ []; seed_state = next_seed 5; next_match_id = 9; stopping = false },
)
unfolding wait_for_pair drop_inactive still_active cancels parse_frames parse_loop read_frame
    le_read_u16 le_read_u32 checksum
two_and_four = refl

wait_for_pair-first_example :
    ((xs : List PlayerInfo) × (p : PlayerInfo) × (ys : List PlayerInfo) × (q : PlayerInfo)
      × (rest : List PlayerInfo) × (a : PlayerInfo) × (b : PlayerInfo) × (queue.waiting
          ≡ xs ++ p ∷ (ys ++ q ∷ rest))
      × All (HasLeft sockets) xs
      × All (HasLeft sockets) ys
      × (still_active sockets p ≡ some a)
      × (still_active sockets q ≡ some b)
      × ((wait_for_pair sockets queue).0
          ≡ some (record { a = a; b = b; seed = next_seed 5; match_id = 8 }))
      × ((wait_for_pair sockets queue).1.waiting ≡ rest))
    ⊎ ((xs : List PlayerInfo) × (p : PlayerInfo) × (ys : List PlayerInfo) × (a : PlayerInfo)
        × (queue.waiting ≡ xs ++ p ∷ ys)
        × All (HasLeft sockets) xs
        × All (HasLeft sockets) ys
        × (still_active sockets p ≡ some a)
        × ((wait_for_pair sockets queue) ≡ (none, record queue { waiting = a ∷ [] })))
    ⊎ (All (HasLeft sockets) queue.waiting
        × ((wait_for_pair sockets queue) ≡ (none, record queue { waiting = [] })))
wait_for_pair-first_example = wait_for_pair-first sockets queue refl (omega arith)
