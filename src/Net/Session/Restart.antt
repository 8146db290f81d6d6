-- ===== src/Net/Session/Restart.antt =====
-- A restart in net/session.cpp: the new seed goes out, and the old round's inputs and hashes do not.
use tetris_multiplayer_rl.Net.Session.{Session}
use tetris_multiplayer_rl.Common.{get_elem?, ℕ, ◌≡◌, ◌≢◌, some, List}

-- A frame of three bytes or more whose type is neither INPUT nor HASH.
abbrev pub IsControl : List ℕ → Type 0
IsControl fr = (type : ℕ) × (get_elem? fr 2 ≡ some type) × (type ≢ 4) × (type ≢ 8)
