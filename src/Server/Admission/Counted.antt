-- ===== src/Server/Admission/Counted.antt =====
-- Every step of server/ip_admission.h keeps the counters right and the limits.
use tetris_multiplayer_rl.Common.Assoc.{insert, erase}
use tetris_multiplayer_rl.Server.Admission.{Admission}
use tetris_multiplayer_rl.Common.{◌==◌, if◌then◌else◌, ℕ, ◌-◌, List}

-- What `release` makes of a counter.
abbrev pub one_less : ℕ → ℕ
one_less n = n - 1

abbrev lowered : ℕ → ℕ → List (ℕ × ℕ) → List (ℕ × ℕ)
lowered key left t = if left == 0 then erase key t else insert key left t
