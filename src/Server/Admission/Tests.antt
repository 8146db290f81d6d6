-- ===== src/Server/Admission/Tests.antt =====
-- Runs of the slots of server/ip_admission.h and the leases of server/player_session.h.
use tetris_multiplayer_rl.Server.Admission.{handshake, session}
use tetris_multiplayer_rl.Server.Admission.Slots.{goes, started, asks, steps, Event}
use tetris_multiplayer_rl.Common.{length, ◌≡◌, refl, List, [], ◌∷◌}

-- With one session for each address: the second is refused until the first goes.
abbrev events : List Event
events = asks 7 session ∷ asks 7 session ∷ asks 7 handshake ∷ goes 1 ∷ asks 7 session ∷ []

two_live : length (steps 9 events (started 0)).live ≡ 2
unfolding steps started
two_live = refl
