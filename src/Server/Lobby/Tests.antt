-- ===== src/Server/Lobby/Tests.antt =====
-- Runs of the accept lobby of server/relay.cpp.
use tetris_multiplayer_rl.Common.Literals.{all_bytes_lem}
use tetris_multiplayer_rl.Server.Lobby.Found.{take_match-match_found_payload, cut, knows}
use tetris_multiplayer_rl.Net.Session.Tests.{a_seeker}
use tetris_multiplayer_rl.Net.Session.{host}
use tetris_multiplayer_rl.Server.Lobby.Pump.{match_found_payload}
use tetris_multiplayer_rl.Common.Returns.{Returns}
use tetris_multiplayer_rl.Net.Session.Matching.{or_default, take_match}
use tetris_multiplayer_rl.Server.Lobby.Started.{lobby_rounds-Outcome, Outcome, IsBytes}
use tetris_multiplayer_rl.Server.Lobby.{goes_on, aborted, queue_lobby, Poll, lobby_rounds}
use tetris_multiplayer_rl.Net.Framing.{fnv1a32, fnv1a32_step, le_read_u16, le_read_u32, checksum}
use tetris_multiplayer_rl.Common.{
  ◌==◌, length, All, IsByte, ℕ, ◌≡◌, refl, Bool, true, false, ◌&&◌, none, some, List, [], ◌∷◌,
  arith,
}

-- The bytes of READY(1).
abbrev agreement : List ℕ
agreement = 2 ∷ 0 ∷ 17 ∷ 1 ∷ 140 ∷ 91 ∷ 12 ∷ 4 ∷ []

agreement-IsByte : All IsByte agreement
agreement-IsByte = all_bytes_lem agreement refl

abbrev through : List (List ℕ) → List ℕ → Bool
through out pkt = true

-- Both agree, one of them a round later, and half a frame of the game comes behind.
abbrev polls : List Poll
polls =
    record { expired = false; stopping = false; from_a = some agreement; from_b = some [] }
    ∷ record { expired = false; stopping = false; from_a = some (1 ∷ []); from_b = some agreement }
    ∷ []

polls-IsBytes : All IsBytes polls
polls-IsBytes = ((agreement-IsByte, tt), (((omega arith, tt), agreement-IsByte), tt))

-- The forwarders would start with the byte that came early.
started_right : Bool
unfolding lobby_rounds
started_right = elim (lobby_rounds through through polls (queue_lobby [] [])) [
  | none ↦ false
  | some r ↦ elim r [
    | aborted l ↦ false
    | goes_on l ↦ l.a.ready && l.b.ready && (length l.a.buf == 1) && (length l.b.buf == 0)
  ]
]

started_right_lem : started_right ≡ true
unfolding started_right queue_lobby le_read_u16 le_read_u32 checksum fnv1a32 fnv1a32_step
started_right_lem = refl

lobby_rounds-Outcome_example :
    Returns (Outcome [] [] polls) (lobby_rounds through through polls (queue_lobby [] []))
lobby_rounds-Outcome_example =
    lobby_rounds-Outcome through through polls [] [] polls-IsBytes tt tt (omega arith) (omega arith)

take_match-match_found_payload_example :
    take_match 120 2 (match_found_payload host 7 (98 ∷ []) [] (49 ∷ [])) a_seeker
    ≡ some (knows 120 2 7 host (cut (or_default (98 ∷ [])), cut (or_default [])) a_seeker)
take_match-match_found_payload_example =
    take_match-match_found_payload host 7 (98 ∷ []) [] (49 ∷ []) 120 2 a_seeker (omega arith)
