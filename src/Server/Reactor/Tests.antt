-- ===== src/Server/Reactor/Tests.antt =====
-- Runs of the events of a pair of server/reactor_relay.cpp.
use tetris_multiplayer_rl.Net.Framing.{is_server_only_type, le_read_u16}
use tetris_multiplayer_rl.Server.Reactor.Frees.{on_timeout-IsOver, IsOver}
use tetris_multiplayer_rl.Server.Reactor.Receiving.{handle_all-IsSound}
use tetris_multiplayer_rl.Server.Reactor.Waiting.{on_timeout, on_writable}
use tetris_multiplayer_rl.Server.Reactor.Screening.{writable, readable, LoopEvent, handle_all}
use tetris_multiplayer_rl.Common.Returns.{Returns}
use tetris_multiplayer_rl.Server.Reactor.{k_idle_timeout, Conn, Pair}
use tetris_multiplayer_rl.Server.Reactor.Sound.{IsSound, IsWithin}
use tetris_multiplayer_rl.Common.{
  ℕ, ◌≡◌, refl, inl, inr, Bool, true, false, Option, none, some, List, [], ◌∷◌, arith,
}

abbrev fresh : Conn
fresh = record {
  alive = true;
  rx = [];
  tx = [];
  want_write = false;
  read_paused = false;
  last_activity = 0;
  byte_window_start = 0;
  byte_window = 0;
  rate_grace_until = 0;
  deadline = some k_idle_timeout;
}

abbrev two : Pair
two = record {
  me = fresh;
  peer = fresh;
  tx_total = 9;
  tx_peak = 9;
  tx_budget = 1000;
  reject_tx_budget = 0;
}

fresh-IsWithin : IsWithin fresh
fresh-IsWithin = record {
  cap = omega arith;
  armed = inl refl;
  dead = inl refl;
  received = inr (omega arith);
  timed = inr (_, refl);
}

two-IsSound : IsSound 9 two
two-IsSound = record {
  counted = refl;
  me_within = fresh-IsWithin;
  peer_within = fresh-IsWithin;
  me_paused = inl (inr refl);
  peer_paused = inl (inr refl);
}

-- A frame of the client, one that only a server may send, and the start of a third.
abbrev received_bytes : List ℕ
received_bytes = 1 ∷ 0 ∷ 3 ∷ 0 ∷ 0 ∷ 0 ∷ 0 ∷ 1 ∷ 0 ∷ 21 ∷ 0 ∷ 0 ∷ 0 ∷ 0 ∷ 1 ∷ 0 ∷ []

-- The socket takes two bytes of the first frame, and one later; then the two idle.
abbrev events : List (ℕ × Bool × LoopEvent)
events =
    (1, true, readable (some received_bytes) ((some 2, none) ∷ []))
    ∷ (2, false, writable (some 1))
    ∷ []

waiting : Option Pair → List ℕ
waiting none = []
waiting (some w) = w.peer.tx

-- The second frame is left out, and four bytes wait.
frame_waits : waiting (handle_all events two) ≡ 0 ∷ 0 ∷ 0 ∷ 0 ∷ []
unfolding waiting handle_all le_read_u16 is_server_only_type on_writable
frame_waits = refl

handle_all-IsSound_example : Returns (IsSound 9) (handle_all events two)
handle_all-IsSound_example = handle_all-IsSound 9 events two two-IsSound

on_timeout-IsOver_example : IsOver 9 (on_timeout k_idle_timeout two)
on_timeout-IsOver_example = on_timeout-IsOver 9 k_idle_timeout two two-IsSound refl (inl refl)
