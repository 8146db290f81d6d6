-- ===== src/Lib.antt =====
-- Verification of the core of a multiplayer Tetris: the headless simulation that both peers of a
-- lockstep match run from the same seed and the same inputs, the frames that carry the inputs, and
-- the parts of the servers that keep state.
--
-- The program. core/ holds the random generator, the state hash and the input bits. src/sim_*.h and
-- src/sim_game.cpp are the simulation of one board, used by the client, the trainer's bindings and
-- the lockstep loop. net/ carries the inputs between the peers, server/ relays and pairs them, meta/
-- keeps accounts and levels. A peer calls `SubmitInput` and `Tick` once per frame on each board,
-- exchanges `StateHash` to detect divergence, and moves garbage between the boards.
--
-- The modules.
-- - Common: tests on numbers, lists over the native numbers, machine words as numbers with their
--   wrap-around written out, and the integers of Common/Int.
-- - Sim/Rng: core/rng.h. `next` is the xorshift64* step and `next_u_int` is `nextUInt`.
-- - Sim/Replay: core/replay.h and core/replay.cpp. `save` and `load` on the words of a replay file.
-- - Sim/Hash: core/hash.h, FNV-1a over 64 bits.
-- - Sim/Grid: src/sim_grid.h. The array of cells is the list of its rows. Grid/Shape has what keeps
--   its size, Grid/Clear is about `ClearFullRows`.
-- - Sim/Block: src/position.h, src/sim_block.h and the factories of src/sim_blocks.h. Block/Laws has
--   the moves and turns that undo each other.
-- - Sim/Game/State: the fields of `SimGame`, its constructor, the bag and the preview queue.
--   Game/Lock: `LockBlock` with scores, levels, attacks and garbage. Game/Moves: the frame-level
--   actions. Game/Placement: the placement-level actions. Game/Hashing: the state hash.
-- - Sim/Game/Fall, Garbage, Valid, Spawning, Locking, Safety, Steps, Faults, Placing, Start: the
--   proofs, named for what they are about. `IsValid` of Game/Valid is the invariant: the board has
--   20 rows, every block in play and in the queue has tiles for its rotation state, the bag and the
--   queue have the shape that the draws rely on. Sim/Game/Tests runs the code at concrete states.
-- - Net/Framing: net/framing.h and net/framing.cpp. `build_frame` and `parse_frames` on byte lists.
--   Framing/Stream says what the bytes at the front of a stream mean, Parse and Loop that the parser
--   follows it, Chunks, Limits, Skips, RoundTrip, Words and Corruption what comes of that, and Tests runs the code.
-- - Net/Session: net/session.h and net/session.cpp. Session has the state, the senders and the getters,
--   Session/Handle is `handleFrame`, Session/Io a round of `ioThread`, Session/Lifecycle `Host`,
--   `Connect`, `Close` and the end of `acceptThread`. Each function is one step on the state, as the
--   code holds a mutex or an atomic field for it. Grows, Handled, Rounds, Sending, Delivery, Lockstep,
--   Restart and Overflow are the proofs. Session/Matching has what the queue and the rooms share,
--   Session/Queue is `QueueJoin` and `queueThread`, Session/Rooms `RoomCreate`, `RoomJoin` and
--   `roomThread`; Session/Lobby is the lobby behind
--   MATCH_FOUND; Agreed is about the answers in it, Kept and Begun follow the frames of a game through it.
-- - Server/Relay: server/relay.cpp. Relay/Filter is the unranked direction of `forwarderLoop`,
--   Relay/Ranked the ranked one and a whole match as a list of steps, Relay/Result the cross-check,
--   the forfeit and the result. A step is a batch of bytes from one side or the stop of the last
--   direction, so a list of steps is one order in which the two threads may run. Relay/Looping, History,
--   Once and Winner are about the result; Summaries and Answers follow a summary from a session to the
--   relay and a result back, and so join Net/Session, Net/Framing and Server/Relay.
-- - Server/Lobby: the part of server/relay.cpp between a pair and its forwarders. `start_pump` of
--   Lobby/Pump is `startPump` and `startQueuePump` up to MATCH_FOUND, `lobby_rounds` the loop of
--   `queueLobbyThread`. Lobby/Hearing and Reading compare `consume_ready_frames` with the parser,
--   Accepted and Started are about the rounds, and Lobby/Found joins MATCH_FOUND with Net/Session.
-- - Server/Reactor: server/reactor_relay.cpp, where one thread serves all connections, for a pair that
--   forwards an unranked match. Reactor has what is sent and waits and how a pair is closed,
--   Reactor/Screening what is received and passed on, Reactor/Waiting a socket with room again and the
--   deadlines; `handle_all` is any order of the events of a pair. Sound, Sending, Draining, Forwarding
--   and Receiving are about what stays true, Frees about the deadlines.
-- - Server/Admission: server/ip_admission.h and server/player_session.h. Admission/Slots has the runs
--   of connections that ask for slots and go, Counted what holds of them, Leases the same for players.
-- - Server/Room: server/room.h and server/room.cpp. The entry of one room, and the steps that the
--   threads of its host and its guest take between the locks; `Reach` holds the rooms that they reach
--   in every order. Room/Single has the shapes of a room, Room/Starts the start of a match, Room/Reached
--   what holds of every room reached, Room/Asleep the wait of the starter. A notification from another
--   room, or a wake-up without one, is a step that may come at any time.
-- - Server/Matchmaker: server/matchmaker.h and server/matchmaker.cpp, the random queue.
--   `wait_for_pair` is a pass of `waitForPair` after its wait. Matchmaker/Fifo is about whom it pairs.
-- - Server/TimerQueue: server/timer_queue.h. `deadline` of TimerQueue/Deadlines is what the queue
--   stands for, a deadline for each token; Arm, Expired and Timeout are about the operations.
-- - Meta/Levels: meta/levels.h. Levels/Curve is about the level of a number of points.
--
-- Faults. What is undefined behaviour or an exception in the source (a write outside the array, `at`
-- on a missing key, `front` of an empty queue) is `none`. Integers that the source keeps in `int` and
-- that only grow by bounded amounts (scores, counters) are natural numbers; rows and columns are
-- signed; the generators and hashes wrap at 64 bits.
--
-- Fuel. The parser, the loops of the two relays and the one of the lobby have one round more than the buffer has bytes,
-- and a round takes six bytes or more. The drop loop has one round more than the board has rows:
-- from a place where the block stands that is enough, and from any other place the loop ends at
-- once. The loop that turns a block to a rotation state has one round more than there are states.
-- The loop of the level has a round for each level.
--
-- Not modelled: rendering, audio, sockets and threads, the SQLite store and the HTTP service of meta,
-- the event loop of server/reactor_relay.cpp before a match and for a ranked one, the training code in Python, and tests. They are input and output, or call
-- libraries whose code is not here. What the sockets of a session or of the relay receive, which send
-- gets through, the clock, and the answer of the meta server to a result are arguments. Of the loops
-- of server/relay.cpp the idle timeout and the byte rate are left out, which only end a direction; of a room its
-- code, the frames that are sent, and the shutdown of the server.
pub mod Common
pub mod Sim
pub mod Net
pub mod Server
pub mod Meta
