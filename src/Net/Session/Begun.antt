-- ===== src/Net/Session/Begun.antt =====
-- The lobby of `queueThread` of net/session.cpp over its rounds, to the start of the game.
use tetris_multiplayer_rl.Net.Session.Agreed.{choose_all-Moves, Moves-trans, drain_answers-Moves}
use tetris_multiplayer_rl.Net.Session.Queue.{choose_all}
use tetris_multiplayer_rl.Net.Session.Lobby.{
  hear_lobby, begins, gives_up, drain_answers, goes_on, LobbyEnd, LobbyRound, queue_round,
  read_lobby, queue_rounds,
}
use tetris_multiplayer_rl.Net.Framing.RoundTrip.{written}
use tetris_multiplayer_rl.Net.Framing.Loop.{parse_frames-Parses}
use tetris_multiplayer_rl.Net.Framing.Chunks.{parse_frames_of, parse_frames-append}
use tetris_multiplayer_rl.Common.Returns.{Returns-bind, Returns, if_both, Returns-end}
use tetris_multiplayer_rl.Net.Session.Matching.{Seeker, waiting}
use tetris_multiplayer_rl.Net.Session.Kept.{
  hear_lobby-KeptEnd, IsKept, KeptEnd, game_frames, IsKept-Moves,
}
use tetris_multiplayer_rl.Net.Framing.Skips.{Skips-IsByte, Skips, Skips-none}
use tetris_multiplayer_rl.Net.Framing.Stream.{consumed, broken, waiting, Parses}
use tetris_multiplayer_rl.Net.Framing.{parse_frames, Parsed, Frame}
use tetris_multiplayer_rl.Common.{
  Bool-cases, if_false, drop, All, All-append, All-append_split, IsByte, ℕ, ◌≡◌, refl, sym, ap, ◌∙◌,
  inl, inr, Bool, true, false, Option, none, some, List, [], ◌∷◌, ◌++◌, arith,
}
use mathlib.Core.Path.{subst}
use mathlib.Core.List.{append-nil, append_assoc}

-- A front of a stream that is refused nowhere is not refused.
front_ok :
    (s more : List ℕ) (r p : Parsed)
    → All IsByte s
    → All IsByte more
    → parse_frames s [] ≡ some r
    → parse_frames (s ++ more) [] ≡ some p
    → p.ok ≡ true
    → r.ok ≡ true
front_ok s more r p h k e f ok = elim (Bool-cases r.ok) [
  | inl good ↦ good
  | inr bad_one ↦
      let refused = parse_frames-append s more [] r h k e ∙ if_false _ _ bad_one in
      let same =
        ap (λ (o : Option Parsed). elim o [ none ↦ true | some x ↦ x.ok ]) (sym refused ∙ f) in
      same ∙ ok
]

-- The frames there were before play no part in what a stream gives.
Parses-behind :
    (s : List ℕ) (out before : List Frame) (r : Parsed)
    → Parses s out r
    → Parses s (before ++ out) (record r { out = before ++ r.out })
Parses-behind s out before r (waiting _ _ e) = waiting s (before ++ out) e
Parses-behind s out before r (broken _ _ e) = broken s (before ++ out) e
Parses-behind s out before r (consumed _ _ need frames _ e p) =
    consumed s (before ++ out) need frames (record r { out = before ++ r.out }) e
      (subst (λ x. Parses (drop need s) x (record r { out = before ++ r.out }))
        (sym (append_assoc before out frames))
        (Parses-behind (drop need s) (out ++ frames) before r p))

-- What is left of a stream is refused where the stream is.
rest_ok :
    (got buf : List ℕ) (frames : List Frame) (more : List ℕ) (p : Parsed)
    → Skips got buf frames
    → All IsByte got
    → All IsByte more
    → parse_frames (got ++ more) [] ≡ some p
    → p.ok ≡ true
    → Returns (λ (r : Parsed). r.ok ≡ true) (parse_frames (buf ++ more) [])
rest_ok got buf frames more p g bytes more_bytes e ok =
    let all = All-append IsByte got more bytes more_bytes in
    let left = All-append IsByte buf more (Skips-IsByte got buf frames g bytes) more_bytes in
    let (r, read, q) = parse_frames-Parses (buf ++ more) [] left in
    let whole : Parsed = record r { out = frames ++ r.out } in
    let behind = Parses-behind (buf ++ more) [] frames r q in
    let joined =
      g.parsed more [] whole
        (subst (λ x. Parses (buf ++ more) x whole) (append-nil frames) behind) in
    let same = sym (parse_frames_of (got ++ more) [] whole all joined) ∙ e in
    (r, read, ap (λ (o : Option Parsed). elim o [ none ↦ true | some x ↦ x.ok ]) same ∙ ok)

-- What came in over the rounds.
unfoldable pub bytes_of : Option (List ℕ) → List ℕ
bytes_of none = []
bytes_of (some bytes) = bytes

unfoldable pub received : List LobbyRound → List ℕ
unfolding bytes_of
received [] = []
received (round ∷ rounds) = bytes_of round.received ++ received rounds

-- The lobby has run some of the rounds.
unfoldable pub Lobbied : List ℕ → List LobbyRound → List (List ℕ) × LobbyEnd → Type 0
Lobbied got rounds e =
    (used : List LobbyRound) × (rest : List LobbyRound) × (rounds ≡ used ++ rest)
    × KeptEnd (got ++ received used) e

Lobbied-one :
    (got : List ℕ) (round : LobbyRound) (rounds : List LobbyRound)
    → (e : List (List ℕ) × LobbyEnd) → KeptEnd (got ++ bytes_of round.received) e
    → Lobbied got (round ∷ rounds) e
unfolding Lobbied received
Lobbied-one got round rounds e k = (
  round ∷ [],
  rounds,
  refl,
  subst (λ x. KeptEnd (got ++ x) e) (sym (append-nil (bytes_of round.received))) k,
)

Lobbied-later :
    (got : List ℕ) (round : LobbyRound) (rounds : List LobbyRound)
    → (e : List (List ℕ) × LobbyEnd) → Lobbied (got ++ bytes_of round.received) rounds e
    → Lobbied got (round ∷ rounds) e
unfolding Lobbied received
Lobbied-later got round rounds e (used, rest, same, k) = (
  round ∷ used,
  rest,
  ap (◌∷◌ round) same,
  subst (λ x. KeptEnd x e) (append_assoc got (bytes_of round.received) (received used)) k,
)

module _ (sends : List (List ℕ) → List ℕ → Bool) where
  read_lobby-KeptEnd :
      (round : LobbyRound) (o : Option (List ℕ)) (got buf : List ℕ)
      → (st : List (List ℕ) × Seeker) → IsKept got buf st
      → All IsByte got
      → All IsByte (bytes_of o)
      → (p : Parsed) → parse_frames (buf ++ bytes_of o) [] ≡ some p
      → p.ok ≡ true
      → Returns (KeptEnd (got ++ bytes_of o)) (read_lobby sends round o buf st)
  unfolding read_lobby bytes_of KeptEnd
  read_lobby-KeptEnd round none got buf st k h here p e ok = (_, refl, tt)
  read_lobby-KeptEnd round (some bytes) got buf st k h here p e ok =
      let last = choose_all round.later st in
      let kept = IsKept-Moves got buf st last (choose_all-Moves round.later st) k in
      Returns-end (KeptEnd (got ++ bytes)) (λ (x : LobbyEnd). KeptEnd (got ++ bytes) (last.0, x))
        (hear_lobby round.now bytes buf last.1) (λ x. (last.0, x))
        (hear_lobby-KeptEnd got buf bytes last.0 last.1 round.now kept h here p e ok) (λ x v. v)

  queue_round-KeptEnd :
      (round : LobbyRound) (got buf : List ℕ) (st : List (List ℕ) × Seeker)
      → IsKept got buf st
      → All IsByte got
      → All IsByte (bytes_of round.received)
      → (p : Parsed) → parse_frames (buf ++ bytes_of round.received) [] ≡ some p
      → p.ok ≡ true
      → Returns (KeptEnd (got ++ bytes_of round.received)) (queue_round sends round buf st)
  unfolding queue_round KeptEnd
  queue_round-KeptEnd round got buf st k h here p e ok =
      let start = choose_all round.before st in
      let drained = drain_answers sends start.1.queue_send_q start.0 start.1 in
      let out = choose_all round.drained drained in
      let moves = Moves-trans st start out (choose_all-Moves round.before st) (
        Moves-trans start drained out (drain_answers-Moves sends start)
          (choose_all-Moves round.drained drained)) in
      let P = Returns (KeptEnd (got ++ bytes_of round.received)) in
      if_both P start.1.session.quit _ _ (λ _. (_, refl, tt))
        (λ _.
          if_both P round.expired _ _ (λ _. (_, refl, tt))
            (λ _.
              if_both P out.1.session.quit _ _ (λ _. (_, refl, tt))
                (λ _.
                  read_lobby-KeptEnd round round.received got buf out
                    (IsKept-Moves got buf st out moves k) h here p e ok)))

  next_round :
      (got : List ℕ) (round : LobbyRound) (rounds : List LobbyRound)
      → ((b : List ℕ) (t : List (List ℕ) × Seeker)
          → IsKept (got ++ bytes_of round.received) b t
          → Returns
              (Lobbied (got ++ bytes_of round.received) rounds)
              (queue_rounds sends rounds b t))
      → (e : List (List ℕ) × LobbyEnd) → KeptEnd (got ++ bytes_of round.received) e
      → Returns (Lobbied got (round ∷ rounds)) (elim e.1 [
        | goes_on b s ↦ queue_rounds sends rounds b (e.0, s)
        | gives_up s ↦ some (e.0, gives_up s)
        | begins s ↦ some (e.0, begins s)
      ])
  unfolding KeptEnd
  next_round got round rounds g (sent, goes_on b s) k =
      let (e, same, l) = g b (sent, s) k in (e, same, Lobbied-later got round rounds e l)
  next_round got round rounds g (sent, gives_up s) k =
      ((sent, gives_up s), refl, Lobbied-one got round rounds (sent, gives_up s) k)
  next_round got round rounds g (sent, begins s) k =
      ((sent, begins s), refl, Lobbied-one got round rounds (sent, begins s) k)

  queue_rounds-Lobbied :
      (rounds : List LobbyRound) (got buf : List ℕ) (st : List (List ℕ) × Seeker) (p : Parsed)
      → IsKept got buf st
      → All IsByte got
      → All IsByte (received rounds)
      → parse_frames (got ++ received rounds) [] ≡ some p
      → p.ok ≡ true
      → Returns (Lobbied got rounds) (queue_rounds sends rounds buf st)
  unfolding queue_rounds Lobbied received KeptEnd
  queue_rounds-Lobbied [] got buf st p k h more e ok = (
    (st.0, goes_on buf st.1),
    refl,
    ([], [], refl, subst (λ x. IsKept x buf st) (sym (append-nil got)) k),
  )
  queue_rounds-Lobbied (round ∷ rounds) got buf st p k h more e ok =
      let bytes = bytes_of round.received in
      let (here, later) = All-append_split IsByte bytes (received rounds) more in
      let all = All-append IsByte got bytes h here in
      let whole = ap (λ x. parse_frames x []) (append_assoc got bytes (received rounds)) ∙ e in
      let (r, read, q) = parse_frames-Parses (got ++ bytes) [] all in
      let good = front_ok (got ++ bytes) (received rounds) r p all later read whole ok in
      let (x, left, fine) = rest_ok got buf k.frames bytes r k.read h here read good in
      Returns-bind (Lobbied got (round ∷ rounds)) (KeptEnd (got ++ bytes))
        (queue_round sends round buf st) _
        (queue_round-KeptEnd round got buf st k h here x left fine)
        (next_round got round rounds
          (λ b t w. queue_rounds-Lobbied rounds (got ++ bytes) b t p w all later whole ok))

  -- From an empty buffer of the game, where neither player has answered and the parser refuses nothing
  -- of the bytes that wait and come in, the rounds of the lobby always have an end, whatever the
  -- player chooses and when, and whichever send fails. Where a game begins, the frames read hold an
  -- answer of the other player and none that says no, and READY(1) was sent or waits to be; and the
  -- game begins on its frames among those read, in order, and the bytes behind them.
  pub queue_rounds-Kept :
      (rounds : List LobbyRound) (buf : List ℕ) (sent : List (List ℕ)) (s : Seeker) (p : Parsed)
      → s.session.recv_buf ≡ []
      → s.queue_local_ready ≡ false
      → s.queue_peer_ready ≡ false
      → All IsByte buf
      → All IsByte (received rounds)
      → parse_frames (buf ++ received rounds) [] ≡ some p
      → p.ok ≡ true
      → Returns (Lobbied buf rounds) (queue_rounds sends rounds buf (sent, s))
  unfolding written game_frames
  queue_rounds-Kept rounds buf sent s p empty mine other h more e ok =
      let k : IsKept buf buf (sent, s) = record {
        frames = [];
        read = Skips-none buf;
        typed = tt;
        kept = empty;
        accepted = tt;
        other = λ on. absurd (ground (arith, on, other));
        told = λ on. absurd (ground (arith, on, mine));
      } in
      queue_rounds-Lobbied rounds buf buf (sent, s) p k h more e ok
