-- ===== src/Net/Session/Kept.antt =====
-- The lobby of `queueThread` of net/session.cpp hands every frame of the game on to the thread that
-- plays it, in order, with the bytes of the frame that is not all there.
use tetris_multiplayer_rl.Net.Session.Agreed.{
  IsTold, own_answer, answers-append, lobby_frames-IsHeard, answers, Moves, IsNoRefusal,
}
use tetris_multiplayer_rl.Net.Session.Lobby.{
  begins, says_no, gives_up, lobby_frame, goes_on, Heard, hear_lobby, begin_game, LobbyEnd,
  lobby_frames,
}
use tetris_multiplayer_rl.Net.Framing.Skips.{
  Skips-more, Skips-trans, parse_frames-Skips, Parses-Skips, Skips-IsByte, Skips,
}
use tetris_multiplayer_rl.Net.Framing.Limits.{Parses-Limits}
use tetris_multiplayer_rl.Net.Framing.Chunks.{Parses-of}
use tetris_multiplayer_rl.Common.Returns.{if_both, Returns, Returns-some}
use tetris_multiplayer_rl.Net.Framing.RoundTrip.{IsFrame, written, parse_frames-written}
use tetris_multiplayer_rl.Net.Framing.{parse_frames, build_frame, Parsed, ready_msg, Frame}
use tetris_multiplayer_rl.Net.Session.Matching.{Seeker}
use tetris_multiplayer_rl.Common.{
  ◌==◌, if◌then◌else◌, Bool-cases, if_true, if_false, and_true, All, All-append, IsByte, ℕ, ◌≤◌,
  ◌≡◌, refl, sym, ap, ◌∙◌, inl, inr, true, false, ◌&&◌, some, List, [], ◌∷◌, ◌++◌, arith,
}
use mathlib.Core.Path.{subst}
use mathlib.Core.List.{Mem, append-nil, append_assoc}

-- The frames of a stream that are not answers of the lobby.
unfoldable pub game_frames : List Frame → List Frame
game_frames [] = []
game_frames (f ∷ frames) =
    if f.type == ready_msg then game_frames frames else f ∷ game_frames frames

game_frames-append :
    (xs ys : List Frame) → game_frames (xs ++ ys) ≡ game_frames xs ++ game_frames ys
unfolding game_frames
game_frames-append [] ys = refl
game_frames-append (f ∷ xs) ys = elim (Bool-cases (f.type == ready_msg)) [
  | inl e ↦ rw e (game_frames-append xs ys)
  | inr e ↦ rw e (ap (◌∷◌ f) (game_frames-append xs ys))
]

game_frames-IsFrame : (xs : List Frame) → All IsFrame xs → All IsFrame (game_frames xs)
unfolding game_frames
game_frames-IsFrame [] h = tt
game_frames-IsFrame (f ∷ xs) (v, h) =
    if_both (All IsFrame) (f.type == ready_msg) _ _ (λ _. game_frames-IsFrame xs h)
      (λ _. (v, game_frames-IsFrame xs h))

written-append : (xs ys : List Frame) → written (xs ++ ys) ≡ written xs ++ written ys
unfolding written
written-append [] ys = refl
written-append (f ∷ xs) ys =
    ap (λ x. build_frame f.type f.payload ++ x) (written-append xs ys)
    ∙ sym (append_assoc (build_frame f.type f.payload) (written xs) (written ys))

module _ (f : Frame) (h : Heard) where
  answer_keeps :
      (f.type == ready_msg) ≡ true
      → (lobby_frame f h).seeker.session.recv_buf ≡ h.seeker.session.recv_buf
  unfolding lobby_frame
  answer_keeps e =
      let P = λ (x : Heard). x.seeker.session.recv_buf ≡ h.seeker.session.recv_buf in
      if_both P (f.type == ready_msg) _ _
        (λ _. if_both P (says_no f.payload) _ _ (λ _. refl) (λ _. refl))
        (λ n. absurd (ground (arith, n, e)))

  game_frame_kept :
      (f.type == ready_msg) ≡ false
      → (lobby_frame f h).seeker.session.recv_buf
        ≡ h.seeker.session.recv_buf ++ build_frame f.type f.payload
  unfolding lobby_frame
  game_frame_kept e = ap (λ (x : Heard). x.seeker.session.recv_buf) (if_false _ _ e)

-- What the frames of the lobby leave in the buffer of the game.
lobby_frames-recv_buf :
    (frames : List Frame) (h : Heard)
    → (lobby_frames frames h).seeker.session.recv_buf
      ≡ h.seeker.session.recv_buf ++ written (game_frames frames)
unfolding lobby_frames game_frames written
lobby_frames-recv_buf [] h = sym (append-nil h.seeker.session.recv_buf)
lobby_frames-recv_buf (f ∷ frames) h =
    let rest = lobby_frames-recv_buf frames (lobby_frame f h) in
    let buf = h.seeker.session.recv_buf in
    let more = game_frames frames in
    elim (Bool-cases (f.type == ready_msg)) [
      | inl e ↦
          rest
          ∙ ap (λ b. b ++ written more) (answer_keeps f h e)
          ∙ ap (λ x. buf ++ written x) (sym (if_true more (f ∷ more) e))
      | inr e ↦
          rest
          ∙ ap (λ b. b ++ written more) (game_frame_kept f h e)
          ∙ append_assoc buf (build_frame f.type f.payload) (written more)
          ∙ ap (λ x. buf ++ written x) (sym (if_false more (f ∷ more) e))
    ]

-- The frames read so far, the game's of them in the buffer of the game, and no refusal among them.
pub record IsKept (got buf : List ℕ) (st : List (List ℕ) × Seeker) : Type 0 where
  pub frames : List Frame
  pub read : Skips got buf frames
  pub typed : All IsFrame frames
  pub kept : st.1.session.recv_buf ≡ written (game_frames frames)
  pub accepted : All IsNoRefusal frames
  pub other : st.1.queue_peer_ready ≡ true → 1 ≤ answers frames
  pub told : IsTold st

pub IsKept-Moves :
    (got buf : List ℕ) (st t : List (List ℕ) × Seeker)
    → Moves st t
    → IsKept got buf st
    → IsKept got buf t
IsKept-Moves got buf st t m k = record {
  frames = k.frames;
  read = k.read;
  typed = k.typed;
  kept = m.buffer ∙ k.kept;
  accepted = k.accepted;
  other = λ e. k.other (sym m.other ∙ e);
  told = m.told k.told;
}

-- A game that begins goes on where the lobby stopped reading, whatever comes in later: to the parser
-- the bytes it starts with are the game's frames of those read, and then what the lobby left. Among
-- those read is an answer of the other player, and none of them says no; and the player's own answer
-- was sent, or waits to be.
pub record IsBegun (got : List ℕ) (st : List (List ℕ) × Seeker) : Type 0 where
  pub frames : List Frame
  pub left : List ℕ
  pub read :
      (t : List ℕ) → All IsByte t → parse_frames (got ++ t) [] ≡ parse_frames (left ++ t) frames
  pub goes_on :
      (t : List ℕ)
      → All IsByte t
      → parse_frames (st.1.session.recv_buf ++ t) [] ≡ parse_frames (left ++ t) (game_frames frames)
  pub accepted : All IsNoRefusal frames
  pub answered : 1 ≤ answers frames
  pub told : Mem own_answer (st.0 ++ st.1.queue_send_q)

-- The bytes kept, with those that wait, become the game's.
IsBegun-begin_game :
    (now : ℕ) (got left : List ℕ) (sent : List (List ℕ)) (s : Seeker)
    → IsKept got left (sent, s)
    → All IsByte got
    → s.queue_local_ready ≡ true
    → s.queue_peer_ready ≡ true
    → IsBegun got (sent, begin_game now left s)
unfolding begin_game
IsBegun-begin_game now got left sent s k bytes mine other =
    let game = written (game_frames k.frames) in
    let rest = Skips-IsByte got left k.frames k.read bytes in
    record {
      frames = k.frames;
      left = left;
      read = λ t more. parse_frames-Skips got left k.frames k.read t bytes more;
      goes_on = λ t more.
          ap (λ x. parse_frames ((x ++ left) ++ t) []) k.kept
          ∙ ap (λ x. parse_frames x []) (append_assoc game left t)
          ∙ parse_frames-written (game_frames k.frames) (left ++ t) []
              (game_frames-IsFrame k.frames k.typed) (All-append IsByte left t rest more);
      accepted = k.accepted;
      answered = k.other other;
      told = k.told mine;
    }

unfoldable pub KeptEnd : List ℕ → List (List ℕ) × LobbyEnd → Type 0
KeptEnd got (sent, goes_on buf s) = IsKept got buf (sent, s)
KeptEnd got (sent, gives_up s) = Unit
KeptEnd got (sent, begins s) = IsBegun got (sent, s)

module _ (got buf bytes : List ℕ) (sent : List (List ℕ)) (s : Seeker) where
  -- The frames of a batch that nobody refused are kept.
  batch-IsKept :
      (r : Parsed)
      → IsKept got buf (sent, s)
      → Skips (buf ++ bytes) r.stream_buf r.out
      → All IsFrame r.out
      → let h = lobby_frames r.out (record { seeker = s; peer_declined = false }) in
        h.peer_declined ≡ false → IsKept (got ++ bytes) r.stream_buf (sent, h.seeker)
  batch-IsKept r k skipped typed good =
      let start : Heard = record { seeker = s; peer_declined = false } in
      let heard = lobby_frames-IsHeard r.out start in
      let sum = answers-append k.frames r.out in
      record {
        frames = k.frames ++ r.out;
        read =
            Skips-trans (got ++ bytes) (buf ++ bytes) r.stream_buf k.frames r.out
              (Skips-more got buf k.frames bytes k.read) skipped;
        typed = All-append IsFrame k.frames r.out k.typed typed;
        kept =
            lobby_frames-recv_buf r.out start
            ∙ ap (λ b. b ++ written (game_frames r.out)) k.kept
            ∙ sym (
                ap written (game_frames-append k.frames r.out)
                ∙ written-append (game_frames k.frames) (game_frames r.out));
        accepted = All-append IsNoRefusal k.frames r.out k.accepted (heard.accepted good).1;
        other = λ e. elim (heard.other e) [
          | inl before ↦ let one = k.other before in omega (arith, one, sum)
          | inr here ↦ omega (arith, here, sum)
        ];
        told = λ e.
            subst (λ q. Mem own_answer (sent ++ q)) (sym heard.queued)
              (k.told (sym heard.mine ∙ e));
      }

  pub hear_lobby-KeptEnd :
      (now : ℕ)
      → IsKept got buf (sent, s)
      → All IsByte got
      → All IsByte bytes
      → (p : Parsed) → parse_frames (buf ++ bytes) [] ≡ some p
      → p.ok ≡ true
      → Returns (λ e. KeptEnd (got ++ bytes) (sent, e)) (hear_lobby now bytes buf s)
  unfolding hear_lobby KeptEnd
  hear_lobby-KeptEnd now k got_bytes more_bytes r read ok =
      let all = All-append IsByte got bytes got_bytes more_bytes in
      let fresh =
        All-append IsByte buf bytes (Skips-IsByte got buf k.frames k.read got_bytes) more_bytes in
      let p = Parses-of (buf ++ bytes) [] r fresh read in
      let (frames, same, skipped) = Parses-Skips (buf ++ bytes) [] r p ok in
      let l = Parses-Limits (buf ++ bytes) [] r p fresh in
      let h = lobby_frames r.out (record { seeker = s; peer_declined = false }) in
      let typed = subst (All IsFrame) (sym l.added) l.within in
      let skips = subst (λ x. Skips (buf ++ bytes) r.stream_buf x) (sym same) skipped in
      let P = λ (e : LobbyEnd). KeptEnd (got ++ bytes) (sent, e) in
      Returns-some P (parse_frames (buf ++ bytes) []) _ r read (
        _,
        refl,
        if_both P h.peer_declined _ _ (λ _. tt)
            (λ good.
              let v = batch-IsKept r k skips typed good in
              if_both P (h.seeker.queue_local_ready && h.seeker.queue_peer_ready) _ _
                (λ both.
                  let (local, other) = and_true both in
                  IsBegun-begin_game now (got ++ bytes) r.stream_buf sent h.seeker v all local
                    other)
                (λ _. v)),
      )
