-- ===== src/Server/Lobby/Started.antt =====
-- The accept lobby of server/relay.cpp as a whole: when the forwarders start, and with which bytes.
use tetris_multiplayer_rl.Net.Framing.Skips.{parse_frames-Skips, Skips-none}
use tetris_multiplayer_rl.Net.Framing.{parse_frames, Frame}
use tetris_multiplayer_rl.Server.Lobby.Hearing.{says}
use tetris_multiplayer_rl.Common.Returns.{if_both, Returns}
use tetris_multiplayer_rl.Server.Lobby.Accepted.{
  lobby_round-Goes, Returns-Goes, IsLobby, bytes_of, Said,
}
use tetris_multiplayer_rl.Server.Lobby.{
  lobby_round, aborted, goes_on, Lobby, Round, lobby_rounds, Poll, accepted, ready_frame,
  queue_lobby, k_max_lobby_buf_bytes,
}
use tetris_multiplayer_rl.Common.{
  Bool-cases, and_true, length, All, All-append, IsByte, ℕ, ◌≤◌, ◌≡◌, refl, ap, ◌⊎◌, inl, inr, Bool,
  true, false, ◌&&◌, List, [], ◌∷◌, ◌++◌, arith,
}
use mathlib.Core.Path.{subst}
use mathlib.Core.List.{append-nil, append_assoc}

-- What a player's socket gave in these rounds.
unfoldable pub received_a : List Poll → List ℕ
received_a [] = []
received_a (p ∷ polls) = bytes_of p.from_a ++ received_a polls

unfoldable pub received_b : List Poll → List ℕ
received_b [] = []
received_b (p ∷ polls) = bytes_of p.from_b ++ received_b polls

abbrev pub IsBytes : Poll → Type 0
IsBytes p = All IsByte (bytes_of p.from_a) × All IsByte (bytes_of p.from_b)

-- A lobby that goes on has run some of the rounds, and has both answers or run all of them.
unfoldable pub Ends : List ℕ → List ℕ → List Poll → Round → Type 0
Ends in_a in_b polls (goes_on l) =
    (used : List Poll) × (rest : List Poll) × (polls ≡ used ++ rest)
    × IsLobby (in_a ++ received_a used) (in_b ++ received_b used) l
    × (((l.a.ready && l.b.ready) ≡ true) ⊎ (rest ≡ []))
Ends in_a in_b polls (aborted l) = Unit

Ends-later :
    (in_a in_b : List ℕ) (p : Poll) (polls : List Poll) (r : Round)
    → Ends (in_a ++ bytes_of p.from_a) (in_b ++ bytes_of p.from_b) polls r
    → Ends in_a in_b (p ∷ polls) r
unfolding Ends received_a received_b
Ends-later in_a in_b p polls (goes_on l) (used, rest, e, v, w) =
    let v1 =
      subst (λ x. IsLobby x ((in_b ++ bytes_of p.from_b) ++ received_b used) l)
        (append_assoc in_a (bytes_of p.from_a) (received_a used)) v in
    let v2 =
      subst (λ x. IsLobby (in_a ++ (bytes_of p.from_a ++ received_a used)) x l)
        (append_assoc in_b (bytes_of p.from_b) (received_b used)) v1 in
    (p ∷ used, rest, ap (◌∷◌ p) e, v2, w)
Ends-later in_a in_b p polls (aborted l) e = tt

module _ (sends_a sends_b : List (List ℕ) → List ℕ → Bool) where
  pub lobby_rounds-Ends :
      (polls : List Poll) (l : Lobby) (in_a in_b : List ℕ)
      → All IsBytes polls
      → All IsByte in_a
      → All IsByte in_b
      → IsLobby in_a in_b l
      → Returns (Ends in_a in_b polls) (lobby_rounds sends_a sends_b polls l)
  unfolding lobby_rounds Ends received_a received_b
  lobby_rounds-Ends [] l in_a in_b h bytes_a bytes_b v =
      (goes_on l, refl, ([], [], refl, rw (append-nil in_a, append-nil in_b) v, inr refl))
  lobby_rounds-Ends (p ∷ polls) l in_a in_b (here, later) bytes_a bytes_b v =
      let P = Returns (Ends in_a in_b (p ∷ polls)) in
      let next_a = in_a ++ bytes_of p.from_a in
      let next_b = in_b ++ bytes_of p.from_b in
      let all_a = All-append IsByte in_a (bytes_of p.from_a) bytes_a here.0 in
      let all_b = All-append IsByte in_b (bytes_of p.from_b) bytes_b here.1 in
      if_both P (l.a.ready && l.b.ready) _ _
        (λ both. (
          goes_on l,
          refl,
          ([], p ∷ polls, refl, rw (append-nil in_a, append-nil in_b) v, inl both),
        ))
        (λ _.
          if_both P p.stopping _ _ (λ _. (aborted l, refl, tt))
            (λ _.
              Returns-Goes (Ends in_a in_b (p ∷ polls)) next_a next_b
                (lobby_round sends_a sends_b p l) (lobby_rounds sends_a sends_b polls) (λ x. tt)
                (lobby_round-Goes sends_a sends_b p l in_a in_b all_a all_b v)
                (λ x w.
                  let (r, e, g) = lobby_rounds-Ends polls x next_a next_b later all_a all_b w in
                  (r, e, Ends-later in_a in_b p polls r g))))

-- Both players agreed. To the parser the bytes from each are one such answer, then the bytes that
-- go to its forwarder, with those that come later; and each was sent the other's answer once.
pub record IsStarted (in_a in_b : List ℕ) (l : Lobby) : Type 0 where
  pub yes_a : Frame
  pub yes_b : Frame
  pub agreed_a : says yes_a ≡ accepted
  pub agreed_b : says yes_b ≡ accepted
  pub stream_a :
      (t : List ℕ)
      → All IsByte t
      → parse_frames (in_a ++ t) [] ≡ parse_frames (l.a.buf ++ t) (yes_a ∷ [])
  pub stream_b :
      (t : List ℕ)
      → All IsByte t
      → parse_frames (in_b ++ t) [] ≡ parse_frames (l.b.buf ++ t) (yes_b ∷ [])
  pub sent_a : l.a.sent ≡ ready_frame 1 ∷ []
  pub sent_b : l.b.sent ≡ ready_frame 1 ∷ []

IsLobby-IsStarted :
    (in_a in_b : List ℕ) (l : Lobby)
    → IsLobby in_a in_b l
    → All IsByte in_a
    → All IsByte in_b
    → l.a.ready ≡ true
    → l.b.ready ≡ true
    → IsStarted in_a in_b l
unfolding Said
IsLobby-IsStarted in_a in_b l v bytes_a bytes_b ready_a ready_b =
    let (f, e, x, s) = subst (λ c. Said in_a c l.a.buf l.b.sent) ready_a v.said_a in
    let (g, d, y, u) = subst (λ c. Said in_b c l.b.buf l.a.sent) ready_b v.said_b in
    record {
      yes_a = f;
      yes_b = g;
      agreed_a = e;
      agreed_b = d;
      stream_a = λ t h. parse_frames-Skips in_a l.a.buf (f ∷ []) x t bytes_a h;
      stream_b = λ t h. parse_frames-Skips in_b l.b.buf (g ∷ []) y t bytes_b h;
      sent_a = u;
      sent_b = s;
    }

-- How the rounds of the lobby end on these bytes.
unfoldable pub Outcome : List ℕ → List ℕ → List Poll → Round → Type 0
Outcome in_a in_b polls (goes_on l) =
    (used : List Poll) × (rest : List Poll) × (polls ≡ used ++ rest)
    × (IsStarted (in_a ++ received_a used) (in_b ++ received_b used) l
        ⊎ (((l.a.ready && l.b.ready) ≡ false) × (rest ≡ [])))
    × (length l.a.buf ≤ k_max_lobby_buf_bytes)
    × (length l.b.buf ≤ k_max_lobby_buf_bytes)
Outcome in_a in_b polls (aborted l) = Unit

received-IsByte :
    (used rest : List Poll)
    → All IsBytes (used ++ rest)
    → All IsByte (received_a used) × All IsByte (received_b used)
unfolding received_a received_b
received-IsByte [] rest h = (tt, tt)
received-IsByte (p ∷ used) rest (here, later) =
    let (a, b) = received-IsByte used rest later in
    (
      All-append IsByte (bytes_of p.from_a) (received_a used) here.0 a,
      All-append IsByte (bytes_of p.from_b) (received_b used) here.1 b,
    )

Outcome-Ends :
    (in_a in_b : List ℕ) (polls : List Poll) (r : Round)
    → All IsBytes polls
    → All IsByte in_a
    → All IsByte in_b
    → Ends in_a in_b polls r
    → Outcome in_a in_b polls r
unfolding Ends Outcome
Outcome-Ends in_a in_b polls (goes_on l) h bytes_a bytes_b (used, rest, e, v, w) =
    let (more_a, more_b) = received-IsByte used rest (subst (All IsBytes) e h) in
    let all_a = All-append IsByte in_a (received_a used) bytes_a more_a in
    let all_b = All-append IsByte in_b (received_b used) bytes_b more_b in
    let ends : IsStarted (in_a ++ received_a used) (in_b ++ received_b used) l
        ⊎ (((l.a.ready && l.b.ready) ≡ false) × (rest ≡ [])) =
      elim (Bool-cases (l.a.ready && l.b.ready)) [
        | inl both ↦
            let (x, y) = and_true {x = l.a.ready} both in
            inl (
              IsLobby-IsStarted (in_a ++ received_a used) (in_b ++ received_b used) l v all_a all_b
                x y)
        | inr not_yet ↦ inr (
          not_yet,
          elim w [ inl both ↦ absurd (ground (arith, both, not_yet)) | inr last ↦ last ],
        )
      ] in
    (used, rest, e, ends, v.within_a, v.within_b)
Outcome-Ends in_a in_b polls (aborted l) h bytes_a bytes_b e = tt

-- On bytes, from buffers within the lobby's bound, the rounds of the lobby always have an outcome.
-- The forwarders start only when both players agreed: each was then sent the other's READY(1) once
-- and nothing else, and to the parser what was received from each is one such answer, then the
-- bytes that its forwarder gets, with whatever comes later. The buffers stay within the bound.
pub lobby_rounds-Outcome :
    (sends_a sends_b : List (List ℕ) → List ℕ → Bool) (polls : List Poll) (buf_a buf_b : List ℕ)
    → All IsBytes polls
    → All IsByte buf_a
    → All IsByte buf_b
    → length buf_a ≤ k_max_lobby_buf_bytes
    → length buf_b ≤ k_max_lobby_buf_bytes
    → Returns
        (Outcome buf_a buf_b polls)
        (lobby_rounds sends_a sends_b polls (queue_lobby buf_a buf_b))
unfolding queue_lobby Said
lobby_rounds-Outcome sends_a sends_b polls buf_a buf_b h bytes_a bytes_b small_a small_b =
    let v : IsLobby buf_a buf_b (queue_lobby buf_a buf_b) = record {
      said_a = (Skips-none buf_a, refl);
      said_b = (Skips-none buf_b, refl);
      within_a = small_a;
      within_b = small_b;
    } in
    let (r, e, g) =
      lobby_rounds-Ends sends_a sends_b polls (queue_lobby buf_a buf_b) buf_a buf_b h bytes_a
        bytes_b v in
    (r, e, Outcome-Ends buf_a buf_b polls r h bytes_a bytes_b g)
