-- ===== src/Server/Lobby/Accepted.antt =====
-- The accept lobby of server/relay.cpp round by round: what each player was sent for the other's
-- answer, and that no byte behind the answers is lost on the way to the forwarders.
use tetris_multiplayer_rl.Net.Framing.Skips.{
  Skips-length, Skips-IsByte, Skips, Skips-trans, Skips-more,
}
use tetris_multiplayer_rl.Server.Lobby.Reading.{consume_ready_frames-Hears}
use tetris_multiplayer_rl.Common.Returns.{Returns-some, if_both, Returns, Returns-bind}
use tetris_multiplayer_rl.Net.Framing.{Frame}
use tetris_multiplayer_rl.Server.Lobby.Hearing.{
  overlong, unsent, refuses, agrees, waits, Hears, says,
}
use tetris_multiplayer_rl.Server.Lobby.{
  gets, ready_frame, Consumed, accepted, aborted, ends_lobby, goes_on, Side, k_max_lobby_buf_bytes,
  after_answer, read_a, hear, Round, Lobby, Poll, read_b, read_answers, lobby_round,
}
use tetris_multiplayer_rl.Common.{
  ltb, Bool-cases, ◌>>=◌, has_value, or_false, length, All, IsByte, ℕ, ◌+◌, ◌≤◌, ◌≡◌, refl, ap, inl,
  inr, Bool, true, false, not, ◌||◌, Option, none, some, List, [], ◌∷◌, ◌++◌, arith,
}
use mathlib.Core.Path.{subst}

-- What the bytes of a player said so far, what is left of them, and what the other one was sent.
unfoldable pub Said : List ℕ → Bool → List ℕ → List (List ℕ) → Type 0
Said got false buf sent = Skips got buf [] × (sent ≡ [])
Said got true buf sent =
    (f : Frame) × (says f ≡ accepted) × Skips got buf (f ∷ []) × (sent ≡ ready_frame 1 ∷ [])

pub record IsLobby (got_a got_b : List ℕ) (l : Lobby) : Type 0 where
  pub said_a : Said got_a l.a.ready l.a.buf l.b.sent
  pub said_b : Said got_b l.b.ready l.b.buf l.a.sent
  pub within_a : length l.a.buf ≤ k_max_lobby_buf_bytes
  pub within_b : length l.b.buf ≤ k_max_lobby_buf_bytes

Said-more :
    (got : List ℕ) (ready : Bool) (buf : List ℕ) (sent : List (List ℕ)) (more : List ℕ)
    → Said got ready buf sent
    → Said (got ++ more) ready (buf ++ more) sent
unfolding Said
Said-more got false buf sent more (f, e) = (Skips-more got buf [] more f, e)
Said-more got true buf sent more (x, s, f, e) = (x, s, Skips-more got buf (x ∷ []) more f, e)

pub Said-IsByte :
    (got : List ℕ) (ready : Bool) (buf : List ℕ) (sent : List (List ℕ))
    → Said got ready buf sent
    → All IsByte got
    → All IsByte buf
unfolding Said
Said-IsByte got false buf sent (f, e) h = Skips-IsByte got buf [] f h
Said-IsByte got true buf sent (x, s, f, e) h = Skips-IsByte got buf (x ∷ []) f h

-- One answer read, where the lobby goes on.
Said-Hears :
    (got buf : List ℕ) (sent : List (List ℕ)) (c : Consumed)
    → Said got false buf sent
    → Hears buf sent c
    → ends_lobby c.answer ≡ false
    → Said got (after_answer c.answer) c.buf c.sent × (length c.buf ≤ length buf)
unfolding Said after_answer ends_lobby
Said-Hears got buf sent c (a, e) (waits _ rest _ g) h =
    ((Skips-trans got buf rest [] [] a g, e), Skips-length buf rest [] g)
Said-Hears got buf sent c (a, e) (agrees _ rest _ f s g) h = (
  (
    f,
    s,
    Skips-trans got buf rest [] (f ∷ []) a g,
    ap (λ (x : List (List ℕ)). x ++ ready_frame 1 ∷ []) e,
  ),
  Skips-length buf rest (f ∷ []) g,
)
Said-Hears got buf sent c (a, e) (refuses _ rest _ f s g) h = absurd (ground (arith, h))
Said-Hears got buf sent c (a, e) (unsent _ rest _ f s g) h = absurd (ground (arith, h))
Said-Hears got buf sent c (a, e) (overlong _ _) h = absurd (ground (arith, h))

-- The lobby that goes on; nothing is said of one that is given up.
unfoldable pub Goes : List ℕ → List ℕ → Round → Type 0
Goes got_a got_b (goes_on l) = IsLobby got_a got_b l
Goes got_a got_b (aborted l) = Unit

-- A step on what goes on.
module _ (Q : Round → Type 0) (got_a got_b : List ℕ) where
  after-Goes :
      (k : Lobby → Option Round)
      → ((x : Lobby) → Q (aborted x))
      → ((x : Lobby) → IsLobby got_a got_b x → Returns Q (k x))
      → (r : Round) → Goes got_a got_b r
      → Returns Q (elim r [ aborted x ↦ some (aborted x) | goes_on x ↦ k x ])
  unfolding Goes
  after-Goes k out on (goes_on x) g = on x g
  after-Goes k out on (aborted x) g = (aborted x, refl, out x)

  pub Returns-Goes :
      (o : Option Round) (k : Lobby → Option Round)
      → ((x : Lobby) → Q (aborted x))
      → Returns (Goes got_a got_b) o
      → ((x : Lobby) → IsLobby got_a got_b x → Returns Q (k x))
      → Returns Q (o >>= λ r. elim r [ aborted x ↦ some (aborted x) | goes_on x ↦ k x ])
  Returns-Goes o k out h on = Returns-bind Q (Goes got_a got_b) o _ h (after-Goes k out on)

-- What came in a round.
abbrev pub bytes_of : Option (List ℕ) → List ℕ
bytes_of none = []
bytes_of (some bytes) = bytes

Said-gets :
    (got : List ℕ) (s : Side) (o : Option (List ℕ)) (sent : List (List ℕ))
    → not (has_value o) ≡ false
    → Said got s.ready s.buf sent
    → Said (got ++ bytes_of o) s.ready (gets s o).buf sent
unfolding gets
Said-gets got s none sent h v = absurd (ground (arith, h))
Said-gets got s (some more) sent h v = Said-more got s.ready s.buf sent more v

module _ (sends : List (List ℕ) → List ℕ → Bool) where
  hear-Hears :
      (me peer : Side)
      → All IsByte me.buf
      → (c : Consumed) × (hear sends me peer
          ≡ some (
            c.answer,
            record { ready = after_answer c.answer; buf = c.buf; sent = me.sent },
            record { ready = peer.ready; buf = peer.buf; sent = c.sent },
          ))
        × Hears me.buf peer.sent c
  unfolding hear
  hear-Hears me peer bytes =
      let (c, e, h) =
        consume_ready_frames-Hears sends (length me.buf + 1) me.buf peer.sent (omega arith) bytes in
      (c, rw e refl, h)

module _ (sends_a sends_b : List (List ℕ) → List ℕ → Bool) (got_a got_b : List ℕ) where
  read_a-Goes :
      (l : Lobby)
      → All IsByte got_a
      → IsLobby got_a got_b l
      → Returns (Goes got_a got_b) (read_a sends_a sends_b l)
  unfolding read_a Goes
  read_a-Goes l bytes v =
      let P = Returns (Goes got_a got_b) in
      if_both P l.a.ready _ _ (λ _. (goes_on l, refl, v))
        (λ e.
          let said = subst (λ b. Said got_a b l.a.buf l.b.sent) e v.said_a in
          let (c, same, h) =
            hear-Hears sends_b l.a l.b
              (Said-IsByte got_a l.a.ready l.a.buf l.b.sent v.said_a bytes) in
          Returns-some (Goes got_a got_b) (hear sends_b l.a l.b) _ _ same
            (elim (Bool-cases (ends_lobby c.answer)) [
              | inl out ↦ (_, refl, rw out tt)
              | inr on ↦
                  let (s, size) = Said-Hears got_a l.a.buf l.b.sent c said h on in
                  (
                    _,
                    refl,
                    rw on (record {
                      said_a = s;
                      said_b = v.said_b;
                      within_a = omega (arith, size, v.within_a);
                      within_b = v.within_b;
                    }),
                  )
            ]))

  read_b-Goes :
      (l : Lobby)
      → All IsByte got_b
      → IsLobby got_a got_b l
      → Returns (Goes got_a got_b) (read_b sends_a sends_b l)
  unfolding read_b Goes
  read_b-Goes l bytes v =
      let P = Returns (Goes got_a got_b) in
      if_both P l.b.ready _ _ (λ _. (goes_on l, refl, v))
        (λ e.
          let said = subst (λ b. Said got_b b l.b.buf l.a.sent) e v.said_b in
          let (c, same, h) =
            hear-Hears sends_a l.b l.a
              (Said-IsByte got_b l.b.ready l.b.buf l.a.sent v.said_b bytes) in
          Returns-some (Goes got_a got_b) (hear sends_a l.b l.a) _ _ same
            (elim (Bool-cases (ends_lobby c.answer)) [
              | inl out ↦ (_, refl, rw out tt)
              | inr on ↦
                  let (s, size) = Said-Hears got_b l.b.buf l.a.sent c said h on in
                  (
                    _,
                    refl,
                    rw on (record {
                      said_a = v.said_a;
                      said_b = s;
                      within_a = v.within_a;
                      within_b = omega (arith, size, v.within_b);
                    }),
                  )
            ]))

  read_answers-Goes :
      (l : Lobby)
      → All IsByte got_a
      → All IsByte got_b
      → IsLobby got_a got_b l
      → Returns (Goes got_a got_b) (read_answers sends_a sends_b l)
  unfolding read_answers Goes
  read_answers-Goes l bytes_a bytes_b v =
      Returns-Goes (Goes got_a got_b) got_a got_b (read_a sends_a sends_b l)
        (read_b sends_a sends_b) (λ x. tt) (read_a-Goes l bytes_a v)
        (λ x w. read_b-Goes x bytes_b w)

module _ (sends_a sends_b : List (List ℕ) → List ℕ → Bool) where
  pub lobby_round-Goes :
      (p : Poll) (l : Lobby) (got_a got_b : List ℕ)
      → All IsByte (got_a ++ bytes_of p.from_a)
      → All IsByte (got_b ++ bytes_of p.from_b)
      → IsLobby got_a got_b l
      → Returns
          (Goes (got_a ++ bytes_of p.from_a) (got_b ++ bytes_of p.from_b))
          (lobby_round sends_a sends_b p l)
  unfolding lobby_round Goes gets
  lobby_round-Goes p l got_a got_b bytes_a bytes_b v =
      let in_a = got_a ++ bytes_of p.from_a in
      let in_b = got_b ++ bytes_of p.from_b in
      let P = Returns (Goes in_a in_b) in
      let l2 : Lobby = record { a = gets l.a p.from_a; b = gets l.b p.from_b } in
      if_both P p.expired _ _ (λ _. (_, refl, tt))
        (λ _.
          if_both P (not (has_value p.from_a)) _ _ (λ _. (_, refl, tt))
            (λ a.
              if_both P (not (has_value p.from_b)) _ _ (λ _. (_, refl, tt))
                (λ b.
                  if_both P
                    (ltb k_max_lobby_buf_bytes (length l2.a.buf)
                      || ltb k_max_lobby_buf_bytes (length l2.b.buf))
                    _ _ (λ _. (_, refl, tt))
                    (λ small.
                      let (fits_a, fits_b) =
                        or_false {x = ltb k_max_lobby_buf_bytes (length l2.a.buf)} small in
                      read_answers-Goes sends_a sends_b in_a in_b l2 bytes_a bytes_b (record {
                        said_a = Said-gets got_a l.a p.from_a l.b.sent a v.said_a;
                        said_b = Said-gets got_b l.b p.from_b l.a.sent b v.said_b;
                        within_a = ground (arith, fits_a);
                        within_b = ground (arith, fits_b);
                      })))))
