-- ===== src/Net/Session/Overflow.antt =====
-- A full send queue in net/session.cpp: the session is lost, and stays lost.
use tetris_multiplayer_rl.Net.Session.Io.{Link, io_round, io_rounds}
use tetris_multiplayer_rl.Net.Session.{lost, Session, link_status, push_send, send_input}
use tetris_multiplayer_rl.Common.{
  leb, ◌>>=◌, if_true, length, ℕ, ◌≤◌, ◌≡◌, refl, ap, ◌∙◌, Bool, true, Option, some, List, [], ◌∷◌,
  arith,
}

-- An input sent in a session whose queue of 4096 frames is full fails the session: the queue stays as
-- it is, the link status is lost at every time, and no later round of the thread changes or sends
-- anything.
pub send_input-lost :
    (sends : List (List ℕ) → List ℕ → Bool) (now tick mask : ℕ) (s : Session) (sent : List (List ℕ))
    → 4096 ≤ length s.send_q
    → ((send_input now tick mask s).send_q ≡ s.send_q)
      × ((later : ℕ) → link_status later (send_input now tick mask s) ≡ lost)
      × ((rounds : List (ℕ × ℕ × Option (List ℕ)))
          → io_rounds sends rounds (record { session = send_input now tick mask s; sent = sent })
            ≡ some (record { session = send_input now tick mask s; sent = sent }))
unfolding send_input push_send link_status io_rounds io_round
send_input-lost sends now tick mask s sent h =
    let full : leb 4096 (length s.send_q) ≡ true = ground (arith, h) in
    let t = send_input now tick mask s in
    let failed : t.connection_failed ≡ true =
      ap (λ (x : Session). x.connection_failed) (if_true _ _ full) in
    let over : t.quit ≡ true = ap (λ (x : Session). x.quit) (if_true _ _ full) in
    (ap (λ (x : Session). x.send_q) (if_true _ _ full), λ later. if_true _ _ failed, stays over)
  where
    l : Link
    l = record { session = send_input now tick mask s; sent = sent }

    stays :
        l.session.quit ≡ true
        → (rounds : List (ℕ × ℕ × Option (List ℕ))) → io_rounds sends rounds l ≡ some l
    stays over [] = refl
    stays over ((at, elapsed, received) ∷ rounds) =
        ap (λ o. o >>= io_rounds sends rounds) (if_true _ _ over) ∙ stays over rounds
