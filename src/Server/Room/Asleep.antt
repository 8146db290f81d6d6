-- ===== src/Server/Room/Asleep.antt =====
-- A starter of server/room.cpp that sleeps in `cv.wait`: a guest that checks wakes it, a guest that
-- leaves does not.
use mathlib.Core.Path.{subst}
use tetris_multiplayer_rl.Server.Room.Reached.{Reach-Shape}
use tetris_multiplayer_rl.Server.Room.Starts.{
  start_pair, check_started, IsQuiet-starting, start_alone, IsAwaited-starting, leave_listed,
}
use tetris_multiplayer_rl.Common.Returns.{if_both}
use tetris_multiplayer_rl.Server.Room.Single.{
  by_host, is_open, elsewhere, place, by_guest, is_closed, IsOver-starting,
}
use tetris_multiplayer_rl.Server.Room.{
  handed, guest_acts, host_acts, notifies, leaves, starts, entering, leave, checks, enters,
  check_state, start_match, starting, joins, reading, Next, Reach, readies, woken, gone, entered,
  Acts, sleeping, wake, notify, swap, Room, handle_join,
}
use tetris_multiplayer_rl.Common.{
  ◌+◌, ◌≡◌, refl, sym, ap, ◌∙◌, ◌≢◌, ◌⊎◌, inl, inr, true, false, not, ◌||◌, arith,
}

sleeping_acts {ℓ} : {A : Type ℓ} (r t : Room) → Acts r t → r.host.thread ≡ sleeping → A
unfolding place
sleeping_acts r t (readies _ _ h) e = elsewhere r.host.thread reading sleeping h e refl
sleeping_acts r t (checks _ h) e = elsewhere r.host.thread reading sleeping h e refl
sleeping_acts r t (starts _ h) e = elsewhere r.host.thread starting sleeping h e refl
sleeping_acts r t (leaves _ h) e = elsewhere r.host.thread reading sleeping h e refl

gone_acts {ℓ} : {A : Type ℓ} (r t : Room) → Acts r t → r.host.thread ≡ gone → A
unfolding place
gone_acts r t (readies _ _ h) e = elsewhere r.host.thread reading gone h e refl
gone_acts r t (checks _ h) e = elsewhere r.host.thread reading gone h e refl
gone_acts r t (starts _ h) e = elsewhere r.host.thread starting gone h e refl
gone_acts r t (leaves _ h) e = elsewhere r.host.thread reading gone h e refl

started_refuses : (r t : Room) → r.match_started ≡ true → handle_join r ≢ entered t
unfolding handle_join
started_refuses r t started =
    if_both (λ o. o ≢ entered t) (not r.listed) _ _ (λ out c. absurd (ground (arith, c)))
      (λ there.
        if_both (λ o. o ≢ entered t) (r.guest.present || r.match_started) _ _
          (λ taken c. absurd (ground (arith, c))) (λ free. absurd (ground (arith, free, started))))

-- The host sleeps in a room on the table whose guest is gone. No step of the room's own is left, only
-- a notification that another room causes; behind it the host closes the room, with no match.
pub record IsStuck (r : Room) : Type 0 where
  pub asleep : r.host.thread ≡ sleeping
  pub listed : r.listed ≡ true
  pub left : r.guest.thread ≡ gone
  pub only : (t : Room) → Next r t → t ≡ notify r
  pub woken_up : (notify r).host.thread ≡ starting
  pub closes : (start_match (notify r)).listed ≡ false
  pub no_match : (start_match (notify r)).matches ≡ r.matches

IsStuck-only :
    (r : Room)
    → r.host.thread ≡ sleeping
    → r.match_started ≡ true
    → r.guest.thread ≡ gone
    → (t : Room) → Next r t
    → t ≡ notify r
unfolding place swap
IsStuck-only r e started out t (joins _ _ j) = absurd (started_refuses r t started j)
IsStuck-only r e started out _ (enters _ i) = elsewhere r.guest.thread entering gone i out refl
IsStuck-only r e started out _ (notifies _) = refl
IsStuck-only r e started out t (host_acts _ _ a) = sleeping_acts r t a e
IsStuck-only r e started out _ (guest_acts _ t a) = gone_acts (swap r) t a out

IsStuck-left :
    (r : Room)
    → r.host.thread ≡ sleeping
    → r.listed ≡ true
    → r.match_started ≡ true
    → r.guest.thread ≡ gone
    → r.guest.present ≡ false
    → IsStuck r
unfolding notify wake woken
IsStuck-left r e listed started out absent =
    let closed = start_alone (notify r) listed absent in
    record {
      asleep = e;
      listed = listed;
      left = out;
      only = IsStuck-only r e started out;
      woken_up = ap woken e;
      closes = ap (λ (u : Room). u.listed) closed;
      no_match = ap (λ (u : Room). u.matches) closed;
    }

-- In a reached room whose host sleeps as the starter, the guest still reads or is gone. Where it
-- reads, its next check wakes the host, whose next test starts the match; but its leaving does not
-- wake the host. A host whose guest left is stuck: no step of the room is left but a notification from
-- outside, behind which it closes the room.
pub Reach-asleep :
    (r : Room)
    → Reach r
    → r.host.thread ≡ sleeping
    → ((r.guest.thread ≡ reading)
        × ((swap (check_state (swap r))).host.thread ≡ starting)
        × ((start_match (swap (check_state (swap r)))).matches ≡ 1)
        × IsStuck (swap (leave (swap r))))
      ⊎ IsStuck r
unfolding swap place wake woken
Reach-asleep r reach e = elim (Reach-Shape r reach) [
  | is_open (listed, waits, none_yet, h, g) ↦ absurd (IsQuiet-starting r.host h (inr e))
  | by_host (listed, started, none_yet, (s, p), w) ↦ elim w [
    | inl (t, present, x) ↦
        let checked = check_started (swap r) listed started in
        let handed_over : Room = record r {
          guest = record r.guest { exited = true; thread = handed };
          host = wake r.host;
        } in
        let one : r.matches + 1 ≡ 1 = omega (arith, none_yet) in
        let begun = start_pair handed_over listed refl p present in
        let left : Room = record r {
          guest = record r.guest { present = false; ready = false; thread = gone };
          listed = r.host.present;
          room_info_version = r.room_info_version + 1;
        } in
        inl (
          t,
          ap (λ (u : Room). u.guest.thread) checked ∙ ap woken e,
          ap (λ u. (start_match (swap u)).matches) checked
              ∙ ap (λ (u : Room). u.matches) begun
              ∙ one,
          subst (λ u. IsStuck (swap u)) (sym (leave_listed (swap r) listed))
              (IsStuck-left left e p started refl refl),
        )
    | inr (inl (t, present, x)) ↦ elim s [
      | inl i ↦ elsewhere r.host.thread starting sleeping i e refl
      | inr (i, n) ↦ absurd (n t)
    ]
    | inr (inr (t, absent)) ↦ inr (IsStuck-left r e listed started t absent)
  ]
  | by_guest (listed, started, none_yet, s, w) ↦ absurd (IsAwaited-starting r.host w (inr e))
  | is_closed (out, h, g, m) ↦ absurd (IsOver-starting r.host h (inr e))
]
