-- ===== src/Server/Room/Starts.antt =====
-- The start of a match in server/room.cpp: what the starter's test does to a room, and the steps of a
-- claimed room, computed.
use tetris_multiplayer_rl.Common.Returns.{if_both}
use tetris_multiplayer_rl.Server.Room.{
  swap, leaves, stranded, starts, entering, checks, wake, readies, sleeping, gone, check_state,
  handed, Acts, reading, starting, leave, Room, start_match, Seat,
}
use tetris_multiplayer_rl.Server.Room.Single.{
  place, IsClaimed, IsAwaited, Shape, IsQuiet, is_open, by_host, by_guest, is_closed, elsewhere,
  IsStarting, IsOver-starting, set_ready-Shape, check_state-Shape, leave-Shape,
}
use tetris_multiplayer_rl.Common.{
  if_true, if_false, ◌+◌, ◌≡◌, refl, ap, ◌∙◌, ◌≢◌, inl, inr, true, false, not, ◌&&◌, ◌||◌, arith,
}

-- The other thread, once the starter goes on.
IsAwaited-handed :
    (s : Seat)
    → IsAwaited s
    → (s.exited || not s.present) ≡ true
    → s.present ≡ true
    → s.thread ≡ handed
IsAwaited-handed s (inl (h, p, x)) e present = absurd (ground (arith, x, e, present))
IsAwaited-handed s (inr (inl (h, p, x))) e present = h
IsAwaited-handed s (inr (inr (h, p))) e present = absurd (ground (arith, p, present))

IsAwaited-gone : (s : Seat) → IsAwaited s → s.present ≡ false → s.thread ≡ gone
IsAwaited-gone s (inl (h, p, x)) absent = absurd (ground (arith, p, absent))
IsAwaited-gone s (inr (inl (h, p, x))) absent = absurd (ground (arith, p, absent))
IsAwaited-gone s (inr (inr (h, p))) absent = h

-- Whom the starter sleeps for is not out of its loop.
IsAwaited-asleep :
    (s : Seat) → IsAwaited s → not (s.exited || not s.present) ≡ true → s.thread ≢ handed
unfolding place
IsAwaited-asleep s (inl (h, p, x)) waits e = elsewhere s.thread reading handed h e refl
IsAwaited-asleep s (inr (inl (h, p, x))) waits e = absurd (ground (arith, x, waits))
IsAwaited-asleep s (inr (inr (h, p))) waits e = elsewhere s.thread gone handed h e refl

claimed-start_match : (r : Room) → IsClaimed r → Shape (start_match r)
unfolding start_match
claimed-start_match r (listed, started, none_yet, (s, p), w) =
    if_both Shape (not r.listed) _ _ (λ out. absurd (ground (arith, out, listed)))
      (λ there.
        if_both Shape (not (r.guest.exited || not r.guest.present)) _ _
          (λ waits.
            let asleep = inr (refl, IsAwaited-asleep r.guest w waits) in
            by_host (listed, started, none_yet, (asleep, p), w))
          (λ ended.
            if_both Shape (not (r.host.present && r.guest.present)) _ _
              (λ alone.
                let absent : r.guest.present ≡ false = ground (arith, alone, p) in
                is_closed (refl, inr refl, inr (IsAwaited-gone r.guest w absent), inl none_yet))
              (λ both.
                let present : r.guest.present ≡ true = ground (arith, both, p) in
                let done : (r.guest.exited || not r.guest.present) ≡ true = ground (arith, ended) in
                let out = IsAwaited-handed r.guest w done present in
                let one : r.matches + 1 ≡ 1 = omega (arith, none_yet) in
                is_closed (refl, inl refl, inl out, inr (one, refl, out)))))

pub IsQuiet-starting {ℓ} : {A : Type ℓ} (s : Seat) → IsQuiet s → IsStarting s.thread → A
unfolding place
IsQuiet-starting s (x, inl (t, p)) (inl e) = elsewhere s.thread reading starting t e refl
IsQuiet-starting s (x, inl (t, p)) (inr e) = elsewhere s.thread reading sleeping t e refl
IsQuiet-starting s (x, inr (inl (t, p, q))) (inl e) = elsewhere s.thread gone starting t e refl
IsQuiet-starting s (x, inr (inl (t, p, q))) (inr e) = elsewhere s.thread gone sleeping t e refl
IsQuiet-starting s (x, inr (inr (inl t, p, q))) (inl e) =
    elsewhere s.thread entering starting t e refl
IsQuiet-starting s (x, inr (inr (inl t, p, q))) (inr e) =
    elsewhere s.thread entering sleeping t e refl
IsQuiet-starting s (x, inr (inr (inr t, p, q))) (inl e) =
    elsewhere s.thread stranded starting t e refl
IsQuiet-starting s (x, inr (inr (inr t, p, q))) (inr e) =
    elsewhere s.thread stranded sleeping t e refl

pub IsAwaited-starting {ℓ} : {A : Type ℓ} (s : Seat) → IsAwaited s → IsStarting s.thread → A
unfolding place
IsAwaited-starting s (inl (t, p, x)) (inl e) = elsewhere s.thread reading starting t e refl
IsAwaited-starting s (inl (t, p, x)) (inr e) = elsewhere s.thread reading sleeping t e refl
IsAwaited-starting s (inr (inl (t, p, x))) e = IsOver-starting s (inl t) e
IsAwaited-starting s (inr (inr (t, p))) e = IsOver-starting s (inr t) e

start_match-Shape : (r : Room) → r.host.thread ≡ starting → Shape r → Shape (start_match r)
unfolding swap
start_match-Shape r e (is_open (listed, waits, none_yet, h, g)) = IsQuiet-starting r.host h (inl e)
start_match-Shape r e (by_host claimed) = claimed-start_match r claimed
start_match-Shape r e (by_guest (listed, started, none_yet, s, w)) =
    IsAwaited-starting r.host w (inl e)
start_match-Shape r e (is_closed (out, h, g, m)) = IsOver-starting r.host h (inl e)

pub Acts-Shape : (r t : Room) → Acts r t → Shape r → Shape t
Acts-Shape r t (readies _ ready h) s = set_ready-Shape ready r h s
Acts-Shape r t (checks _ h) s = check_state-Shape r h s
Acts-Shape r t (starts _ h) s = start_match-Shape r h s
Acts-Shape r t (leaves _ h) s = leave-Shape r h s

-- The steps of a claimed room, computed.
module _ (r : Room) (listed : r.listed ≡ true) where
  pub start_alone :
      r.guest.present ≡ false
      → start_match r ≡ record r { listed = false; host = record r.host { thread = gone } }
  unfolding start_match
  start_alone absent =
      let off : not r.listed ≡ false = ap not listed in
      let ended : not (r.guest.exited || not r.guest.present) ≡ false = ground (arith, absent) in
      let one : not (r.host.present && r.guest.present) ≡ true = ground (arith, absent) in
      if_false _ _ off ∙ if_false _ _ ended ∙ if_true _ _ one

  pub start_pair :
      r.guest.exited ≡ true
      → r.host.present ≡ true
      → r.guest.present ≡ true
      → start_match r ≡ record r {
        listed = false;
        matches = r.matches + 1;
        host = record r.host { thread = handed };
      }
  unfolding start_match
  start_pair exited p q =
      let off : not r.listed ≡ false = ap not listed in
      let ended : not (r.guest.exited || not r.guest.present) ≡ false = ground (arith, exited) in
      let two : not (r.host.present && r.guest.present) ≡ false = ground (arith, p, q) in
      if_false _ _ off ∙ if_false _ _ ended ∙ if_false _ _ two

  pub check_started :
      r.match_started ≡ true
      → check_state r
        ≡ record r { host = record r.host { exited = true; thread = handed }; guest = wake r.guest }
  unfolding check_state
  check_started started =
      let off : not r.listed ≡ false = ap not listed in if_false _ _ off ∙ if_true _ _ started

  pub leave_listed : leave r ≡ record r {
    listed = r.guest.present;
    room_info_version = r.room_info_version + 1;
    host = record r.host { present = false; ready = false; thread = gone };
  }
  unfolding leave
  leave_listed = if_true _ _ listed
