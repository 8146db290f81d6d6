-- ===== src/Server/Room/Single.antt =====
-- A room of server/room.cpp starts one match at most, and hands over no socket that a thread still
-- reads.
use tetris_multiplayer_rl.Common.Returns.{if_both}
use tetris_multiplayer_rl.Server.Room.{
  woken, notify, wake, leave, gone, handed, reading, starting, Seat, swap, Room, Thread, set_ready,
  check_state, entering, sleeping, stranded,
}
use tetris_multiplayer_rl.Common.{
  ◌==◌, ℕ, ◌+◌, ◌≡◌, refl, sym, ap, ◌∙◌, ◌≢◌, ◌⊎◌, inl, inr, Bool, true, false, not, ◌&&◌, arith,
}

-- A seat of a room in which no match is started.
abbrev pub IsQuiet : Seat → Type 0
IsQuiet s =
    (s.exited ≡ false)
    × (((s.thread ≡ reading) × (s.present ≡ true))
        ⊎ ((s.thread ≡ gone) × (s.present ≡ false) × (s.ready ≡ false))
        ⊎ (((s.thread ≡ entering) ⊎ (s.thread ≡ stranded))
            × (s.present ≡ true)
            × (s.ready ≡ false)))

-- The seat of the one whom the starter waits for.
abbrev pub IsAwaited : Seat → Type 0
IsAwaited s =
    ((s.thread ≡ reading) × (s.present ≡ true) × (s.exited ≡ false))
    ⊎ ((s.thread ≡ handed) × (s.present ≡ true) × (s.exited ≡ true))
    ⊎ ((s.thread ≡ gone) × (s.present ≡ false))

-- The starter is about to test, or sleeps until the other one is out of its loop.
abbrev pub IsStarter : Room → Type 0
IsStarter r = (r.host.thread ≡ starting) ⊎ ((r.host.thread ≡ sleeping) × (r.guest.thread ≢ handed))

abbrev pub IsOver : Seat → Type 0
IsOver s = (s.thread ≡ handed) ⊎ (s.thread ≡ gone)

abbrev pub IsOpen : Room → Type 0
IsOpen r =
    (r.listed ≡ true)
    × (r.match_started ≡ false)
    × (r.matches ≡ 0)
    × IsQuiet r.host
    × IsQuiet r.guest

abbrev pub IsClaimed : Room → Type 0
IsClaimed r =
    (r.listed ≡ true)
    × (r.match_started ≡ true)
    × (r.matches ≡ 0)
    × (IsStarter r × (r.host.present ≡ true))
    × IsAwaited r.guest

abbrev pub IsClosed : Room → Type 0
IsClosed r =
    (r.listed ≡ false)
    × IsOver r.host
    × IsOver r.guest
    × ((r.matches ≡ 0) ⊎ ((r.matches ≡ 1) × (r.host.thread ≡ handed) × (r.guest.thread ≡ handed)))

pub data Shape (r : Room) : Type 0 where
  is_open : IsOpen r → Shape r
  by_host : IsClaimed r → Shape r
  by_guest : IsClaimed (swap r) → Shape r
  is_closed : IsClosed r → Shape r

pub Shape-swap : (r : Room) → Shape r → Shape (swap r)
unfolding swap
Shape-swap r (is_open (a, b, c, h, g)) = is_open (a, b, c, g, h)
Shape-swap r (by_host claimed) = by_guest claimed
Shape-swap r (by_guest claimed) = by_host claimed
Shape-swap r (is_closed (a, h, g, inl none_yet)) = is_closed (a, g, h, inl none_yet)
Shape-swap r (is_closed (a, h, g, inr (one, x, y))) = is_closed (a, g, h, inr (one, y, x))

-- A thread stands in one place.
unfoldable pub place : Thread → ℕ
place entering = 0
place reading = 1
place starting = 2
place sleeping = 3
place handed = 4
place gone = 5
place stranded = 6

pub elsewhere {ℓ} : {A : Type ℓ} (t a b : Thread) → t ≡ a → t ≡ b → (place a == place b) ≡ false → A
elsewhere t a b e f n = let same = ap place (sym e ∙ f) in absurd (ground (arith, same, n))

IsOver-reading {ℓ} : {A : Type ℓ} (s : Seat) → IsOver s → s.thread ≡ reading → A
unfolding place
IsOver-reading s (inl h) e = elsewhere s.thread handed reading h e refl
IsOver-reading s (inr h) e = elsewhere s.thread gone reading h e refl

-- A starter is about to test, or asleep.
abbrev pub IsStarting : Thread → Type 0
IsStarting t = (t ≡ starting) ⊎ (t ≡ sleeping)

pub IsOver-starting {ℓ} : {A : Type ℓ} (s : Seat) → IsOver s → IsStarting s.thread → A
unfolding place
IsOver-starting s (inl h) (inl e) = elsewhere s.thread handed starting h e refl
IsOver-starting s (inl h) (inr e) = elsewhere s.thread handed sleeping h e refl
IsOver-starting s (inr h) (inl e) = elsewhere s.thread gone starting h e refl
IsOver-starting s (inr h) (inr e) = elsewhere s.thread gone sleeping h e refl

IsStarter-reading {ℓ} : {A : Type ℓ} (r : Room) → IsStarter r → r.host.thread ≡ reading → A
unfolding place
IsStarter-reading r (inl s) e = elsewhere r.host.thread starting reading s e refl
IsStarter-reading r (inr (s, _)) e = elsewhere r.host.thread sleeping reading s e refl

pub IsQuiet-reading : (s : Seat) → IsQuiet s → s.thread ≡ reading → s.present ≡ true
unfolding place
IsQuiet-reading s (x, inl (t, present)) e = present
IsQuiet-reading s (x, inr (inl (t, absent, _))) e = elsewhere s.thread gone reading t e refl
IsQuiet-reading s (x, inr (inr (inl t, p, q))) e = elsewhere s.thread entering reading t e refl
IsQuiet-reading s (x, inr (inr (inr t, p, q))) e = elsewhere s.thread stranded reading t e refl

pub set_ready-Shape :
    (ready : Bool) (r : Room) → r.host.thread ≡ reading → Shape r → Shape (set_ready ready r)
unfolding set_ready swap
set_ready-Shape ready r e s = if_both Shape r.listed _ _ (λ there. go s) (λ out. s)
  where
    go : Shape r → Shape (record r { host = record r.host { ready = ready } })
    go (is_open (listed, waits, none_yet, h, g)) =
        is_open (listed, waits, none_yet, (h.0, inl (e, IsQuiet-reading r.host h e)), g)
    go (by_host c) = by_host c
    go (by_guest c) = by_guest c
    go (is_closed c) = is_closed c

-- A notification changes only who sleeps.
wake-IsQuiet : (s : Seat) → IsQuiet s → IsQuiet (wake s)
unfolding wake woken
wake-IsQuiet s (x, inl (t, p)) = (x, inl (ap woken t, p))
wake-IsQuiet s (x, inr (inl (t, p, q))) = (x, inr (inl (ap woken t, p, q)))
wake-IsQuiet s (x, inr (inr (inl t, p, q))) = (x, inr (inr (inl (ap woken t), p, q)))
wake-IsQuiet s (x, inr (inr (inr t, p, q))) = (x, inr (inr (inr (ap woken t), p, q)))

wake-IsAwaited : (s : Seat) → IsAwaited s → IsAwaited (wake s)
unfolding wake woken
wake-IsAwaited s (inl (t, p, q)) = inl (ap woken t, p, q)
wake-IsAwaited s (inr (inl (t, p, q))) = inr (inl (ap woken t, p, q))
wake-IsAwaited s (inr (inr (t, p))) = inr (inr (ap woken t, p))

wake-IsOver : (s : Seat) → IsOver s → IsOver (wake s)
unfolding wake woken
wake-IsOver s (inl t) = inl (ap woken t)
wake-IsOver s (inr t) = inr (ap woken t)

wake-starts : (r : Room) → IsStarter r → (wake r.host).thread ≡ starting
unfolding wake woken
wake-starts r (inl t) = ap woken t
wake-starts r (inr (t, _)) = ap woken t

pub notify-Shape : (r : Room) → Shape r → Shape (notify r)
unfolding notify swap wake woken
notify-Shape r (is_open (listed, waits, none_yet, h, g)) =
    is_open (listed, waits, none_yet, wake-IsQuiet r.host h, wake-IsQuiet r.guest g)
notify-Shape r (by_host (listed, started, none_yet, (s, p), w)) =
    by_host (listed, started, none_yet, (inl (wake-starts r s), p), wake-IsAwaited r.guest w)
notify-Shape r (by_guest (listed, started, none_yet, (s, p), w)) =
    by_guest (listed, started, none_yet, (inl (wake-starts (swap r) s), p), wake-IsAwaited r.host w)
notify-Shape r (is_closed (out, h, g, inl none_yet)) =
    is_closed (out, wake-IsOver r.host h, wake-IsOver r.guest g, inl none_yet)
notify-Shape r (is_closed (out, h, g, inr (one, x, y))) =
    is_closed (out, wake-IsOver r.host h, wake-IsOver r.guest g, inr (one, ap woken x, ap woken y))

-- The seat of a room that is open, once the other side starts.
IsQuiet-IsAwaited : (s : Seat) → IsQuiet s → s.ready ≡ true → IsAwaited s
IsQuiet-IsAwaited s (exited, inl (t, present)) on = inl (t, present, exited)
IsQuiet-IsAwaited s (exited, inr (inl (t, absent, off))) on = absurd (ground (arith, on, off))
IsQuiet-IsAwaited s (exited, inr (inr (t, there, off))) on = absurd (ground (arith, on, off))

pub check_state-Shape : (r : Room) → r.host.thread ≡ reading → Shape r → Shape (check_state r)
unfolding check_state swap place
check_state-Shape r e (is_open (listed, waits, none_yet, h, g)) =
    if_both Shape (not r.listed) _ _ (λ out. absurd (ground (arith, out, listed)))
      (λ there.
        if_both Shape r.match_started _ _ (λ s. absurd (ground (arith, s, waits)))
          (λ fresh.
            if_both Shape (r.host.present && r.guest.present && r.host.ready && r.guest.ready) _ _
              (λ both.
                let on : r.guest.ready ≡ true = ground (arith, both) in
                by_host (
                  listed,
                  refl,
                  none_yet,
                  (inl refl, IsQuiet-reading r.host h e),
                  wake-IsAwaited r.guest (IsQuiet-IsAwaited r.guest g on),
                ))
              (λ not_yet. is_open (listed, waits, none_yet, h, g))))
check_state-Shape r e (by_host (listed, started, none_yet, (s, p), w)) = IsStarter-reading r s e
check_state-Shape r e (by_guest (listed, started, none_yet, (s, p), inl (t, present, exited))) =
    if_both Shape (not r.listed) _ _ (λ out. absurd (ground (arith, out, listed)))
      (λ there.
        if_both Shape r.match_started _ _
          (λ now. by_guest (
            listed,
            started,
            none_yet,
            (inl (wake-starts (swap r) s), p),
            inr (inl (refl, present, refl)),
          ))
          (λ fresh. absurd (ground (arith, fresh, started))))
check_state-Shape r e (by_guest (listed, started, none_yet, s, inr (inl (t, p, x)))) =
    elsewhere r.host.thread reading handed e t refl
check_state-Shape r e (by_guest (listed, started, none_yet, s, inr (inr (t, p)))) =
    elsewhere r.host.thread reading gone e t refl
check_state-Shape r e (is_closed (out, h, g, m)) = IsOver-reading r.host h e

-- A guest whose seat is free once the other one left.
left_open :
    (r : Room)
    → IsOpen r
    → Shape (record r {
      listed = r.guest.present;
      room_info_version = r.room_info_version + 1;
      host = record r.host { present = false; ready = false; thread = gone };
    })
left_open r (listed, waits, none_yet, h, (exited, inl (t, present))) =
    let off = inr (inl (refl, refl, refl)) in
    is_open (present, waits, none_yet, (h.0, off), (exited, inl (t, present)))
left_open r (listed, waits, none_yet, h, (exited, inr (inl (t, absent, off)))) =
    is_closed (absent, inr refl, inr t, inl none_yet)
left_open r (listed, waits, none_yet, h, (exited, inr (inr (t, present, off)))) = is_open (
  present,
  waits,
  none_yet,
  (h.0, inr (inl (refl, refl, refl))),
  (exited, inr (inr (t, present, off))),
)

pub leave-Shape : (r : Room) → r.host.thread ≡ reading → Shape r → Shape (leave r)
unfolding leave swap
leave-Shape r e (is_open o) =
    if_both Shape r.listed _ _ (λ there. left_open r o) (λ out. absurd (ground (arith, out, o.0)))
leave-Shape r e (by_host (listed, started, none_yet, (s, p), w)) = IsStarter-reading r s e
leave-Shape r e (by_guest (listed, started, none_yet, (s, p), w)) =
    if_both Shape r.listed _ _
      (λ there. by_guest (p, started, none_yet, (still (swap r) s, p), inr (inr (refl, refl))))
      (λ out. absurd (ground (arith, out, listed)))
  where
    still :
        (u : Room)
        → IsStarter u
        → IsStarter
            (record u { guest = record u.guest { present = false; ready = false; thread = gone } })
    still u (inl t) = inl t
    still u (inr (t, _)) = inr (t, λ c. absurd (ground (arith, c)))
leave-Shape r e (is_closed (out, h, g, m)) = IsOver-reading r.host h e
