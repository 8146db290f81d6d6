-- ===== src/Server/Room/Reached.antt =====
-- Every room that the steps of server/room.cpp reach.
use mathlib.Core.Path.{subst}
use tetris_multiplayer_rl.Server.Room.Starts.{Acts-Shape, IsAwaited-starting, IsQuiet-starting}
use tetris_multiplayer_rl.Common.Returns.{if_both}
use tetris_multiplayer_rl.Server.Room.Single.{
  Shape-swap, IsOver-starting, is_closed, notify-Shape, by_guest, elsewhere, IsStarting, by_host,
  is_open, Shape, place,
}
use tetris_multiplayer_rl.Server.Room.{
  not_found, full, guest_acts, host_acts, sleeping, starting, opens, gone, notifies, enters,
  then_next, stranded, handed, joins, Next, reading, entered, Reach, entering, Thread, Room,
  handle_join, created, swap, enter,
}
use tetris_multiplayer_rl.Common.{
  ◌==◌, true_of_not, ◌+◌, ◌≡◌, refl, ap, ◌⊎◌, inl, inr, true, false, not, ◌&&◌, ◌||◌, arith,
}

entered_injective : (x y : Room) → entered x ≡ entered y → x ≡ y
entered_injective x y e =
    ap (λ o. elim o as (λ j. Room) [ not_found ↦ x | full n ↦ x | entered z ↦ z ]) e

-- The seat of a guest that just came.
seated :
    (r : Room)
    → r.listed ≡ true
    → Shape r
    → (r.guest.present || r.match_started) ≡ false
    → Shape (record r {
      guest = record r.guest { present = true; thread = entering };
      room_info_version = r.room_info_version + 1;
      join_version = r.room_info_version + 1;
    })
unfolding swap
seated r there (is_open (listed, waits, none_yet, h, (x, inl (t, p)))) free =
    absurd (ground (arith, p, free))
seated r there (is_open (listed, waits, none_yet, h, (x, inr (inl (t, p, off))))) free =
    is_open (listed, waits, none_yet, h, (x, inr (inr (inl refl, refl, off))))
seated r there (is_open (listed, waits, none_yet, h, (x, inr (inr (t, p, off))))) free =
    absurd (ground (arith, p, free))
seated r there (by_host (listed, started, none_yet, s, w)) free =
    absurd (ground (arith, started, free))
seated r there (by_guest (listed, started, none_yet, s, w)) free =
    absurd (ground (arith, started, free))
seated r there (is_closed (out, h, g, m)) free = absurd (ground (arith, there, out))

handle_join-Shape : (r t : Room) → handle_join r ≡ entered t → Shape r → Shape t
unfolding handle_join
handle_join-Shape r t e s =
    if_both (λ o. o ≡ entered t → Shape t) (not r.listed) _ _ (λ out c. absurd (ground (arith, c)))
      (λ there.
        if_both (λ o. o ≡ entered t → Shape t) (r.guest.present || r.match_started) _ _
          (λ taken c. absurd (ground (arith, c)))
          (λ free c. subst Shape (entered_injective _ t c) (seated r (true_of_not there) s free)))
      e

-- The guest goes on, or is left behind.
IsEntered : Thread → Type 0
IsEntered t = (t ≡ reading) ⊎ (t ≡ stranded)

enter-IsEntered : (r : Room) → IsEntered (enter r).guest.thread
unfolding enter IsEntered
enter-IsEntered r =
    if_both IsEntered (r.listed && (r.room_info_version == r.join_version)) reading stranded
      (λ _. inl refl) (λ _. inr refl)

entered-Shape :
    (r : Room) (t : Thread)
    → r.guest.thread ≡ entering
    → IsEntered t
    → Shape r
    → Shape (record r { guest = record r.guest { thread = t } })
unfolding place swap IsEntered
entered-Shape r t e d (is_open (listed, waits, none_yet, h, (x, inl (i, p)))) =
    elsewhere r.guest.thread entering reading e i refl
entered-Shape r t e d (is_open (listed, waits, none_yet, h, (x, inr (inl (i, p, off))))) =
    elsewhere r.guest.thread entering gone e i refl
entered-Shape r t e (inl d) (is_open (listed, waits, none_yet, h, (x, inr (inr (i, p, off))))) =
    is_open (listed, waits, none_yet, h, (x, inl (d, p)))
entered-Shape r t e (inr d) (is_open (listed, waits, none_yet, h, (x, inr (inr (i, p, off))))) =
    is_open (listed, waits, none_yet, h, (x, inr (inr (inr d, p, off))))
entered-Shape r t e d (by_host (listed, started, none_yet, s, inl (i, p, x))) =
    elsewhere r.guest.thread entering reading e i refl
entered-Shape r t e d (by_host (listed, started, none_yet, s, inr (inl (i, p, x)))) =
    elsewhere r.guest.thread entering handed e i refl
entered-Shape r t e d (by_host (listed, started, none_yet, s, inr (inr (i, p)))) =
    elsewhere r.guest.thread entering gone e i refl
entered-Shape r t e d (by_guest (listed, started, none_yet, (inl i, p), w)) =
    elsewhere r.guest.thread entering starting e i refl
entered-Shape r t e d (by_guest (listed, started, none_yet, (inr (i, _), p), w)) =
    elsewhere r.guest.thread entering sleeping e i refl
entered-Shape r t e d (is_closed (out, h, inl i, m)) =
    elsewhere r.guest.thread entering handed e i refl
entered-Shape r t e d (is_closed (out, h, inr i, m)) =
    elsewhere r.guest.thread entering gone e i refl

Next-Shape : (r t : Room) → Next r t → Shape r → Shape t
unfolding enter
Next-Shape r t (joins _ _ e) s = handle_join-Shape r t e s
Next-Shape r _ (enters _ e) s = entered-Shape r (enter r).guest.thread e (enter-IsEntered r) s
Next-Shape r _ (notifies _) s = notify-Shape r s
Next-Shape r t (host_acts _ _ a) s = Acts-Shape r t a s
Next-Shape r _ (guest_acts _ t a) s = Shape-swap t (Acts-Shape (swap r) t a (Shape-swap r s))

pub Reach-Shape : (r : Room) → Reach r → Shape r
unfolding created
Reach-Shape _ opens =
    is_open (refl, refl, refl, (refl, inl (refl, refl)), (refl, inr (inl (refl, refl, refl))))
Reach-Shape t (then_next r _ reach n) = Next-Shape r t n (Reach-Shape r reach)

-- In every order of the steps of the host's and the guest's threads, with guests that come and go and
-- notifications at any time, a room has started no match, or it has started one, is off the table,
-- and neither thread reads its socket any more; and the host or the guest is not the starter, which
-- is about to test or asleep.
pub Reach-one :
    (r : Room)
    → Reach r
    → ((r.matches ≡ 0)
        ⊎ ((r.matches ≡ 1)
            × (r.host.thread ≡ handed)
            × (r.guest.thread ≡ handed)
            × (r.listed ≡ false)))
      × ((¬ IsStarting r.host.thread) ⊎ (¬ IsStarting r.guest.thread))
unfolding swap
Reach-one r reach = elim (Reach-Shape r reach) [
  | is_open (listed, waits, none_yet, h, g) ↦ (inl none_yet, inl (IsQuiet-starting r.host h))
  | by_host (listed, started, none_yet, s, w) ↦ (inl none_yet, inr (IsAwaited-starting r.guest w))
  | by_guest (listed, started, none_yet, s, w) ↦ (inl none_yet, inl (IsAwaited-starting r.host w))
  | is_closed (out, h, g, m) ↦ (
    elim m [ inl none_yet ↦ inl none_yet | inr (one, a, b) ↦ inr (one, a, b, out) ],
    inl (IsOver-starting r.host h),
  )
]
