-- ===== src/Server/Room/Tests.antt =====
-- Runs of a room of server/room.cpp.
use tetris_multiplayer_rl.Server.Room.Asleep.{Reach-asleep, IsStuck}
use tetris_multiplayer_rl.Server.Room.Single.{IsStarting}
use tetris_multiplayer_rl.Server.Room.Reached.{Reach-one}
use tetris_multiplayer_rl.Server.Room.{
  enters, woken, wake, enter, starts, checks, guest_acts, readies, host_acts, joins, opens,
  then_next, leave, Reach, swap, check_state, set_ready, starting, full, start_match, not_found,
  handed, Room, reading, created, handle_join, entering, sleeping, stranded,
}
use tetris_multiplayer_rl.Common.{◌≡◌, refl, ◌⊎◌, true, false}

-- A room whose guest came and whose host and guest are ready, after the host's check and its test.
abbrev entered_room : Room
entered_room = record created {
  guest = record created.guest { present = true; thread = entering };
  room_info_version = 2;
  join_version = 2;
}

abbrev both_there : Room
both_there = record entered_room { guest = record entered_room.guest { thread = reading } }

abbrev host_ready : Room
host_ready = record both_there { host = record both_there.host { ready = true } }

abbrev both_ready : Room
both_ready = record host_ready { guest = record host_ready.guest { ready = true } }

abbrev claimed : Room
claimed = record both_ready {
  match_started = true;
  host = record both_ready.host { thread = starting };
}

abbrev asleep_room : Room
asleep_room = record claimed { host = record claimed.host { thread = sleeping } }

claimed-Reach : Reach claimed
unfolding created handle_join set_ready check_state swap enter wake woken
claimed-Reach =
    then_next both_ready claimed
      (then_next host_ready both_ready
        (then_next both_there host_ready
          (then_next entered_room both_there
            (then_next created entered_room opens (joins created entered_room refl))
            (enters entered_room refl))
          (host_acts both_there host_ready (readies both_there true refl)))
        (guest_acts host_ready _ (readies (swap host_ready) true refl)))
      (host_acts both_ready claimed (checks both_ready refl))

asleep_room-Reach : Reach asleep_room
unfolding created start_match
asleep_room-Reach =
    then_next claimed asleep_room claimed-Reach
      (host_acts claimed asleep_room (starts claimed refl))

-- A guest between its two tests, while the host leaves: it is left in the entry, and nobody reads it.
left_behind : (enter (leave entered_room)).guest.thread ≡ stranded
unfolding enter leave created
left_behind = refl

-- A second guest is refused, and a room that is off the table is not found.
second_guest : handle_join both_ready ≡ full 2
unfolding handle_join created
second_guest = refl

late_guest : handle_join (record both_ready { listed = false }) ≡ not_found
unfolding handle_join
late_guest = refl

Reach-one_example :
    ((claimed.matches ≡ 0)
      ⊎ ((claimed.matches ≡ 1)
          × (claimed.host.thread ≡ handed)
          × (claimed.guest.thread ≡ handed)
          × (claimed.listed ≡ false)))
    × ((¬ IsStarting claimed.host.thread) ⊎ (¬ IsStarting claimed.guest.thread))
Reach-one_example = Reach-one claimed claimed-Reach

Reach-asleep_example :
    ((asleep_room.guest.thread ≡ reading)
      × ((swap (check_state (swap asleep_room))).host.thread ≡ starting)
      × ((start_match (swap (check_state (swap asleep_room)))).matches ≡ 1)
      × IsStuck (swap (leave (swap asleep_room))))
    ⊎ IsStuck asleep_room
unfolding created
Reach-asleep_example = Reach-asleep asleep_room asleep_room-Reach refl
