-- ===== src/Server/Room.antt =====
-- A custom room of server/room.h and server/room.cpp: its entry in the table of rooms, the threads of
-- its host and its guest, and the steps that these take between the locks. The server runs on:
-- `shutdown` is left out.
pub mod Single
pub mod Starts
pub mod Reached
pub mod Asleep
mod Tests
use tetris_multiplayer_rl.Common.{
  ◌==◌, if◌then◌else◌, ℕ, ◌+◌, ◌≡◌, Bool, true, false, not, ◌&&◌, ◌||◌,
}

-- Where a player's thread stands: between the two tests of `handleJoin`, in the loop, about to test
-- as the starter whether the other is out of its loop, asleep until it is notified, done with its
-- socket handed to the relay, done with its socket closed, or done with its socket left as it is.
pub data Thread : Type 0 where
  entering : Thread
  reading : Thread
  starting : Thread
  sleeping : Thread
  handed : Thread
  gone : Thread
  stranded : Thread

-- The host's or the guest's fields of `Entry`, and the thread.
pub record Seat : Type 0 where
  pub present : Bool
  pub ready : Bool
  pub exited : Bool
  pub thread : Thread

-- The entry is in the table where `listed` holds. `matches` counts the calls of `startPump`, and
-- `join_version` is the local variable of the last `handleJoin`. The counter of the versions is one
-- for all rooms; here each room has its own, as only whether a version is still the same is tested.
pub record Room : Type 0 where
  pub listed : Bool
  pub host : Seat
  pub guest : Seat
  pub match_started : Bool
  pub matches : ℕ
  pub room_info_version : ℕ
  pub join_version : ℕ

unfoldable pub swap : Room → Room
swap r = record r { host = r.guest; guest = r.host }

unfoldable pub created : Room
created = record {
  listed = true;
  host = record { present = true; ready = false; exited = false; thread = reading };
  guest = record { present = false; ready = false; exited = false; thread = gone };
  match_started = false;
  matches = 0;
  room_info_version = 1;
  join_version = 0;
}

pub data Joined : Type 0 where
  not_found : Joined
  full : ℕ → Joined
  entered : Room → Joined

unfoldable pub handle_join : Room → Joined
handle_join r =
    if not r.listed
    then not_found
    else if r.guest.present || r.match_started
    then full ((if r.host.present then 1 else 0) + (if r.guest.present then 1 else 0))
    else entered (record r {
      guest = record r.guest { present = true; thread = entering };
      room_info_version = r.room_info_version + 1;
      join_version = r.room_info_version + 1;
    })

-- The second test of `handleJoin`, under a new lock: where it fails, the thread ends, with the guest
-- in the entry and its socket neither read nor closed.
unfoldable pub enter : Room → Room
enter r = record r {
  guest = record r.guest {
    thread = if r.listed && (r.room_info_version == r.join_version) then reading else stranded;
  };
}

-- A notification wakes a thread that sleeps; it then tests again.
unfoldable pub woken : Thread → Thread
woken entering = entering
woken reading = reading
woken starting = starting
woken sleeping = starting
woken handed = handed
woken gone = gone
woken stranded = stranded

unfoldable pub wake : Seat → Seat
unfolding woken
wake s = record s { thread = woken s.thread }

-- The condition variable is one for all rooms, and may wake a thread by itself.
unfoldable pub notify : Room → Room
unfolding wake
notify r = record r { host = wake r.host; guest = wake r.guest }

-- The steps of the host's thread; the guest's are the same with the seats swapped.
unfoldable pub set_ready : Bool → Room → Room
set_ready ready r = if r.listed then record r { host = record r.host { ready = ready } } else r

-- The check at the end of a round: the other one started, or both are there and ready, or not yet.
unfoldable pub check_state : Room → Room
unfolding wake
check_state r =
    if not r.listed
    then record r { host = record r.host { thread = gone } }
    else if r.match_started
    then record r { host = record r.host { exited = true; thread = handed }; guest = wake r.guest }
    else if r.host.present && r.guest.present && r.host.ready && r.guest.ready
    then record r {
      match_started = true;
      host = record r.host { thread = starting };
      guest = wake r.guest;
    }
    else r

-- The starter tests whether the other thread is out of its loop or gone, and sleeps where it is not.
unfoldable pub start_match : Room → Room
start_match r =
    if not r.listed
    then record r { host = record r.host { thread = gone } }
    else if not (r.guest.exited || not r.guest.present)
    then record r { host = record r.host { thread = sleeping } }
    else if not (r.host.present && r.guest.present)
    then record r { listed = false; host = record r.host { thread = gone } }
    else record r {
      listed = false;
      matches = r.matches + 1;
      host = record r.host { thread = handed };
    }

-- The end of a thread that leaves, times out or lost its socket. Nobody is notified.
unfoldable pub leave : Room → Room
leave r =
    if r.listed
    then record r {
      listed = r.guest.present;
      room_info_version = r.room_info_version + 1;
      host = record r.host { present = false; ready = false; thread = gone };
    }
    else record r { host = record r.host { thread = gone } }

-- A step of the host's thread, between two locks.
pub data Acts : Room → Room → Type 0 where
  readies : (r : Room) (ready : Bool) → r.host.thread ≡ reading → Acts r (set_ready ready r)
  checks : (r : Room) → r.host.thread ≡ reading → Acts r (check_state r)
  starts : (r : Room) → r.host.thread ≡ starting → Acts r (start_match r)
  leaves : (r : Room) → r.host.thread ≡ reading → Acts r (leave r)

-- A step of the room.
pub data Next : Room → Room → Type 0 where
  joins : (r t : Room) → handle_join r ≡ entered t → Next r t
  enters : (r : Room) → r.guest.thread ≡ entering → Next r (enter r)
  notifies : (r : Room) → Next r (notify r)
  host_acts : (r t : Room) → Acts r t → Next r t
  guest_acts : (r t : Room) → Acts (swap r) t → Next r (swap t)

-- The rooms that the steps reach from a new one, in every order of the two threads.
pub data Reach : Room → Type 0 where
  opens : Reach created
  then_next : (r t : Room) → Reach r → Next r t → Reach t
