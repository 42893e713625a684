-- ===== src/Watchdog.antt =====
-- fdbus/CFdbWatchdog.cpp and fdbus/CFdbWatchdog.h: the dogs that watch the sessions of an object.
-- A number of retries is not negative. `alive` tells whether `CBaseEndpoint::getSession` finds a session.
-- The timer of the watchdog is one of EventLoop: `run` is what it does when it expires.
pub mod Barks
use fdbus.Prelude.{
  ℕ, zero, suc, ◌-◌, ◌==◌, if◌then◌else◌, Bool, true, false, Option, none, some, List, [], ◌∷◌,
}
use fdbus.Prelude.Map.{Map, find, insert, erase, nat_eq}

pub record Dog : Type 0 where
  pub retries : ℕ
  pub dropped : Bool

-- FDB_WATCHDOG_RETRIES
abbrev pub watchdog_retries : ℕ
watchdog_retries = 5

abbrev pub reset : ℕ → Dog
reset retries = record { retries = retries; dropped = false }

pub record Watchdog : Type 0 where
  pub dogs : Map ℕ Dog
  pub max_retries : ℕ

-- What the watchdog asks of its object: `onBark` and `kickDog`.
pub data Event : Type 0 where
  bark : ℕ → Event
  kick : ℕ → Event

unfoldable pub new_watchdog : ℕ → Watchdog
new_watchdog max_retries = record {
  dogs = [];
  max_retries = if max_retries == 0 then watchdog_retries else max_retries;
}

-- `ipc` tells whether the session came through a local socket.
unfoldable pub add_dog : ℕ → Bool → Watchdog → Watchdog
add_dog sid ipc w =
    if ipc then record w { dogs = insert sid (reset watchdog_retries) w.dogs } else w

unfoldable pub remove_dog : ℕ → Watchdog → Watchdog × List Event
remove_dog sid w = elim (find sid w.dogs) [
  | none ↦ (w, [])
  | some dog ↦ (record w { dogs = erase sid w.dogs }, bark sid ∷ [])
]

unfoldable pub feed_dog : ℕ → Watchdog → Watchdog
feed_dog sid w = elim (find sid w.dogs) [
  | none ↦ w
  | some dog ↦ record w { dogs = insert sid (reset w.max_retries) w.dogs }
]

-- The dog after one turn, and whether it barks.
abbrev pub turn : Dog → Dog × Bool
turn dog =
    if dog.retries == 0
    then (record { retries = watchdog_retries; dropped = true }, true)
    else (record dog { retries = dog.retries - 1 }, false)

unfoldable pub run_dogs : (ℕ → Bool) → Map ℕ Dog → Map ℕ Dog × List Event
run_dogs alive [] = ([], [])
run_dogs alive ((sid, dog) ∷ rest) =
    let (others, events) = run_dogs alive rest in
    if alive sid
    then ((sid, (turn dog).0) ∷ others, (if (turn dog).1 then bark sid else kick sid) ∷ events)
    else (others, events)

unfoldable pub run : (ℕ → Bool) → Watchdog → Watchdog × List Event
run alive w = (record w { dogs = (run_dogs alive w.dogs).0 }, (run_dogs alive w.dogs).1)

-- What `start` changes besides switching the timer on.
unfoldable pub start : ℕ → Watchdog → Watchdog
start max_retries w = if max_retries == 0 then w else record w { max_retries = max_retries }

unfoldable pub dropped_sessions : (ℕ → Bool) → Map ℕ Dog → List ℕ
dropped_sessions alive [] = []
dropped_sessions alive ((sid, dog) ∷ rest) =
    let others = dropped_sessions alive rest in
    if dog.dropped then (if alive sid then sid ∷ others else others) else others

-- `getDroppedProcesses`, as the sessions whose processes it lists.
unfoldable pub get_dropped_processes : (ℕ → Bool) → Watchdog → List ℕ
get_dropped_processes alive w = dropped_sessions alive w.dogs

-- The results of `queryDog`: 0, 1 and -1.
pub data DogStatus : Type 0 where
  exists_alive : DogStatus
  does_not_exist : DogStatus
  exists_dead : DogStatus

abbrev pub status_of : Option Dog → DogStatus
status_of none = does_not_exist
status_of (some dog) = if dog.dropped then exists_dead else exists_alive

unfoldable pub query_dog : ℕ → Watchdog → DogStatus
query_dog sid w = status_of (find sid w.dogs)
