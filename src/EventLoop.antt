-- ===== src/EventLoop.antt =====
-- worker/CBaseEventLoop.cpp and public/fdbus/CSysLoopTimer.h: the timers of an event loop.
-- A timer is known by an id, which stands for its address. An interval that is not positive is 0: the
-- code only tests whether it is positive. `now` is what `sysdep_getsystemtime_milli` returns.
pub mod Order
pub mod Invariant
pub mod Waits
pub mod Due
pub mod Steps
use fdbus.Prelude.{
  ℕ, ◌+◌, ◌-◌, ◌%◌, ◌^◌, ltb, leb, ◌==◌, if◌then◌else◌, not, Bool, true, false, List, [], ◌∷◌, ◌++◌,
  ◌&&◌,
}

pub record CSysLoopTimer : Type 0 where
  pub interval : ℕ
  pub repeat : Bool
  pub enabled : Bool
  pub expiration : ℕ
  -- Whether `mEventLoop` is set.
  pub attached : Bool

pub data EEnable : Type 0 where
  enable : EEnable
  disable : EEnable
  dont_care : EEnable

abbrev pub new_timer : ℕ → Bool → CSysLoopTimer
new_timer interval rpt = record {
  interval = interval;
  repeat = rpt;
  enabled = false;
  expiration = 0;
  attached = false;
}

-- `objects` holds the timers themselves, whoever owns them.
pub record CBaseEventLoop : Type 0 where
  pub objects : ℕ → CSysLoopTimer
  pub timer_list : List ℕ
  pub working : List ℕ
  pub black_list : List ℕ
  pub recursive_cnt : ℕ

abbrev pub new_event_loop : (ℕ → CSysLoopTimer) → CBaseEventLoop
new_event_loop objects = record {
  objects = objects;
  timer_list = [];
  working = [];
  black_list = [];
  recursive_cnt = 0;
}

unfoldable pub mem : ℕ → List ℕ → Bool
mem j [] = false
mem j (x ∷ xs) = if x == j then true else mem j xs

-- `fdb_remove_value_from_container`: the first occurrence goes.
unfoldable pub remove_value : ℕ → List ℕ → List ℕ
remove_value j [] = []
remove_value j (x ∷ xs) = let rest = remove_value j xs in if x == j then xs else x ∷ rest

unfoldable pub set_timer : ℕ → CSysLoopTimer → (ℕ → CSysLoopTimer) → ℕ → CSysLoopTimer
set_timer k t objects j = if k == j then t else objects j

-- The loop of `enable` that finds the place of a timer: before the first that expires later.
unfoldable pub insert_working : (ℕ → ℕ) → ℕ → List ℕ → List ℕ
insert_working expires k [] = k ∷ []
insert_working expires k (x ∷ xs) =
    let rest = insert_working expires k xs in
    if ltb (expires k) (expires x) then k ∷ x ∷ xs else x ∷ rest

abbrev pub expires_at : CBaseEventLoop → ℕ → ℕ
expires_at l j = (l.objects j).expiration

unfoldable pub switch_off : ℕ → CBaseEventLoop → CBaseEventLoop
switch_off k l =
    if (l.objects k).enabled
    then record l {
      objects = set_timer k (record (l.objects k) { enabled = false }) l.objects;
      working = remove_value k l.working;
    }
    else l

unfoldable pub switch_on : ℕ → ℕ → CBaseEventLoop → CBaseEventLoop
switch_on k expiration l =
    let t = record (l.objects k) { expiration = expiration; enabled = true } in
    let objects = set_timer k t l.objects in
    record l {
      objects = objects;
      working = insert_working (λ j. (objects j).expiration) k l.working;
    }

-- `CSysLoopTimer::enable`. A start of 0 is the present time; without an interval the timer stays off.
unfoldable pub enable_timer : ℕ → ℕ → Bool → ℕ → ℕ → CBaseEventLoop → CBaseEventLoop
enable_timer now k enb time_start init_value l =
    let off = switch_off k l in
    let start = if time_start == 0 then now else time_start in
    let interval = (l.objects k).interval in
    if not enb
    then off
    else if ltb 0 init_value
    then switch_on k ((start + init_value) % 2 ^ 64) off
    else if ltb 0 interval
    then switch_on k ((start + interval) % 2 ^ 64) off
    else off

abbrev pub set_repeat : EEnable → Bool → Bool
set_repeat enable old = true
set_repeat disable old = false
set_repeat dont_care old = old

abbrev pub switched : ℕ → ℕ → EEnable → ℕ → CBaseEventLoop → CBaseEventLoop
switched now k enable init_value l = enable_timer now k true 0 init_value l
switched now k disable init_value l = enable_timer now k false 0 0 l
switched now k dont_care init_value l = l

-- `CSysLoopTimer::config`
unfoldable pub config : ℕ → ℕ → EEnable → EEnable → ℕ → ℕ → CBaseEventLoop → CBaseEventLoop
config now k enb rpt interval init_value l =
    let t = l.objects k in
    let t' = record t {
      repeat = set_repeat rpt t.repeat;
      interval = if ltb 0 interval then interval else t.interval;
    } in
    switched now k enb init_value (record l { objects = set_timer k t' l.objects })

unfoldable pub timer_destroyed : ℕ → CBaseEventLoop → Bool
timer_destroyed k l = mem k l.black_list

unfoldable pub add_timer : ℕ → ℕ → Bool → CBaseEventLoop → CBaseEventLoop
add_timer now k enb l =
    if mem k l.timer_list
    then l
    else enable_timer now k enb 0 0 (record l {
      objects = set_timer k (record (l.objects k) { attached = true }) l.objects;
      timer_list = l.timer_list ++ k ∷ [];
    })

-- `mTimerBlackList` is a set.
unfoldable pub add_timer_to_blacklist : ℕ → CBaseEventLoop → CBaseEventLoop
add_timer_to_blacklist k l = record l {
  black_list = if mem k l.black_list then l.black_list else k ∷ l.black_list;
}

unfoldable pub detach : ℕ → CBaseEventLoop → CBaseEventLoop
detach k l = record l {
  objects = set_timer k (record (l.objects k) { attached = false }) l.objects;
  timer_list = remove_value k l.timer_list;
}

unfoldable pub remove_timer : ℕ → ℕ → CBaseEventLoop → CBaseEventLoop
remove_timer now k l = detach k (enable_timer now k false 0 0 (add_timer_to_blacklist k l))

unfoldable pub remove_timers : ℕ → List ℕ → CBaseEventLoop → CBaseEventLoop
remove_timers now [] l = l
remove_timers now (k ∷ ks) l = remove_timers now ks (remove_timer now k l)

unfoldable pub uninstall_timers : ℕ → CBaseEventLoop → CBaseEventLoop
uninstall_timers now l = remove_timers now l.timer_list l

-- The 32 bits of `wait_time`, of which -1 is `wait_forever`.
abbrev pub wait_forever : ℕ
wait_forever = 4294967295

unfoldable pub get_most_recent_time : ℕ → CBaseEventLoop → ℕ
get_most_recent_time now l = elim l.working [
  | [] ↦ wait_forever
  | k ∷ ks ↦ if ltb now (expires_at l k) then (expires_at l k - now) % 2 ^ 32 else 0
]

unfoldable pub begin_timer_black_list : CBaseEventLoop → CBaseEventLoop
begin_timer_black_list l = record l {
  black_list = if l.recursive_cnt == 0 then [] else l.black_list;
  recursive_cnt = l.recursive_cnt + 1;
}

unfoldable pub end_timer_black_list : CBaseEventLoop → CBaseEventLoop
end_timer_black_list l =
    let cnt = if ltb 0 l.recursive_cnt then l.recursive_cnt - 1 else l.recursive_cnt in
    record l { black_list = if cnt == 0 then [] else l.black_list; recursive_cnt = cnt }

-- The first loop of `processTimers`, which fills `tos`.
unfoldable pub timed_out : ℕ → (ℕ → ℕ) → List ℕ → List ℕ
timed_out now expires [] = []
timed_out now expires (x ∷ xs) =
    let rest = timed_out now expires xs in if leb (expires x) now then x ∷ rest else []

-- The second loop of `processTimers`.
unfoldable pub reschedule : ℕ → List ℕ → CBaseEventLoop → CBaseEventLoop
reschedule now [] l = l
reschedule now (k ∷ ks) l = reschedule now ks (enable_timer now k (l.objects k).repeat now 0 l)

-- `run` is what a timer does to the event loop, and whether it throws.
module _ (run : ℕ → CBaseEventLoop → CBaseEventLoop × Bool) (now : ℕ) where
  unfoldable pub run_timer : ℕ → CBaseEventLoop → CBaseEventLoop
  run_timer k l =
      let (after, thrown) = run k l in
      if thrown && not (timer_destroyed k after) then remove_timer now k after else after

  -- The third loop of `processTimers`, with the timers that it runs, in their order.
  unfoldable pub run_timers : List ℕ → CBaseEventLoop → List ℕ × CBaseEventLoop
  run_timers [] l = ([], l)
  run_timers (k ∷ ks) l =
      let skipped = run_timers ks l in
      let (ran, after) = run_timers ks (run_timer k l) in
      if timer_destroyed k l then skipped else (k ∷ ran, after)

  unfoldable pub process_due : List ℕ → CBaseEventLoop → List ℕ × CBaseEventLoop
  process_due [] l = ([], l)
  process_due (k ∷ ks) l =
      let started = reschedule now (k ∷ ks) (begin_timer_black_list l) in
      let (ran, after) = run_timers (k ∷ ks) started in (ran, end_timer_black_list after)

  unfoldable pub process_timers : CBaseEventLoop → List ℕ × CBaseEventLoop
  process_timers l = process_due (timed_out now (expires_at l) l.working) l
