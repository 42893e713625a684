-- ===== src/Tests/Workers.antt =====
-- Runs of the timers, the watchdog and the job queues.
use fdbus.Prelude.{
  ℕ, ◌+◌, ◌<◌, ◌≡◌, ◌⊎◌, refl, arith, leb, ◌==◌, if◌then◌else◌, ◌&&◌, Bool, true, false, List, [],
}
use fdbus.Prelude.Map.{nat_eq}
use fdbus.EventLoop.{
  CBaseEventLoop, new_timer, new_event_loop, mem, get_most_recent_time, timed_out, expires_at,
  reschedule, run_timers, process_timers, begin_timer_black_list, add_timer, enable_timer,
  switch_off, switch_on, set_timer,
}
use fdbus.EventLoop.Order.{NoRepeat, Ordered}
use fdbus.EventLoop.Invariant.{IsSound}
use fdbus.EventLoop.Steps.{Call, add, perform, calling, here, next, call, Reach-IsSound}
use fdbus.EventLoop.Waits.{soonest, wait_until, get_most_recent_time-soonest}
use fdbus.EventLoop.Due.{rescheduled, reschedule-due, process_timers-runs, process_timers-quiet}

abbrev interval : ℕ → ℕ
interval j = 100 + j

abbrev rpt : ℕ → Bool
rpt j = j == 1

abbrev idle : CBaseEventLoop
idle = new_event_loop (λ j. new_timer (interval j) (rpt j))

-- Timer 1, which is started, in an event loop.
abbrev one : CBaseEventLoop
one = add_timer 5 1 true idle

one-IsSound : IsSound one
unfolding perform fdbus.EventLoop.Steps.uses_null fdbus.EventLoop.Steps.carried_out add_timer
one-IsSound = Reach-IsSound interval rpt one (next here (call 5 (add 1 true) refl))

Reach-IsSound_example : IsSound (add_timer 6 2 true one)
unfolding perform fdbus.EventLoop.Steps.uses_null fdbus.EventLoop.Steps.carried_out add_timer
Reach-IsSound_example =
    Reach-IsSound interval rpt (add_timer 6 2 true one)
      (next (next here (call 5 (add 1 true) refl)) (call 6 (add 2 true) refl))

one-expires :
    (k : ℕ) → (one.objects k).enabled ≡ true → (one.objects k).expiration < 50 + 2147483648
unfolding perform add_timer enable_timer switch_off switch_on set_timer mem
one-expires k e = ground (arith, e)

get_most_recent_time-soonest_example :
    get_most_recent_time 50 one ≡ wait_until 50 (soonest one.objects one.timer_list)
get_most_recent_time-soonest_example = get_most_recent_time-soonest 50 one one-IsSound one-expires

reschedule-due_example :
    (reschedule 200 (timed_out 200 (expires_at one) one.working) one).objects 1 ≡ (
      if (one.objects 1).enabled && leb (one.objects 1).expiration 200
      then rescheduled 200 (one.objects 1)
      else one.objects 1)
reschedule-due_example = reschedule-due 200 one one-IsSound 1

abbrev silent : ℕ → CBaseEventLoop → List Call × Bool
silent k l = ([], false)

process_timers-runs_example :
    NoRepeat (process_timers (calling 200 silent) 200 one).0
    × ((j : ℕ)
        → mem j (process_timers (calling 200 silent) 200 one).0 ≡ true
        → (one.objects j).enabled && leb (one.objects j).expiration 200 ≡ true)
    × ((j : ℕ)
        → (one.objects j).enabled && leb (one.objects j).expiration 200 ≡ true
        → (mem j (process_timers (calling 200 silent) 200 one).0 ≡ true)
          ⊎ (mem j
                (run_timers (calling 200 silent) 200 (timed_out 200 (expires_at one) one.working) (
                  reschedule 200
                    (timed_out 200 (expires_at one) one.working)
                    (begin_timer_black_list one))).1.black_list
              ≡ true))
process_timers-runs_example = process_timers-runs 200 one one-IsSound silent

process_timers-quiet_example :
    ((j : ℕ)
      → mem j (process_timers (λ k l. (l, false)) 200 one).0
        ≡ ((one.objects j).enabled && leb (one.objects j).expiration 200))
    × NoRepeat (process_timers (λ k l. (l, false)) 200 one).0
    × Ordered (expires_at one) (process_timers (λ k l. (l, false)) 200 one).0
unfolding perform add_timer enable_timer switch_off switch_on mem set_timer
process_timers-quiet_example =
    process_timers-quiet 200 one one-IsSound (λ k l. (l, false)) (λ k m. (refl, refl)) refl
