-- ===== src/EventLoop/Due.antt =====
-- Which timers `CBaseEventLoop::processTimers` runs (worker/CBaseEventLoop.cpp).
use fdbus.Prelude.{
  ℕ, ◌+◌, ◌%◌, ◌^◌, ◌≡◌, ◌⊎◌, inl, inr, refl, sym, ◌∙◌, arith, ltb, leb, ◌==◌, if◌then◌else◌, Bool,
  true, false, ◌&&◌, List, [], ◌∷◌, ◌++◌, Bool-cases,
}
use fdbus.EventLoop.{
  CSysLoopTimer, EEnable, enable, disable, dont_care, CBaseEventLoop, mem, set_timer, switch_off,
  switch_on, enable_timer, config, add_timer, detach, remove_timer, remove_timers, uninstall_timers,
  add_timer_to_blacklist, timed_out, reschedule, run_timer, run_timers, process_due, process_timers,
  begin_timer_black_list, expires_at, timer_destroyed,
}
use fdbus.EventLoop.Order.{NoRepeat, Ordered, mem-timed_out}
use fdbus.EventLoop.Invariant.{IsSound}
use fdbus.EventLoop.Steps.{
  Call, add, remove, configure, uninstall, carried_out, uses_null, or_else, perform, perform_all,
  calling,
}

timed_out-NoRepeat :
    (now : ℕ) (f : ℕ → ℕ) (xs : List ℕ) → Ordered f xs → NoRepeat xs → NoRepeat (timed_out now f xs)
unfolding timed_out mem
timed_out-NoRepeat now f [] o h = tt
timed_out-NoRepeat now f (x ∷ xs) o h = elim (Bool-cases (leb (f x) now)) [
  | inl e ↦
      rw e (ground (arith, mem-timed_out now f x xs o.1, h.0), timed_out-NoRepeat now f xs o.1 h.1)
  | inr e ↦ rw e tt
]

timed_out-Ordered :
    (now : ℕ) (f : ℕ → ℕ) (xs : List ℕ) → Ordered f xs → Ordered f (timed_out now f xs)
unfolding timed_out mem
timed_out-Ordered now f [] o = tt
timed_out-Ordered now f (x ∷ xs) o = elim (Bool-cases (leb (f x) now)) [
  | inl e ↦ rw e (
    λ j m. o.0 j (ground (arith, mem-timed_out now f j xs o.1, m)),
    timed_out-Ordered now f xs o.1,
  )
  | inr e ↦ rw e tt
]

-- What `reschedule` makes of a timer that has expired.
abbrev pub rescheduled : ℕ → CSysLoopTimer → CSysLoopTimer
rescheduled now t =
    if t.repeat && ltb 0 t.interval
    then record t { expiration = (now + t.interval) % 2 ^ 64; enabled = true }
    else record t { enabled = false }

enable_timer-rescheduled :
    (now k j : ℕ) (l : CBaseEventLoop)
    → (enable_timer now k (l.objects k).repeat now 0 l).objects j
      ≡ (if k == j then rescheduled now (l.objects j) else l.objects j)
unfolding enable_timer switch_off switch_on set_timer
enable_timer-rescheduled now k j l = ground arith

reschedule-objects :
    (now j : ℕ) (ks : List ℕ) (l : CBaseEventLoop)
    → NoRepeat ks
    → (reschedule now ks l).objects j
      ≡ (if mem j ks then rescheduled now (l.objects j) else l.objects j)
unfolding reschedule mem
reschedule-objects now j [] l h = refl
reschedule-objects now j (k ∷ ks) l h = ground (
  arith,
  reschedule-objects now j ks (enable_timer now k (l.objects k).repeat now 0 l) h.1,
  enable_timer-rescheduled now k j l,
  h.0,
)

module _ (run : ℕ → CBaseEventLoop → CBaseEventLoop × Bool) (now : ℕ) where
  ran_is_due :
      (j : ℕ) (ks : List ℕ) (l : CBaseEventLoop)
      → mem j (run_timers run now ks l).0 ≡ true
      → mem j ks ≡ true
  unfolding run_timers mem
  ran_is_due j [] l m = m
  ran_is_due j (k ∷ ks) l m =
      ground (arith, m, ran_is_due j ks l, ran_is_due j ks (run_timer run now k l))

  not_due :
      (j : ℕ) (ks : List ℕ) (l : CBaseEventLoop)
      → mem j ks ≡ false
      → mem j (run_timers run now ks l).0 ≡ false
  not_due j ks l m = ground (arith, m, ran_is_due j ks l)

  run_timers-NoRepeat :
      (ks : List ℕ) (l : CBaseEventLoop) → NoRepeat ks → NoRepeat (run_timers run now ks l).0
  unfolding run_timers mem
  run_timers-NoRepeat [] l h = tt
  run_timers-NoRepeat (k ∷ ks) l h = elim (Bool-cases (timer_destroyed k l)) [
    | inl e ↦ rw e (run_timers-NoRepeat ks l h.1)
    | inr e ↦ rw e (
      not_due k ks (run_timer run now k l) h.0,
      run_timers-NoRepeat ks (run_timer run now k l) h.1,
    )
  ]

  -- While no timer is removed, all run.
  module _
      (quiet : (k : ℕ) (l : CBaseEventLoop)
        → ((run k l).0.black_list ≡ l.black_list) × ((run k l).1 ≡ false)) where
    run_timers-quiet :
        (ks : List ℕ) (l : CBaseEventLoop) → l.black_list ≡ [] → (run_timers run now ks l).0 ≡ ks
    unfolding run_timers run_timer timer_destroyed mem
    run_timers-quiet [] l e = refl
    run_timers-quiet (k ∷ ks) l e =
        ground (arith, e, quiet k l, run_timers-quiet ks (run k l).0 ((quiet k l).0 ∙ e))

reschedule-black_list :
    (now : ℕ) (ks : List ℕ) (l : CBaseEventLoop) → (reschedule now ks l).black_list ≡ l.black_list
unfolding reschedule enable_timer switch_off switch_on
reschedule-black_list now [] l = refl
reschedule-black_list now (k ∷ ks) l =
    reschedule-black_list now ks (enable_timer now k (l.objects k).repeat now 0 l) ∙ ground arith

enable_timer-black_list :
    (now k : ℕ) (enb : Bool) (start init : ℕ) (l : CBaseEventLoop)
    → (enable_timer now k enb start init l).black_list ≡ l.black_list
unfolding enable_timer switch_off switch_on
enable_timer-black_list now k enb start init l = ground arith

-- A timer that is removed is blacklisted, and stays so until the timers have run.
remove_timer-black_list :
    (now j k : ℕ) (l : CBaseEventLoop)
    → mem j (remove_timer now k l).black_list ≡ (if k == j then true else mem j l.black_list)
unfolding remove_timer add_timer_to_blacklist detach mem
remove_timer-black_list now j k l =
    ground (arith, enable_timer-black_list now k false 0 0 (add_timer_to_blacklist k l))

remove_timers-black_list :
    (now j : ℕ) (ks : List ℕ) (l : CBaseEventLoop)
    → mem j l.black_list ≡ true
    → mem j (remove_timers now ks l).black_list ≡ true
unfolding remove_timers
remove_timers-black_list now j [] l m = m
remove_timers-black_list now j (k ∷ ks) l m =
    remove_timers-black_list now j ks (remove_timer now k l)
      (ground (arith, remove_timer-black_list now j k l, m))

config-black_list :
    (now k : ℕ) (enb rpt : EEnable) (interval init : ℕ) (l : CBaseEventLoop)
    → (config now k enb rpt interval init l).black_list ≡ l.black_list
unfolding config
config-black_list now k enable rpt interval init l = enable_timer-black_list now k true 0 init _
config-black_list now k disable rpt interval init l = enable_timer-black_list now k false 0 0 _
config-black_list now k dont_care rpt interval init l = refl

carried_out-black_list :
    (now j : ℕ) (c : Call) (l : CBaseEventLoop)
    → mem j l.black_list ≡ true
    → mem j (carried_out now c l).black_list ≡ true
unfolding carried_out add_timer uninstall_timers
carried_out-black_list now j (add k enb) l m = ground (
  arith,
  m,
  enable_timer-black_list now k enb 0 0 (record l {
    objects = set_timer k (record (l.objects k) { attached = true }) l.objects;
    timer_list = l.timer_list ++ k ∷ [];
  }),
)
carried_out-black_list now j (remove k) l m = ground (arith, m, remove_timer-black_list now j k l)
carried_out-black_list now j (configure k enb rpt interval init) l m =
    ground (arith, m, config-black_list now k enb rpt interval init l)
carried_out-black_list now j uninstall l m = remove_timers-black_list now j l.timer_list l m

perform_all-black_list :
    (now j : ℕ) (cs : List Call) (l m : CBaseEventLoop)
    → mem j m.black_list ≡ true
    → mem j l.black_list ≡ true
    → mem j (or_else m (perform_all now cs l)).black_list ≡ true
unfolding perform_all perform
perform_all-black_list now j [] l m h k = k
perform_all-black_list now j (c ∷ cs) l m h k = elim (Bool-cases (uses_null c l)) [
  | inl u ↦ rw u h
  | inr u ↦ rw u (
      perform_all-black_list now j cs (carried_out now c l) m h
        (carried_out-black_list now j c l k))
]

module _ (program : ℕ → CBaseEventLoop → List Call × Bool) (now : ℕ) where
  run_timer-black_list :
      (j k : ℕ) (l : CBaseEventLoop)
      → mem j l.black_list ≡ true
      → mem j (run_timer (calling now program) now k l).black_list ≡ true
  unfolding run_timer
  run_timer-black_list j k l m =
      let after = or_else l (perform_all now (program k l).0 l) in
      ground (
        arith,
        perform_all-black_list now j (program k l).0 l l m m,
        remove_timer-black_list now j k after,
      )

  run_timers-black_list :
      (j : ℕ) (ks : List ℕ) (l : CBaseEventLoop)
      → mem j l.black_list ≡ true
      → mem j (run_timers (calling now program) now ks l).1.black_list ≡ true
  unfolding run_timers
  run_timers-black_list j [] l m = m
  run_timers-black_list j (k ∷ ks) l m = ground (
    arith,
    run_timers-black_list j ks l m,
    run_timers-black_list j ks (run_timer (calling now program) now k l)
        (run_timer-black_list j k l m),
  )

  ran_or_removed :
      (j : ℕ) (ks : List ℕ) (l : CBaseEventLoop)
      → mem j ks ≡ true
      → (mem j (run_timers (calling now program) now ks l).0 ≡ true)
        ⊎ (mem j (run_timers (calling now program) now ks l).1.black_list ≡ true)
  unfolding run_timers mem timer_destroyed
  ran_or_removed j [] l m = absurd (ground (arith, m))
  ran_or_removed j (k ∷ ks) l m = elim (Bool-cases (mem k l.black_list)) [
    | inl e ↦ rw e (elim (Bool-cases (k == j)) [
      | inl hit ↦ inr (run_timers-black_list j ks l (ground (arith, hit, e)))
      | inr miss ↦ ran_or_removed j ks l (ground (arith, m, miss))
    ])
    | inr e ↦ rw e (elim (Bool-cases (k == j)) [
      | inl hit ↦ inl (ground (arith, hit))
      | inr miss ↦ ground (
        arith,
        miss,
        ran_or_removed j ks (run_timer (calling now program) now k l) (ground (arith, m, miss)),
      )
    ])
  ]

module _ (now : ℕ) (l : CBaseEventLoop) (s : IsSound l) where
  mem-due :
      (j : ℕ)
      → mem j (timed_out now (expires_at l) l.working)
        ≡ ((l.objects j).enabled && leb (expires_at l j) now)
  mem-due j = ground (arith, mem-timed_out now (expires_at l) j l.working s.ordered, s.exact j)

  due-NoRepeat : NoRepeat (timed_out now (expires_at l) l.working)
  due-NoRepeat = timed_out-NoRepeat now (expires_at l) l.working s.ordered s.working_once

  -- In a sound event loop, rescheduling the timers that have expired sets each timer that was on and has
  -- expired to expire an interval from now if it repeats and has one, and switches it off otherwise; every
  -- other timer is unchanged.
  pub reschedule-due :
      (j : ℕ)
      → (reschedule now (timed_out now (expires_at l) l.working) l).objects j ≡ (
          if (l.objects j).enabled && leb (l.objects j).expiration now
          then rescheduled now (l.objects j)
          else l.objects j)
  reschedule-due j = ground (
    arith,
    reschedule-objects now j (timed_out now (expires_at l) l.working) l due-NoRepeat,
    mem-due j,
  )

  process_due-ran :
      (run : ℕ → CBaseEventLoop → CBaseEventLoop × Bool) (ks : List ℕ)
      → (process_due run now ks l).0
        ≡ (run_timers run now ks (reschedule now ks (begin_timer_black_list l))).0
  unfolding process_due run_timers
  process_due-ran run [] = refl
  process_due-ran run (k ∷ ks) = refl

  -- In a sound event loop, whatever calls the timers make: each timer runs at most once, only timers run
  -- that were on and have expired, and each of these runs or has been removed by the end of the round.
  pub process_timers-runs :
      (program : ℕ → CBaseEventLoop → List Call × Bool)
      → NoRepeat (process_timers (calling now program) now l).0
        × ((j : ℕ)
            → mem j (process_timers (calling now program) now l).0 ≡ true
            → (l.objects j).enabled && leb (l.objects j).expiration now ≡ true)
        × ((j : ℕ)
            → (l.objects j).enabled && leb (l.objects j).expiration now ≡ true
            → (mem j (process_timers (calling now program) now l).0 ≡ true)
              ⊎ (mem j
                    (run_timers (calling now program) now (timed_out now (expires_at l) l.working) (
                      reschedule now
                        (timed_out now (expires_at l) l.working)
                        (begin_timer_black_list l))).1.black_list
                  ≡ true))
  unfolding process_timers
  process_timers-runs program =
      let tos = timed_out now (expires_at l) l.working in
      let started = reschedule now tos (begin_timer_black_list l) in
      rw (process_due-ran (calling now program) tos) (
        run_timers-NoRepeat (calling now program) now tos started due-NoRepeat,
        (λ j m. sym (mem-due j) ∙ ran_is_due (calling now program) now j tos started m),
        (λ j d. ran_or_removed program now j tos started (mem-due j ∙ d)),
      )

  -- In a sound event loop whose timers are not being processed, if no timer that runs removes one or
  -- throws, exactly the timers that were on and have expired run, each once and in the order in which they
  -- expire.
  pub process_timers-quiet :
      (run : ℕ → CBaseEventLoop → CBaseEventLoop × Bool)
      → ((k : ℕ) (m : CBaseEventLoop)
          → ((run k m).0.black_list ≡ m.black_list) × ((run k m).1 ≡ false))
      → l.recursive_cnt ≡ 0
      → ((j : ℕ)
          → mem j (process_timers run now l).0
            ≡ ((l.objects j).enabled && leb (l.objects j).expiration now))
        × NoRepeat (process_timers run now l).0
        × Ordered (expires_at l) (process_timers run now l).0
  unfolding process_timers begin_timer_black_list
  process_timers-quiet run quiet idle =
      let tos = timed_out now (expires_at l) l.working in
      let started = reschedule now tos (begin_timer_black_list l) in
      let empty : started.black_list ≡ [] =
        reschedule-black_list now tos (begin_timer_black_list l) ∙ ground (arith, idle) in
      rw (process_due-ran run tos, run_timers-quiet run now quiet tos started empty)
        (mem-due, due-NoRepeat, timed_out-Ordered now (expires_at l) l.working s.ordered)
