-- ===== src/EventLoop/Steps.antt =====
-- The calls that change an event loop, made by its owner or by a timer that runs, and `processTimers`
-- (worker/CBaseEventLoop.cpp).
use fdbus.Prelude.{
  ℕ, ◌≡◌, inl, inr, refl, sym, subst, ◌∙◌, ap, ltb, ◌||◌, Option, none, some, Option-cases, arith,
  if◌then◌else◌, Bool, true, false, not, ◌&&◌, List, [], ◌∷◌, ◌++◌, Bool-cases, if_true, if_false,
}
use fdbus.EventLoop.{
  CSysLoopTimer, EEnable, enable, disable, dont_care, set_repeat, new_timer, CBaseEventLoop,
  new_event_loop, mem, set_timer, switch_off, switch_on, enable_timer, config, add_timer, detach,
  remove_timer, remove_timers, uninstall_timers, add_timer_to_blacklist, timed_out, reschedule,
  run_timer, run_timers, process_due, process_timers, begin_timer_black_list, end_timer_black_list,
  expires_at, timer_destroyed,
}
use fdbus.EventLoop.Order.{
  mem-append, Ordered-change, mem-remove_value, remove_value-NoRepeat, append-NoRepeat,
  mem-timed_out,
}
use fdbus.EventLoop.Invariant.{
  IsSound, new_event_loop-IsSound, set_timer-IsSound, enable_timer-IsSound,
}

detach-IsSound :
    (k : ℕ) (l : CBaseEventLoop) → (l.objects k).enabled ≡ false → IsSound l → IsSound (detach k l)
unfolding detach set_timer
detach-IsSound k l off s = record {
  working_once = s.working_once;
  ordered = Ordered-change (expires_at l) _ l.working (λ j m. ground arith) s.ordered;
  exact = λ j. ground (arith, s.exact j);
  listed_once = remove_value-NoRepeat k l.timer_list s.listed_once;
  listed = λ j. ground (arith, s.listed j, mem-remove_value j k l.timer_list s.listed_once);
  owned = λ j e. ground (arith, s.owned j, e, off);
}

-- The lists and the timers are sound whatever the blacklist is.
blacklisted-IsSound :
    (b : List ℕ) (n : ℕ) (l : CBaseEventLoop)
    → IsSound l
    → IsSound (record l { black_list = b; recursive_cnt = n })
blacklisted-IsSound b n l s = record {
  working_once = s.working_once;
  ordered = s.ordered;
  exact = s.exact;
  listed_once = s.listed_once;
  listed = s.listed;
  owned = s.owned;
}

disabled-after :
    (now k : ℕ) (l : CBaseEventLoop) → ((enable_timer now k false 0 0 l).objects k).enabled ≡ false
unfolding enable_timer switch_off set_timer
disabled-after now k l = ground arith

pub remove_timer-IsSound :
    (now k : ℕ) (l : CBaseEventLoop) → IsSound l → IsSound (remove_timer now k l)
unfolding remove_timer add_timer_to_blacklist
remove_timer-IsSound now k l s =
    let marked = add_timer_to_blacklist k l in
    detach-IsSound k (enable_timer now k false 0 0 marked) (disabled-after now k marked) (
      enable_timer-IsSound now k false 0 0 marked (λ e. absurd (ground (arith, e)))
        (blacklisted-IsSound _ l.recursive_cnt l s))

attach_timer-IsSound :
    (k : ℕ) (l : CBaseEventLoop)
    → mem k l.timer_list ≡ false
    → IsSound l
    → IsSound (record l {
      objects = set_timer k (record (l.objects k) { attached = true }) l.objects;
      timer_list = l.timer_list ++ k ∷ [];
    })
unfolding set_timer mem
attach_timer-IsSound k l new s = record {
  working_once = s.working_once;
  ordered = Ordered-change (expires_at l) _ l.working (λ j m. ground arith) s.ordered;
  exact = λ j. ground (arith, s.exact j);
  listed_once = append-NoRepeat k l.timer_list new s.listed_once;
  listed = λ j. ground (arith, s.listed j, mem-append j l.timer_list (k ∷ []));
  owned = λ j e. ground (arith, s.owned j, e);
}

pub add_timer-IsSound :
    (now k : ℕ) (enb : Bool) (l : CBaseEventLoop) → IsSound l → IsSound (add_timer now k enb l)
unfolding add_timer set_timer
add_timer-IsSound now k enb l s = elim (Bool-cases (mem k l.timer_list)) [
  | inl old ↦ subst IsSound (sym (if_true _ _ old)) s
  | inr new ↦
      subst IsSound (sym (if_false _ _ new))
        (enable_timer-IsSound now k enb 0 0 _ (λ e. ground arith) (attach_timer-IsSound k l new s))
]

pub config-IsSound :
    (now k : ℕ) (enb rpt : EEnable) (interval init : ℕ) (l : CBaseEventLoop)
    → (l.objects k).attached ≡ true
    → IsSound l
    → IsSound (config now k enb rpt interval init l)
unfolding config set_timer
config-IsSound now k enable rpt interval init l att s =
    enable_timer-IsSound now k true 0 init _ (λ e. ground (arith, att))
      (set_timer-IsSound k _ l refl refl refl s)
config-IsSound now k disable rpt interval init l att s =
    enable_timer-IsSound now k false 0 0 _ (λ e. ground (arith, e))
      (set_timer-IsSound k _ l refl refl refl s)
config-IsSound now k dont_care rpt interval init l att s = set_timer-IsSound k _ l refl refl refl s

remove_timers-IsSound :
    (now : ℕ) (ks : List ℕ) (l : CBaseEventLoop) → IsSound l → IsSound (remove_timers now ks l)
unfolding remove_timers
remove_timers-IsSound now [] l s = s
remove_timers-IsSound now (k ∷ ks) l s =
    remove_timers-IsSound now ks (remove_timer now k l) (remove_timer-IsSound now k l s)

enable_timer-attached :
    (now k : ℕ) (enb : Bool) (start init j : ℕ) (l : CBaseEventLoop)
    → ((enable_timer now k enb start init l).objects j).attached ≡ (l.objects j).attached
unfolding enable_timer switch_off switch_on set_timer
enable_timer-attached now k enb start init j l = ground arith

reschedule-IsSound :
    (now : ℕ) (ks : List ℕ) (l : CBaseEventLoop)
    → ((j : ℕ) → mem j ks ≡ true → (l.objects j).attached ≡ true)
    → IsSound l
    → IsSound (reschedule now ks l)
unfolding reschedule mem
reschedule-IsSound now [] l att s = s
reschedule-IsSound now (k ∷ ks) l att s =
    reschedule-IsSound now ks (enable_timer now k (l.objects k).repeat now 0 l)
      (λ j m. enable_timer-attached now k _ now 0 j l ∙ att j (ground (arith, m)))
      (enable_timer-IsSound now k _ now 0 l (λ e. att k (ground arith)) s)

module _ (run : ℕ → CBaseEventLoop → CBaseEventLoop × Bool) (now : ℕ)
    (keeps : (k : ℕ) (l : CBaseEventLoop) → IsSound l → IsSound (run k l).0) where
  run_timer-IsSound : (k : ℕ) (l : CBaseEventLoop) → IsSound l → IsSound (run_timer run now k l)
  unfolding run_timer
  run_timer-IsSound k l s = elim (Bool-cases ((run k l).1 && not (timer_destroyed k (run k l).0))) [
    | inl e ↦
        subst IsSound (sym (if_true _ _ e)) (remove_timer-IsSound now k (run k l).0 (keeps k l s))
    | inr e ↦ subst IsSound (sym (if_false _ _ e)) (keeps k l s)
  ]

  run_timers-IsSound :
      (ks : List ℕ) (l : CBaseEventLoop) → IsSound l → IsSound (run_timers run now ks l).1
  unfolding run_timers
  run_timers-IsSound [] l s = s
  run_timers-IsSound (k ∷ ks) l s = elim (Bool-cases (timer_destroyed k l)) [
    | inl e ↦ rw e (run_timers-IsSound ks l s)
    | inr e ↦ rw e (run_timers-IsSound ks (run_timer run now k l) (run_timer-IsSound k l s))
  ]

  process_due-IsSound :
      (ks : List ℕ) (l : CBaseEventLoop)
      → ((j : ℕ) → mem j ks ≡ true → (l.objects j).attached ≡ true)
      → IsSound l
      → IsSound (process_due run now ks l).1
  unfolding process_due begin_timer_black_list end_timer_black_list
  process_due-IsSound [] l att s = s
  process_due-IsSound (k ∷ ks) l att s = blacklisted-IsSound _ _ _ (
      run_timers-IsSound (k ∷ ks) _
        (reschedule-IsSound now (k ∷ ks) _ att (blacklisted-IsSound _ _ l s)))

  pub process_timers-IsSound :
      (l : CBaseEventLoop) → IsSound l → IsSound (process_timers run now l).1
  unfolding process_timers
  process_timers-IsSound l s =
      process_due-IsSound (timed_out now (expires_at l) l.working) l
        (λ j m.
          ground (
            arith,
            mem-timed_out now (expires_at l) j l.working s.ordered,
            s.exact j,
            s.owned j,
            m,
          ))
        s

enable_timer-idle :
    (now k : ℕ) (init : ℕ) (l : CBaseEventLoop)
    → (ltb 0 init || ltb 0 (l.objects k).interval) ≡ false
    → enable_timer now k true 0 init l ≡ enable_timer now k false 0 0 l
unfolding enable_timer
enable_timer-idle now k init l h = ground (arith, h)

-- What a timer, or whoever has the event loop, may call.
pub data Call : Type 0 where
  add : ℕ → Bool → Call
  remove : ℕ → Call
  configure : ℕ → EEnable → EEnable → ℕ → ℕ → Call
  uninstall : Call

abbrev pub and_then :
    (CBaseEventLoop → Option CBaseEventLoop) → Option CBaseEventLoop → Option CBaseEventLoop
and_then f none = none
and_then f (some l) = f l

abbrev pub or_else : CBaseEventLoop → Option CBaseEventLoop → CBaseEventLoop
or_else l none = l
or_else l (some m) = m

no_result : {m : CBaseEventLoop} → ◌≡◌ {A = Option CBaseEventLoop} none (some m) → ⊥
no_result e = absurd (ground (arith, e))

-- Whether `enable(enb, 0, init_value)` goes to the working list of the event loop of a timer.
abbrev pub uses_loop : CSysLoopTimer → Bool → ℕ → Bool
uses_loop t enb init = t.enabled || (enb && (ltb 0 init || ltb 0 t.interval))

abbrev pub configured_uses_loop : CSysLoopTimer → EEnable → ℕ → ℕ → Bool
configured_uses_loop t enable interval init =
    uses_loop (record t { interval = if ltb 0 interval then interval else t.interval }) true init
configured_uses_loop t disable interval init = uses_loop t false init
configured_uses_loop t dont_care interval init = false

unfoldable pub carried_out : ℕ → Call → CBaseEventLoop → CBaseEventLoop
carried_out now (add k enb) l = add_timer now k enb l
carried_out now (remove k) l = remove_timer now k l
carried_out now (configure k enb rpt interval init) l = config now k enb rpt interval init l
carried_out now uninstall l = uninstall_timers now l

-- The use of `mEventLoop` where it is the null pointer: CSysLoopTimer does not test it, and CBaseLoopTimer
-- tests `mWorker`, which stays set when a timer is removed because it throws.
unfoldable pub uses_null : Call → CBaseEventLoop → Bool
uses_null (add k enb) l = false
uses_null (remove k) l = false
uses_null (configure k enb rpt interval init) l =
    not (l.objects k).attached && configured_uses_loop (l.objects k) enb interval init
uses_null uninstall l = false

-- `none` is the end of the program by a null pointer.
unfoldable pub perform : ℕ → Call → CBaseEventLoop → Option CBaseEventLoop
perform now c l = if uses_null c l then none else some (carried_out now c l)

unfoldable pub perform_all : ℕ → List Call → CBaseEventLoop → Option CBaseEventLoop
perform_all now [] l = some l
perform_all now (c ∷ cs) l = and_then (perform_all now cs) (perform now c l)

-- A timer's `run` that makes calls and then may throw. One that uses a null pointer has no result; the
-- event loop stands for it.
abbrev pub calling :
    ℕ → (ℕ → CBaseEventLoop → List Call × Bool) → ℕ → CBaseEventLoop → CBaseEventLoop × Bool
calling now program k l = (or_else l (perform_all now (program k l).0 l), (program k l).1)

-- No timer that runs uses an event loop through a null pointer.
abbrev pub UsesNoNull : ℕ → (ℕ → CBaseEventLoop → List Call × Bool) → Type 0
UsesNoNull now program =
    (k : ℕ) (l : CBaseEventLoop)
    → (m : CBaseEventLoop) × (perform_all now (program k l).0 l ≡ some m)

pub data Step (l : CBaseEventLoop) : CBaseEventLoop → Type 0 where
  call : (now : ℕ) (c : Call) {m : CBaseEventLoop} → perform now c l ≡ some m → Step l m
  process :
      (now : ℕ) (program : ℕ → CBaseEventLoop → List Call × Bool)
      → UsesNoNull now program
      → Step l (process_timers (calling now program) now l).1

pub data Reach (l : CBaseEventLoop) : CBaseEventLoop → Type 0 where
  here : Reach l l
  next : {m n : CBaseEventLoop} → Reach l m → Step m n → Reach l n

-- A timer that has no event loop, and that stays off.
config-idle-IsSound :
    (now k : ℕ) (enb rpt : EEnable) (interval init : ℕ) (l : CBaseEventLoop)
    → configured_uses_loop (l.objects k) enb interval init ≡ false
    → IsSound l
    → IsSound (config now k enb rpt interval init l)
unfolding config set_timer
config-idle-IsSound now k enable rpt interval init l idle s =
    let t = l.objects k in
    let t' = record t {
      repeat = set_repeat rpt t.repeat;
      interval = if ltb 0 interval then interval else t.interval;
    } in
    let set = record l { objects = set_timer k t' l.objects } in
    let quiet : (ltb 0 init || ltb 0 (set.objects k).interval) ≡ false = ground (arith, idle) in
    subst IsSound (sym (enable_timer-idle now k init set quiet)) (
      enable_timer-IsSound now k false 0 0 set (λ e. absurd (ground (arith, e)))
        (set_timer-IsSound k _ l refl refl refl s))
config-idle-IsSound now k disable rpt interval init l idle s =
    enable_timer-IsSound now k false 0 0 _ (λ e. absurd (ground (arith, e)))
      (set_timer-IsSound k _ l refl refl refl s)
config-idle-IsSound now k dont_care rpt interval init l idle s =
    set_timer-IsSound k _ l refl refl refl s

carried_out-IsSound :
    (now : ℕ) (c : Call) (l : CBaseEventLoop)
    → IsSound l
    → uses_null c l ≡ false
    → IsSound (carried_out now c l)
unfolding carried_out uses_null uninstall_timers
carried_out-IsSound now (add k enb) l s safe = add_timer-IsSound now k enb l s
carried_out-IsSound now (remove k) l s safe = remove_timer-IsSound now k l s
carried_out-IsSound now uninstall l s safe = remove_timers-IsSound now l.timer_list l s
carried_out-IsSound now (configure k enb rpt interval init) l s safe =
    elim (Bool-cases (l.objects k).attached) [
      | inl a ↦ config-IsSound now k enb rpt interval init l a s
      | inr a ↦ config-idle-IsSound now k enb rpt interval init l (ground (arith, a, safe)) s
    ]

perform-IsSound :
    (now : ℕ) (c : Call) (l m : CBaseEventLoop) → IsSound l → perform now c l ≡ some m → IsSound m
unfolding perform
perform-IsSound now c l m s e = elim (Bool-cases (uses_null c l)) [
  | inl u ↦ absurd (no_result (sym (if_true none (some (carried_out now c l)) u) ∙ e))
  | inr u ↦
      subst IsSound (ap (or_else l) (sym (if_false none (some (carried_out now c l)) u) ∙ e))
        (carried_out-IsSound now c l s u)
]

perform_all-IsSound :
    (now : ℕ) (cs : List Call) (l m : CBaseEventLoop)
    → IsSound l
    → perform_all now cs l ≡ some m
    → IsSound m
unfolding perform_all
perform_all-IsSound now [] l m s e = subst IsSound (ap (or_else l) e) s
perform_all-IsSound now (c ∷ cs) l m s e = elim (Option-cases (perform now c l)) [
  | inl f ↦ absurd (no_result (ap (and_then (perform_all now cs)) (sym f) ∙ e))
  | inr (n, f) ↦
      perform_all-IsSound now cs n m (perform-IsSound now c l n s f)
        (ap (and_then (perform_all now cs)) (sym f) ∙ e)
]

calling-IsSound :
    (now : ℕ) (program : ℕ → CBaseEventLoop → List Call × Bool) (k : ℕ) (l : CBaseEventLoop)
    → UsesNoNull now program
    → IsSound l
    → IsSound (calling now program k l).0
calling-IsSound now program k l safe s =
    let (m, e) = safe k l in
    subst IsSound (ap (or_else l) (sym e)) (perform_all-IsSound now (program k l).0 l m s e)

Step-IsSound : {l m : CBaseEventLoop} → Step l m → IsSound l → IsSound m
Step-IsSound (call now c e) s = perform-IsSound now c _ _ s e
Step-IsSound (process now program safe) s =
    process_timers-IsSound (calling now program) now
      (λ k m h. calling-IsSound now program k m safe h) _ s

Reach-keeps : {l m : CBaseEventLoop} → IsSound l → Reach l m → IsSound m
Reach-keeps s here = s
Reach-keeps s (next r t) = Step-IsSound t (Reach-keeps s r)

-- Whatever calls and rounds of timers a new event loop has seen, with timers that make calls and throw, as
-- long as none uses the event loop of a timer that has none: its working list has every timer that is on
-- once and in the order in which they expire, its timer list has every attached timer once, and every timer
-- that is on is attached.
pub Reach-IsSound :
    (interval : ℕ → ℕ) (rpt : ℕ → Bool) (l : CBaseEventLoop)
    → Reach (new_event_loop (λ j. new_timer (interval j) (rpt j))) l
    → IsSound l
Reach-IsSound interval rpt l r = Reach-keeps (new_event_loop-IsSound interval rpt) r
