-- ===== src/EventLoop/Invariant.antt =====
-- What holds between the timers and the two lists of an event loop (worker/CBaseEventLoop.cpp).
use fdbus.Prelude.{
  ℕ, ◌≡◌, inl, inr, refl, sym, subst, ◌∙◌, arith, ltb, Bool, true, false, Bool-cases, if_true,
  if_false,
}
use fdbus.EventLoop.{
  CSysLoopTimer, new_timer, CBaseEventLoop, new_event_loop, mem, remove_value, set_timer,
  switch_off, switch_on, enable_timer, expires_at,
}
use fdbus.EventLoop.Order.{
  mem-insert_working, NoRepeat, Ordered, mem-remove_value, remove_value-NoRepeat,
  remove_value-Ordered, insert_working-NoRepeat, insert_working-Ordered, Ordered-change,
}

-- The working list has every timer that is on once, in the order in which they expire; the timer list
-- has every timer that has the event loop once; a timer that is on has the event loop.
pub record IsSound (l : CBaseEventLoop) : Type 0 where
  pub working_once : NoRepeat l.working
  pub ordered : Ordered (expires_at l) l.working
  pub exact : (j : ℕ) → mem j l.working ≡ (l.objects j).enabled
  pub listed_once : NoRepeat l.timer_list
  pub listed : (j : ℕ) → mem j l.timer_list ≡ (l.objects j).attached
  pub owned : (j : ℕ) → (l.objects j).enabled ≡ true → (l.objects j).attached ≡ true

pub new_event_loop-IsSound :
    (interval : ℕ → ℕ) (rpt : ℕ → Bool)
    → IsSound (new_event_loop (λ j. new_timer (interval j) (rpt j)))
unfolding mem
new_event_loop-IsSound interval rpt = record {
  working_once = tt;
  ordered = tt;
  exact = λ j. refl;
  listed_once = tt;
  listed = λ j. refl;
  owned = λ j e. e;
}

-- A change of a timer that neither switches it nor moves its expiration.
pub set_timer-IsSound :
    (k : ℕ) (t : CSysLoopTimer) (l : CBaseEventLoop)
    → t.expiration ≡ (l.objects k).expiration
    → t.enabled ≡ (l.objects k).enabled
    → t.attached ≡ (l.objects k).attached
    → IsSound l
    → IsSound (record l { objects = set_timer k t l.objects })
unfolding set_timer
set_timer-IsSound k t l e b a s = record {
  working_once = s.working_once;
  ordered =
      Ordered-change (expires_at l) (λ j. (set_timer k t l.objects j).expiration) l.working
        (λ j m. ground (arith, e)) s.ordered;
  exact = λ j. ground (arith, s.exact j, b);
  listed_once = s.listed_once;
  listed = λ j. ground (arith, s.listed j, a);
  owned = λ j on. ground (arith, s.owned j, s.owned k, a, b, on);
}

pub switch_off-IsSound : (k : ℕ) (l : CBaseEventLoop) → IsSound l → IsSound (switch_off k l)
unfolding switch_off set_timer
switch_off-IsSound k l s = elim (Bool-cases (l.objects k).enabled) [
  | inr off ↦ subst IsSound (sym (if_false _ _ off)) s
  | inl on ↦ subst IsSound (sym (if_true _ _ on)) (record {
    working_once = remove_value-NoRepeat k l.working s.working_once;
    ordered =
        Ordered-change (expires_at l)
          (λ j. (set_timer k (record (l.objects k) { enabled = false }) l.objects j).expiration)
          (remove_value k l.working) (λ j m. ground arith)
          (remove_value-Ordered (expires_at l) k l.working s.working_once s.ordered);
    exact = λ j. ground (arith, s.exact j, mem-remove_value j k l.working s.working_once);
    listed_once = s.listed_once;
    listed = λ j. ground (arith, s.listed j);
    owned = λ j e. ground (arith, s.owned j, e);
  })
]

pub switch_on-IsSound :
    (k expiration : ℕ) (l : CBaseEventLoop)
    → (l.objects k).enabled ≡ false
    → (l.objects k).attached ≡ true
    → IsSound l
    → IsSound (switch_on k expiration l)
unfolding switch_on set_timer
switch_on-IsSound k expiration l off att s =
    let t = record (l.objects k) { expiration = expiration; enabled = true } in
    let f : ℕ → ℕ = λ j. (set_timer k t l.objects j).expiration in
    record {
      working_once = insert_working-NoRepeat f k l.working (s.exact k ∙ off) s.working_once;
      ordered = insert_working-Ordered f k l.working (
          Ordered-change (expires_at l) f l.working
            (λ j m. ground (arith, s.exact j, s.exact k, off, m)) s.ordered);
      exact = λ j. ground (arith, s.exact j, mem-insert_working f j k l.working);
      listed_once = s.listed_once;
      listed = λ j. ground (arith, s.listed j);
      owned = λ j e. ground (arith, s.owned j, e, att);
    }

switch_off-disabled : (k : ℕ) (l : CBaseEventLoop) → ((switch_off k l).objects k).enabled ≡ false
unfolding switch_off set_timer
switch_off-disabled k l = ground arith

switch_off-attached :
    (k j : ℕ) (l : CBaseEventLoop) → ((switch_off k l).objects j).attached ≡ (l.objects j).attached
unfolding switch_off set_timer
switch_off-attached k j l = ground arith

-- A timer may be switched off whoever has it, and on if it has the event loop.
pub enable_timer-IsSound :
    (now k : ℕ) (enb : Bool) (start init : ℕ) (l : CBaseEventLoop)
    → (enb ≡ true → (l.objects k).attached ≡ true)
    → IsSound l
    → IsSound (enable_timer now k enb start init l)
unfolding enable_timer
enable_timer-IsSound now k enb start init l att s =
    let off = switch_off-IsSound k l s in
    let on : enb ≡ true → (x : ℕ) → IsSound (switch_on k x (switch_off k l)) = λ e x.
      switch_on-IsSound k x (switch_off k l) (switch_off-disabled k l)
        (switch_off-attached k k l ∙ att e) off in
    elim (Bool-cases enb) [
      | inr e ↦ rw e off
      | inl e ↦ rw e (elim (Bool-cases (ltb 0 init)) [
        | inl i ↦ rw i (on e _)
        | inr i ↦ rw i (elim (Bool-cases (ltb 0 (l.objects k).interval)) [
          | inl n ↦ rw n (on e _)
          | inr n ↦ rw n off
        ])
      ])
    ]
