-- ===== src/EventLoop/Waits.antt =====
-- How long an event loop waits (`CBaseEventLoop::getMostRecentTime` of worker/CBaseEventLoop.cpp), and
-- the same from a search of all the timers of the loop.
use fdbus.Prelude.{
  ℕ, ◌+◌, ◌-◌, ◌≤◌, ◌<◌, ◌≡◌, inl, inr, refl, sym, ◌∙◌, ap, arith, ltb, ◌==◌, if◌then◌else◌, true,
  false, Option, none, some, List, [], ◌∷◌, Bool-cases, Option-cases, List-cases, subst,
}
use fdbus.EventLoop.{
  CSysLoopTimer, CBaseEventLoop, mem, get_most_recent_time, wait_forever, expires_at,
}
use fdbus.EventLoop.Order.{Ordered}
use fdbus.EventLoop.Invariant.{IsSound}

abbrev lesser : ℕ → Option ℕ → ℕ
lesser a none = a
lesser a (some b) = if ltb a b then a else b

-- When the first of the timers that are on expires.
abbrev pub soonest : (ℕ → CSysLoopTimer) → List ℕ → Option ℕ
soonest objects [] = none
soonest objects (k ∷ ks) =
    let rest = soonest objects ks in
    if (objects k).enabled then some (lesser (objects k).expiration rest) else rest

abbrev pub wait_until : ℕ → Option ℕ → ℕ
wait_until now none = wait_forever
wait_until now (some e) = e - now

module _ (objects : ℕ → CSysLoopTimer) where
  soonest-none :
      (ks : List ℕ)
      → ((j : ℕ) → mem j ks ≡ true → (objects j).enabled ≡ false)
      → soonest objects ks ≡ none
  unfolding mem
  soonest-none [] h = refl
  soonest-none (k ∷ ks) h =
      ground (arith, h k (ground arith), soonest-none ks (λ j m. h j (ground (arith, m))))

  lesser-soonest :
      (e : ℕ) (ks : List ℕ)
      → ((j : ℕ) → mem j ks ≡ true → (objects j).enabled ≡ true → e ≤ (objects j).expiration)
      → lesser e (soonest objects ks) ≡ e
  unfolding mem
  lesser-soonest e [] h = refl
  lesser-soonest e (k ∷ ks) h =
      let ih = lesser-soonest e ks (λ j m. h j (ground (arith, m))) in
      elim (Option-cases (soonest objects ks)) [
        | inl none_on ↦ ground (arith, h k, none_on)
        | inr (b, on) ↦ ground (arith, h k, on, ih)
      ]

  soonest-some :
      (k : ℕ) (ks : List ℕ)
      → mem k ks ≡ true
      → (objects k).enabled ≡ true
      → ((j : ℕ)
          → mem j ks ≡ true
          → (objects j).enabled ≡ true
          → (objects k).expiration ≤ (objects j).expiration)
      → soonest objects ks ≡ some (objects k).expiration
  unfolding mem
  soonest-some k [] m on h = absurd (ground (arith, m))
  soonest-some k (x ∷ ks) m on h = elim (Bool-cases (x == k)) [
    | inl hit ↦
        let rest = lesser-soonest (objects k).expiration ks (λ j i. h j (ground (arith, i))) in
        ground (arith, hit, on, rest)
    | inr miss ↦
        let ih = soonest-some k ks (ground (arith, m, miss)) on (λ j i. h j (ground (arith, i))) in
        ground (arith, ih, h x)
  ]

first_is_least :
    (f : ℕ → ℕ) (k j : ℕ) (ks : List ℕ) → Ordered f (k ∷ ks) → mem j (k ∷ ks) ≡ true → f k ≤ f j
unfolding mem
first_is_least f k j ks h m = ground (arith, h.0 j, m)

module _ (now : ℕ) (l : CBaseEventLoop) (s : IsSound l) where
  wait_none :
      l.working ≡ [] → get_most_recent_time now l ≡ wait_until now (soonest l.objects l.timer_list)
  unfolding get_most_recent_time mem
  wait_none e =
      rw (e, soonest-none l.objects l.timer_list (λ j m. ground (arith, s.exact j, e))) refl

  wait_some :
      (k : ℕ) (ks : List ℕ)
      → l.working ≡ k ∷ ks
      → (l.objects k).expiration < now + 2147483648
      → get_most_recent_time now l ≡ wait_until now (soonest l.objects l.timer_list)
  unfolding get_most_recent_time mem
  wait_some k ks e soon =
      let on : (l.objects k).enabled ≡ true = ground (arith, s.exact k, e) in
      let ordered = subst (Ordered (expires_at l)) e s.ordered in
      let least = soonest-some l.objects k l.timer_list (s.listed k ∙ s.owned k on) on (λ j m jon.
        first_is_least (expires_at l) k j ks ordered (ap (mem j) (sym e) ∙ s.exact j ∙ jon)) in
      rw (e, least) (ground (arith, soon))

  -- In a sound event loop whose timers that are on expire less than 2 ^ 31 milliseconds from now, the time
  -- to wait is what a search of all timers of the loop gives: until the first of them that are on expires,
  -- and for ever if none is on.
  pub get_most_recent_time-soonest :
      ((k : ℕ) → (l.objects k).enabled ≡ true → (l.objects k).expiration < now + 2147483648)
      → get_most_recent_time now l ≡ wait_until now (soonest l.objects l.timer_list)
  unfolding mem
  get_most_recent_time-soonest soon = elim (List-cases l.working) [
    | inl e ↦ wait_none e
    | inr (k, ks, e) ↦ wait_some k ks e (soon k (ground (arith, s.exact k, e)))
  ]
