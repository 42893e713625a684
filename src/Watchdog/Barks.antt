-- ===== src/Watchdog/Barks.antt =====
-- When a dog barks (fdbus/CFdbWatchdog.cpp).
use fdbus.Prelude.{
  ℕ, zero, suc, ◌-◌, ◌≤◌, ◌≡◌, inl, inr, refl, ◌∙◌, ap, arith, ◌==◌, ltb, leb, ◌||◌, ◌%◌, if_true,
  ◌≢◌, if◌then◌else◌, Bool, true, false, ◌&&◌, Option, none, some, List, [], ◌∷◌, Bool-cases,
  Option-cases,
}
use fdbus.Prelude.Map.{Map, find, insert, nat_eq, Distinct, find-insert, insert-Distinct}
use fdbus.Watchdog.{
  Dog, reset, Watchdog, Event, bark, kick, feed_dog, turn, run_dogs, run, exists_alive,
  does_not_exist, exists_dead, query_dog, status_of,
}

abbrev is_bark : ℕ → Event → Bool
is_bark sid (bark j) = j == sid
is_bark sid (kick j) = false

abbrev pub barks : ℕ → List Event → Bool
barks sid [] = false
barks sid (e ∷ es) = if is_bark sid e then true else barks sid es

abbrev turned : Option Dog → Option Dog
turned none = none
turned (some dog) = some (turn dog).0

abbrev due : Option Dog → Bool
due none = false
due (some dog) = dog.retries == 0

find-run_dogs :
    (alive : ℕ → Bool) (sid : ℕ) (dogs : Map ℕ Dog)
    → find sid (run_dogs alive dogs).0 ≡ (if alive sid then turned (find sid dogs) else none)
unfolding run_dogs find
find-run_dogs alive sid [] = ground arith
find-run_dogs alive sid ((j, dog) ∷ rest) = ground (arith, find-run_dogs alive sid rest)

-- Some n runs of the watchdog, in which the same sessions are alive.
abbrev pub runs : (ℕ → Bool) → ℕ → Watchdog → Watchdog
runs alive zero w = w
runs alive (suc n) w = (run alive (runs alive n w)).0

barks-run_dogs :
    (alive : ℕ → Bool) (sid : ℕ) (dogs : Map ℕ Dog)
    → Distinct dogs
    → barks sid (run_dogs alive dogs).1 ≡ (alive sid && due (find sid dogs))
unfolding run_dogs find
barks-run_dogs alive sid [] h = ground arith
barks-run_dogs alive sid ((j, dog) ∷ rest) h =
    ground (arith, barks-run_dogs alive sid rest h.1, h.0)

run_dogs-Distinct :
    (alive : ℕ → Bool) (dogs : Map ℕ Dog) → Distinct dogs → Distinct (run_dogs alive dogs).0
unfolding run_dogs
run_dogs-Distinct alive [] h = tt
run_dogs-Distinct alive ((j, dog) ∷ rest) h = elim (Bool-cases (alive j)) [
  | inl e ↦ rw e (ground (arith, find-run_dogs alive j rest, h.0), run_dogs-Distinct alive rest h.1)
  | inr e ↦ rw e (run_dogs-Distinct alive rest h.1)
]

runs-Distinct :
    (alive : ℕ → Bool) (n : ℕ) (w : Watchdog) → Distinct w.dogs → Distinct (runs alive n w).dogs
unfolding run
runs-Distinct alive zero w h = h
runs-Distinct alive (suc n) w h =
    run_dogs-Distinct alive (runs alive n w).dogs (runs-Distinct alive n w h)

module _ (alive : ℕ → Bool) (sid : ℕ) (here : alive sid ≡ true) where
  -- Until it is out of retries, a dog loses one in each run.
  find-runs :
      (n : ℕ) (w : Watchdog) (dog : Dog)
      → find sid w.dogs ≡ some dog
      → n ≤ dog.retries
      → find sid (runs alive n w).dogs ≡ some (record dog { retries = dog.retries - n })
  unfolding run
  find-runs zero w dog e h = ground (arith, e)
  find-runs (suc n) w dog e h = ground (
    arith,
    here,
    find-runs n w dog e (omega arith),
    find-run_dogs alive sid (runs alive n w).dogs,
  )

  barks-after :
      (n : ℕ) (w : Watchdog) (dog : Dog)
      → Distinct w.dogs
      → find sid w.dogs ≡ some dog
      → n ≤ dog.retries
      → barks sid (run alive (runs alive n w)).1 ≡ (n == dog.retries)
  unfolding run
  barks-after n w dog d e h = ground (
    arith,
    here,
    find-runs n w dog e h,
    barks-run_dogs alive sid (runs alive n w).dogs (runs-Distinct alive n w d),
  )

-- The dog with r retries that is left alone for n runs.
abbrev left_alone : ℕ → Dog → Dog
left_alone n dog =
    if ltb dog.retries n
    then record { retries = 5 - (((n - dog.retries) - 1) % 6); dropped = true }
    else record dog { retries = dog.retries - n }

left_alone-turn : (n : ℕ) (dog : Dog) → (turn (left_alone n dog)).0 ≡ left_alone (suc n) dog
left_alone-turn n dog = ground arith

module _ (alive : ℕ → Bool) (sid : ℕ) (here : alive sid ≡ true) where
  find-left_alone :
      (n : ℕ) (w : Watchdog) (dog : Dog)
      → find sid w.dogs ≡ some dog
      → find sid (runs alive n w).dogs ≡ some (left_alone n dog)
  unfolding run
  find-left_alone zero w dog e = ground (arith, e)
  find-left_alone (suc n) w dog e =
      find-run_dogs alive sid (runs alive n w).dogs
      ∙ (if_true _ _ here
          ∙ (ap turned (find-left_alone n w dog e) ∙ ap some (left_alone-turn n dog)))

  -- A dog of a session that stays alive and is not fed barks first in the run after as many runs as it has
  -- retries, and again in every sixth run after that; it counts as dead from the run after the first bark
  -- on.
  pub run-barks :
      (n : ℕ) (w : Watchdog) (dog : Dog)
      → Distinct w.dogs
      → find sid w.dogs ≡ some dog
      → (barks sid (run alive (runs alive n w)).1
          ≡ (leb dog.retries n && (((n - dog.retries) % 6) == 0)))
        × (query_dog sid (runs alive n w)
            ≡ (if dog.dropped || ltb dog.retries n then exists_dead else exists_alive))
  unfolding run query_dog
  run-barks n w dog d e =
      let now = find-left_alone n w dog e in
      (
        barks-run_dogs alive sid (runs alive n w).dogs (runs-Distinct alive n w d)
            ∙ ground (arith, here, now),
        ap status_of now ∙ ground arith,
      )

  feed_known :
      (w : Watchdog) (dog : Dog)
      → find sid w.dogs ≡ some dog
      → feed_dog sid w ≡ record w { dogs = insert sid (reset w.max_retries) w.dogs }
  unfolding feed_dog
  feed_known w dog e = rw (e, feed_dog) refl

  -- A dog of a session that stays alive barks, after it is fed, in none of as many runs as the watchdog has
  -- retries but in the one after them, and counts as alive until then.
  pub feed_dog-barks :
      (n : ℕ) (w : Watchdog)
      → Distinct w.dogs
      → query_dog sid w ≢ does_not_exist
      → n ≤ w.max_retries
      → (barks sid (run alive (runs alive n (feed_dog sid w))).1 ≡ (n == w.max_retries))
        × (query_dog sid (runs alive n (feed_dog sid w)) ≡ exists_alive)
  unfolding query_dog
  feed_dog-barks n w d known h = elim (Option-cases (find sid w.dogs)) [
    | inl e ↦ absurd (known (ap status_of e))
    | inr (dog, e) ↦
        let fed = record w { dogs = insert sid (reset w.max_retries) w.dogs } in
        let r =
          run-barks n fed (reset w.max_retries) (insert-Distinct sid _ w.dogs d)
            (find-insert sid sid _ w.dogs ∙ ground arith) in
        rw (feed_known w dog e) (r.0 ∙ ground arith, r.1 ∙ ground arith)
  ]
