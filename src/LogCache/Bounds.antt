-- ===== src/LogCache/Bounds.antt =====
-- The size that the cache counts, the bound that it keeps, and what it throws away.
use fdbus.Prelude.{
  ℕ, suc, ◌+◌, ◌^◌, ◌<◌, ◌≤◌, ◌≡◌, ◌≢◌, ap, ◌∙◌, ◌⊎◌, inl, inr, true, false, List, [], ◌∷◌, ◌++◌,
  arith, length, drop, Bool-cases, if◌then◌else◌, if_true, if_false, take, ◌==◌, ◌||◌,
}
use fdbus.LogCache.{LogCache, pop_until, mark_full, append, push, resize, exceeds}
use fdbus.LogCache.Loop.{total, total-append, Popped, Stopped, pop_until-ends}

module _ (item_size : ℕ) where
  -- The counted size is that of the records, and only a single record may exceed the maximum.
  pub record IsSound (c : LogCache) : Type 0 where
    pub counted : c.cache_size ≡ total item_size c.cache
    pub bounded : (c.cache_size ≤ c.max_size) ⊎ (length c.cache ≤ 1)
    pub small : c.cache_size ≤ 2 ^ 30

  append-IsSound :
      (log_data : List ℕ) (size code : ℕ) (c : LogCache)
      → c.cache_size ≡ total item_size c.cache
      → c.cache_size ≤ 2 ^ 30
      → c.max_size ≤ 2 ^ 30
      → size + item_size < 2 ^ 30
      → Stopped item_size (size + item_size) c.max_size c
      → IsSound (append item_size log_data size code c)
  unfolding append
  append-IsSound log_data size code c h k l m stopped = record {
    counted = omega (
      arith,
      total-append item_size c.cache
          (record { log_data = take size log_data; size = size; code = code; id = c.data_id } ∷ []),
    );
    bounded = elim stopped [ inl room ↦ inl (omega arith) | inr e ↦ inr rw e (omega arith) ];
    small = elim stopped [
      | inl room ↦ omega arith
      | inr e ↦ omega (arith, ap (total item_size) e, h)
    ];
  }

  Stopped-limit :
      (need : ℕ) (c d : LogCache)
      → Popped item_size c d
      → Stopped item_size need c.max_size d
      → Stopped item_size need d.max_size d
  Stopped-limit need c d p (inl room) = inl (omega (arith, p.limits.0))
  Stopped-limit need c d p (inr e) = inr e

  Stopped-size :
      (limit : ℕ) (d : LogCache)
      → d.cache_size ≡ total item_size d.cache
      → Stopped item_size 0 limit d
      → d.cache_size ≤ limit
  Stopped-size limit d h (inl room) = omega arith
  Stopped-size limit d h (inr e) = omega (arith, ap (total item_size) e)

  made_room : ℕ → LogCache → LogCache
  made_room need c = pop_until item_size (λ d. true) need c.max_size (suc (length c.cache)) c

  push-keep :
      (log_data : List ℕ) (size code : ℕ) (c : LogCache)
      → (c.max_size == 0 || size == 0) ≡ false
      → c.stop_if_full ≡ false
      → push item_size log_data size code c
        ≡ append item_size log_data size code (made_room (size + item_size) c)
  unfolding push made_room
  push-keep log_data size code c some keep = if_false _ _ some ∙ if_false _ _ keep

  push-stop :
      (log_data : List ℕ) (size code : ℕ) (c : LogCache)
      → (c.max_size == 0 || size == 0) ≡ false
      → c.stop_if_full ≡ true
      → push item_size log_data size code c ≡ (
          if exceeds c.max_size (size + item_size) c.cache_size
          then mark_full item_size c
          else append item_size log_data size code c)
  unfolding push
  push-stop log_data size code c some stop = if_false _ _ some ∙ if_true _ _ stop

  push-none :
      (log_data : List ℕ) (size code : ℕ) (c : LogCache)
      → (c.max_size == 0 || size == 0) ≡ true
      → push item_size log_data size code c ≡ c
  unfolding push
  push-none log_data size code c none = if_true _ _ none

  made_room-ends :
      (need : ℕ) (c : LogCache)
      → c.cache_size ≡ total item_size c.cache
      → c.cache_size + need < 2 ^ 31
      → Popped item_size c (made_room need c) × Stopped item_size need c.max_size (made_room need c)
  unfolding made_room
  made_room-ends need c h k =
      pop_until-ends item_size (λ d. true) need c.max_size (suc (length c.cache)) c h k
        (omega arith)

  stop-IsSound :
      (log_data : List ℕ) (size code : ℕ) (c : LogCache)
      → IsSound c
      → c.max_size ≤ 2 ^ 30
      → size + item_size < 2 ^ 30
      → IsSound (
          if exceeds c.max_size (size + item_size) c.cache_size
          then mark_full item_size c
          else append item_size log_data size code c)
  unfolding mark_full
  stop-IsSound log_data size code c sound l m =
      elim (Bool-cases (exceeds c.max_size (size + item_size) c.cache_size)) [
        | inl over ↦
            rw over
              (record { counted = sound.counted; bounded = sound.bounded; small = sound.small })
        | inr fits ↦ rw fits (
            append-IsSound log_data size code c sound.counted sound.small l m
              (inl (ground (arith, fits, sound.small))))
      ]

  -- Whatever record is pushed into a sound log cache, where the maximum is at most 2 ^ 30 and the record
  -- with what is kept with it is smaller than that, the cache stays sound: the counted size is the size of
  -- the records and at most 2 ^ 30, and the cache is within its maximum or holds at most a single record.
  pub push-IsSound :
      (log_data : List ℕ) (size code : ℕ) (c : LogCache)
      → IsSound c
      → c.max_size ≤ 2 ^ 30
      → size + item_size < 2 ^ 30
      → IsSound (push item_size log_data size code c)
  push-IsSound log_data size code c sound l m =
      let (popped, stopped) =
        made_room-ends (size + item_size) c sound.counted (omega (arith, sound.small)) in
      elim (Bool-cases (c.max_size == 0 || size == 0)) [
        | inl none ↦ rw (push-none log_data size code c none) sound
        | inr some ↦ elim (Bool-cases c.stop_if_full) [
          | inr keep ↦ rw (push-keep log_data size code c some keep) (
              append-IsSound log_data size code _ popped.counted
                (omega (arith, popped.smaller, sound.small)) (omega (arith, popped.limits.0)) m
                (Stopped-limit _ c _ popped stopped))
          | inl stop ↦
              rw (push-stop log_data size code c some stop)
                (stop-IsSound log_data size code c sound l m)
        ]
      ]

  appended-eq :
      (log_data : List ℕ) (size code : ℕ) (c d : LogCache) (p : Popped item_size c d)
      → (append item_size log_data size code d).cache
        ≡ drop p.dropped c.cache
          ++ record { log_data = take size log_data; size = size; code = code; id = c.data_id } ∷ []
  unfolding append
  appended-eq log_data size code c d p = rw (p.suffix, p.limits.2)

  -- A sound cache with a positive maximum that does not stop when it is full takes every record of a
  -- positive size: the new record is the last of the cache, and what is left before it is the old cache
  -- without some of its oldest records.
  pub push-takes :
      (log_data : List ℕ) (size code : ℕ) (c : LogCache)
      → IsSound c
      → (c.max_size == 0 || size == 0) ≡ false
      → c.stop_if_full ≡ false
      → size + item_size < 2 ^ 30
      → (k : ℕ) × ((push item_size log_data size code c).cache
          ≡ drop k c.cache
            ++ record { log_data = take size log_data; size = size; code = code; id = c.data_id }
              ∷ [])
  push-takes log_data size code c sound some keep m =
      let (popped, stopped) =
        made_room-ends (size + item_size) c sound.counted (omega (arith, sound.small)) in
      (
        popped.dropped,
        ap (λ d. d.cache) (push-keep log_data size code c some keep)
            ∙ appended-eq log_data size code c _ popped,
      )

  -- A new maximum of a sound cache, different from the old one, holds at once: afterwards the size of the
  -- records, which the cache counts, is within it, and what is left is the old cache without some of its
  -- oldest records.
  pub resize-bounds :
      (max_size : ℕ) (c : LogCache)
      → IsSound c
      → max_size ≢ c.max_size
      → ((resize item_size max_size c).cache_size ≤ max_size)
        × ((resize item_size max_size c).cache_size
            ≡ total item_size (resize item_size max_size c).cache)
        × (k : ℕ) × ((resize item_size max_size c).cache ≡ drop k c.cache)
  unfolding resize
  resize-bounds max_size c sound differs =
      let (popped, stopped) =
        pop_until-ends item_size (λ d. d.full) 0 max_size (suc (length c.cache)) c sound.counted
          (omega (arith, sound.small)) (omega arith) in
      let new : (max_size == c.max_size) ≡ false = ground arith in
      rw new (
        Stopped-size _ (pop_until item_size (λ d. d.full) 0 max_size (suc (length c.cache)) c)
            popped.counted stopped,
        popped.counted,
        popped.dropped,
        popped.suffix,
      )
