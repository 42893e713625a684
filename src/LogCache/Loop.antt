-- ===== src/LogCache/Loop.antt =====
-- The loop of the log cache: what its rounds do, and where it stops.
use fdbus.Prelude.{
  ℕ, zero, suc, ◌+◌, ◌^◌, ◌≤◌, ◌<◌, ◌≡◌, refl, ◌∙◌, ◌⊎◌, inl, inr, Bool, true, false, List, [], ◌∷◌,
  ◌++◌, arith, length, length-drop, drop, Bool-cases,
}
use fdbus.LogCache.{
  DataItem, LogCache, is_empty, pop_one_of, pop_one, pop_until, exceeds, taken_off,
}

module _ (item_size : ℕ) where
  abbrev pub total : List DataItem → ℕ
  total [] = 0
  total (item ∷ items) = (item.size + item_size) + total items

  pub total-append : (xs ys : List DataItem) → total (xs ++ ys) ≡ total xs + total ys
  total-append [] ys = omega arith
  total-append (x ∷ xs) ys = omega (arith, total-append xs ys)

  -- What rounds of the loop do: records go from the front, and the rest of the cache stays.
  pub record Popped (c d : LogCache) : Type 0 where
    pub counted : d.cache_size ≡ total d.cache
    pub smaller : d.cache_size ≤ c.cache_size
    pub limits :
        (d.max_size ≡ c.max_size) × (d.stop_if_full ≡ c.stop_if_full) × (d.data_id ≡ c.data_id)
    pub dropped : ℕ
    pub suffix : d.cache ≡ drop dropped c.cache

  drop_one : LogCache → LogCache
  drop_one c = record c { cache = drop 1 c.cache; cache_size = total (drop 1 c.cache) }

  pop_one_of-eq :
      (xs : List DataItem) (c : LogCache)
      → c.cache ≡ xs
      → c.cache_size ≡ total xs
      → c.cache_size < 2 ^ 31
      → pop_one_of item_size xs c ≡ record c { cache = drop 1 xs; cache_size = total (drop 1 xs) }
  unfolding pop_one_of
  pop_one_of-eq [] c e h k = ground arith
  pop_one_of-eq (x ∷ xs) c e h k =
      let left : taken_off (x.size + item_size) c.cache_size ≡ total xs = omega arith in
      ground (arith, left)

  pop_one-eq :
      (c : LogCache)
      → c.cache_size ≡ total c.cache
      → c.cache_size < 2 ^ 31
      → pop_one item_size c ≡ drop_one c
  unfolding pop_one drop_one
  pop_one-eq c h k = pop_one_of-eq c.cache c refl h k

  Popped-none : (c : LogCache) → c.cache_size ≡ total c.cache → Popped c c
  Popped-none c h = record {
    counted = h;
    smaller = omega arith;
    limits = (refl, refl, refl);
    dropped = 0;
    suffix = refl;
  }

  flagged : (LogCache → Bool) → LogCache → LogCache
  flagged flag c = drop_one (record c { full = flag c })

  drop-suc : (n : ℕ) (xs : List DataItem) → drop n (drop 1 xs) ≡ drop (suc n) xs
  drop-suc zero [] = refl
  drop-suc (suc n) [] = refl
  drop-suc n (x ∷ xs) = refl

  total-drop : (xs : List DataItem) → total (drop 1 xs) ≤ total xs
  total-drop [] = omega arith
  total-drop (x ∷ xs) = omega arith

  Popped-next :
      (flag : LogCache → Bool) (c d : LogCache)
      → c.cache_size ≡ total c.cache
      → Popped (flagged flag c) d
      → Popped c d
  unfolding flagged drop_one
  Popped-next flag c d h p = record {
    counted = p.counted;
    smaller = omega (arith, p.smaller, total-drop c.cache, h);
    limits = p.limits;
    dropped = suc p.dropped;
    suffix = p.suffix ∙ drop-suc p.dropped c.cache;
  }

  -- Where the loop stops: there is room, or nothing is left.
  abbrev pub Stopped : ℕ → ℕ → LogCache → Type 0
  Stopped need limit d = (d.cache_size + need ≤ limit) ⊎ (d.cache ≡ [])

  is_empty-eq : (xs : List DataItem) → is_empty xs ≡ true → xs ≡ []
  is_empty-eq [] h = refl
  is_empty-eq (x ∷ xs) h = ground arith

  length-flagged :
      (flag : LogCache → Bool) (c : LogCache) (fuel : ℕ)
      → length c.cache < suc fuel
      → is_empty (flagged flag c).cache ≡ false
      → length (flagged flag c).cache < fuel
  unfolding flagged drop_one
  length-flagged flag c fuel h e = ground (arith, length-drop 1 c.cache)

  pop_one-flagged :
      (flag : LogCache → Bool) (c : LogCache)
      → c.cache_size ≡ total c.cache
      → c.cache_size < 2 ^ 31
      → pop_one item_size (record c { full = flag c }) ≡ flagged flag c
  unfolding flagged
  pop_one-flagged flag c h k = pop_one-eq (record c { full = flag c }) h k

  flagged-smaller :
      (flag : LogCache → Bool) (c : LogCache)
      → c.cache_size ≡ total c.cache
      → (flagged flag c).cache_size ≤ c.cache_size
  unfolding flagged drop_one
  flagged-smaller flag c h = omega (arith, total-drop c.cache)

  flagged-counted :
      (flag : LogCache → Bool) (c : LogCache)
      → (flagged flag c).cache_size ≡ total (flagged flag c).cache
  unfolding flagged drop_one
  flagged-counted flag c = refl

  pub pop_until-ends :
      (flag : LogCache → Bool) (need limit fuel : ℕ) (c : LogCache)
      → c.cache_size ≡ total c.cache
      → c.cache_size + need < 2 ^ 31
      → length c.cache < fuel
      → Popped c (pop_until item_size flag need limit fuel c)
        × Stopped need limit (pop_until item_size flag need limit fuel c)
  unfolding pop_until
  pop_until-ends flag need limit zero c h k f = absurd (omega (arith, f))
  pop_until-ends flag need limit (suc fuel) c h k f =
      elim (Bool-cases (exceeds limit need c.cache_size)) [
        | inr e ↦ rw e (Popped-none c h, inl (ground arith))
        | inl e ↦
            rw (e, pop_one-flagged flag c h (omega arith))
              (elim (Bool-cases (is_empty (flagged flag c).cache)) [
                | inl gone ↦ rw gone (
                  Popped-next flag c _ h (Popped-none _ (flagged-counted flag c)),
                  inr (is_empty-eq _ gone),
                )
                | inr some_left ↦
                    let (popped, stopped) =
                      pop_until-ends flag need limit fuel (flagged flag c) (flagged-counted flag c)
                        (omega (arith, flagged-smaller flag c h))
                        (length-flagged flag c fuel f some_left) in
                    rw some_left (Popped-next flag c _ h popped, stopped)
              ])
      ]
