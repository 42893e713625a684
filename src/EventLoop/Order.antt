-- ===== src/EventLoop/Order.antt =====
-- The working list: insertion and removal keep its order and change what it holds at one timer.
use fdbus.Prelude.{
  ℕ, ◌≤◌, ◌≡◌, inl, inr, refl, arith, ltb, leb, ◌==◌, if◌then◌else◌, true, false, List, [], ◌∷◌,
  ◌++◌, ◌&&◌, Bool-cases,
}
use fdbus.EventLoop.{mem, remove_value, insert_working, timed_out}

pub mem-append : (j : ℕ) (xs ys : List ℕ) → mem j (xs ++ ys) ≡ (if mem j xs then true else mem j ys)
unfolding mem
mem-append j [] ys = refl
mem-append j (x ∷ xs) ys = ground (arith, mem-append j xs ys)

pub mem-insert_working :
    (f : ℕ → ℕ) (j k : ℕ) (xs : List ℕ)
    → mem j (insert_working f k xs) ≡ (if k == j then true else mem j xs)
unfolding mem insert_working
mem-insert_working f j k [] = refl
mem-insert_working f j k (x ∷ xs) = ground (arith, mem-insert_working f j k xs)

-- No timer stands in the list twice.
abbrev pub NoRepeat : List ℕ → Type 0
NoRepeat [] = Unit
NoRepeat (x ∷ xs) = (mem x xs ≡ false) × NoRepeat xs

-- No timer stands before one that expires earlier.
abbrev pub Ordered : (ℕ → ℕ) → List ℕ → Type 0
Ordered f [] = Unit
Ordered f (x ∷ xs) = ((j : ℕ) → mem j xs ≡ true → f x ≤ f j) × Ordered f xs

pub mem-remove_value :
    (j k : ℕ) (xs : List ℕ)
    → NoRepeat xs
    → mem j (remove_value k xs) ≡ (if k == j then false else mem j xs)
unfolding mem remove_value
mem-remove_value j k [] h = ground arith
mem-remove_value j k (x ∷ xs) h = ground (arith, mem-remove_value j k xs h.1, h.0)

pub remove_value-NoRepeat : (k : ℕ) (xs : List ℕ) → NoRepeat xs → NoRepeat (remove_value k xs)
unfolding remove_value
remove_value-NoRepeat k [] h = tt
remove_value-NoRepeat k (x ∷ xs) h = elim (Bool-cases (x == k)) [
  | inl hit ↦ rw hit h.1
  | inr miss ↦
      rw miss (ground (arith, mem-remove_value x k xs h.1, h.0), remove_value-NoRepeat k xs h.1)
]

pub remove_value-Ordered :
    (f : ℕ → ℕ) (k : ℕ) (xs : List ℕ) → NoRepeat xs → Ordered f xs → Ordered f (remove_value k xs)
unfolding remove_value
remove_value-Ordered f k [] n h = tt
remove_value-Ordered f k (x ∷ xs) n h = elim (Bool-cases (x == k)) [
  | inl hit ↦ rw hit h.1
  | inr miss ↦ rw miss (
    λ j m. h.0 j (ground (arith, mem-remove_value j k xs n.1, m)),
    remove_value-Ordered f k xs n.1 h.1,
  )
]

pub insert_working-NoRepeat :
    (f : ℕ → ℕ) (k : ℕ) (xs : List ℕ)
    → mem k xs ≡ false
    → NoRepeat xs
    → NoRepeat (insert_working f k xs)
unfolding insert_working mem
insert_working-NoRepeat f k [] new h = (refl, tt)
insert_working-NoRepeat f k (x ∷ xs) new h = elim (Bool-cases (ltb (f k) (f x))) [
  | inl hit ↦ rw hit (new, h)
  | inr miss ↦ rw miss (
    ground (arith, mem-insert_working f x k xs, h.0, new),
    insert_working-NoRepeat f k xs (ground (arith, new)) h.1,
  )
]

pub insert_working-Ordered :
    (f : ℕ → ℕ) (k : ℕ) (xs : List ℕ) → Ordered f xs → Ordered f (insert_working f k xs)
unfolding insert_working mem
insert_working-Ordered f k [] h = (λ j m. absurd (ground (arith, m)), tt)
insert_working-Ordered f k (x ∷ xs) h = elim (Bool-cases (ltb (f k) (f x))) [
  | inl hit ↦ rw hit (λ j m. ground (arith, hit, h.0 j, m), h)
  | inr miss ↦ rw miss (
    λ j m. ground (arith, miss, h.0 j, m, mem-insert_working f j k xs),
    insert_working-Ordered f k xs h.1,
  )
]

-- The order only looks at the timers of the list.
pub Ordered-change :
    (f g : ℕ → ℕ) (xs : List ℕ)
    → ((j : ℕ) → mem j xs ≡ true → g j ≡ f j)
    → Ordered f xs
    → Ordered g xs
unfolding mem
Ordered-change f g [] e h = tt
Ordered-change f g (x ∷ xs) e h = (
  λ j m. ground (arith, h.0 j m, e x (ground arith), e j (ground (arith, m))),
  Ordered-change f g xs (λ j m. e j (ground (arith, m))) h.1,
)

-- In an ordered list the timers that have expired are a prefix.
pub mem-timed_out :
    (now : ℕ) (f : ℕ → ℕ) (j : ℕ) (xs : List ℕ)
    → Ordered f xs
    → mem j (timed_out now f xs) ≡ (mem j xs && leb (f j) now)
unfolding mem timed_out
mem-timed_out now f j [] h = refl
mem-timed_out now f j (x ∷ xs) h = ground (arith, mem-timed_out now f j xs h.1, h.0 j)

pub append-NoRepeat :
    (k : ℕ) (xs : List ℕ) → mem k xs ≡ false → NoRepeat xs → NoRepeat (xs ++ k ∷ [])
unfolding mem
append-NoRepeat k [] new h = (refl, tt)
append-NoRepeat k (x ∷ xs) new h = (
  ground (arith, mem-append x xs (k ∷ []), h.0, new),
  append-NoRepeat k xs (ground (arith, new)) h.1,
)
