-- ===== src/Prelude/Map/Tidy.antt =====
-- Nested maps with distinct keys and no empty map inside, and the changes that keep them so.
use mathlib.Core.Path.{◌≡◌, refl}
use mathlib.Core.Logic.{◌≢◌, inl, inr}
use mathlib.Core.Option.{none}
use mathlib.Core.List.{List, [], ◌∷◌}
use native.Mathlib.Omega.{arith}
use mathlib.Core.Bool.{false}
use fdbus.Prelude.Tests.{Option-cases, Bool-cases}
use fdbus.Prelude.Map.{
  Eq, Map, find, insert, erase, or_empty, assign_at, put_back, update_at, change_all,
  keep_unless_empty, Distinct, insert-Distinct, erase-Distinct, Values, find-Values, insert-Values,
  erase-Values,
}

abbrev pub Inner : {A : Type 0} → (List A → Type 0) → List A → Type 0
Inner Q inner = (inner ≢ []) × Q inner

abbrev pub Tidy : {K A B : Type 0} ⦃e : Eq K⦄ → (Map A B → Type 0) → Map K (Map A B) → Type 0
Tidy Q m = Distinct m × Values (Inner Q) m

module _ {K V : Type 0} ⦃e : Eq K⦄ where
  pub insert-ne-nil : (k : K) (v : V) (m : Map K V) → insert k v m ≢ []
  unfolding insert
  insert-ne-nil k v [] h = cc
  insert-ne-nil k v ((j, w) ∷ m) h = ground arith

module _ {K A B : Type 0} ⦃e : Eq K⦄ where
  keep_unless_empty-none :
      (j k : K) (inner : Map A B) (m : Map K (Map A B))
      → e.beq k j ≡ false
      → find j m ≡ none
      → find j (keep_unless_empty k inner m) ≡ none
  unfolding find
  keep_unless_empty-none j k [] m miss h = h
  keep_unless_empty-none j k (x ∷ xs) m miss h = rw miss h

  keep_unless_empty-Tidy :
      (Q : Map A B → Type 0) (k : K) (inner : Map A B) (m : Map K (Map A B))
      → Q inner
      → find k m ≡ none
      → Tidy Q m
      → Tidy Q (keep_unless_empty k inner m)
  keep_unless_empty-Tidy Q k [] m q fresh h = h
  keep_unless_empty-Tidy Q k (x ∷ xs) m q fresh h = ((fresh, h.0), (((λ p. cc), q), h.1))

module _ {K A B : Type 0} ⦃e : Eq K⦄ (Q : Map A B → Type 0) (f : Map A B → Map A B)
    (keeps : (inner : Map A B) → Q inner → Q (f inner)) where
  or_empty-holds :
      (k : K) (m : Map K (Map A B)) → Q [] → Values (Inner Q) m → Q (or_empty (find k m))
  or_empty-holds k m base h = elim (Option-cases (find k m)) [
    | inl missing ↦ rw missing base
    | inr (inner, present) ↦ rw present (find-Values (Inner Q) k inner m h present).1
  ]

  pub assign_at-Tidy :
      (k : K) (m : Map K (Map A B))
      → Q []
      → ((inner : Map A B) → f inner ≢ [])
      → Tidy Q m
      → Tidy Q (assign_at k f m)
  unfolding assign_at
  assign_at-Tidy k m base full h = (
    insert-Distinct k _ m h.0,
    insert-Values (Inner Q) k _ m (full _, keeps _ (or_empty-holds k m base h.1)) h.1,
  )

  put_back-Tidy :
      (k : K) (inner : Map A B) (m : Map K (Map A B))
      → Q inner
      → Tidy Q m
      → Tidy Q (put_back k inner m)
  unfolding put_back
  put_back-Tidy k [] m q h = (erase-Distinct k m h.0, erase-Values (Inner Q) k m h.1)
  put_back-Tidy k (x ∷ inner) m q h =
      (insert-Distinct k _ m h.0, insert-Values (Inner Q) k _ m ((λ p. cc), q) h.1)

  pub update_at-Tidy : (k : K) (m : Map K (Map A B)) → Tidy Q m → Tidy Q (update_at k f m)
  unfolding update_at
  update_at-Tidy k m h = elim (Option-cases (find k m)) [
    | inl missing ↦ rw (missing, update_at) h
    | inr (inner, present) ↦
        rw (present, update_at)
          (put_back-Tidy k (f inner) m (keeps inner (find-Values (Inner Q) k inner m h.1 present).1)
            h)
  ]

  change_all-none : (j : K) (m : Map K (Map A B)) → find j m ≡ none → find j (change_all f m) ≡ none
  unfolding find change_all
  change_all-none j [] h = refl
  change_all-none j ((k, inner) ∷ m) h = elim (Bool-cases (e.beq k j)) [
    | inl hit ↦ absurd (ground (arith, hit))
    | inr miss ↦
        keep_unless_empty-none j k (f inner) (change_all f m) miss
          (change_all-none j m (rw miss at h))
  ]

  pub change_all-Tidy : (m : Map K (Map A B)) → Tidy Q m → Tidy Q (change_all f m)
  unfolding change_all
  change_all-Tidy [] h = h
  change_all-Tidy ((k, inner) ∷ m) h =
      keep_unless_empty-Tidy Q k (f inner) (change_all f m) (keeps inner h.1.0.1)
        (change_all-none k m h.0.0) (change_all-Tidy m (h.0.1, h.1.1))

module _ {K A B : Type 0} ⦃e : Eq K⦄ where
  pub erase-Tidy :
      (Q : Map A B → Type 0) (k : K) (m : Map K (Map A B)) → Tidy Q m → Tidy Q (erase k m)
  erase-Tidy Q k m h = (erase-Distinct k m h.0, erase-Values (Inner Q) k m h.1)

  pub assign_at-ne-nil :
      (k : K) (f : Map A B → Map A B) (m : Map K (Map A B)) → assign_at k f m ≢ []
  unfolding assign_at
  assign_at-ne-nil k f m = insert-ne-nil k _ m
