-- ===== src/Prelude/Map/Entries.antt =====
-- Being in a list, and being an entry of a map.
use mathlib.Core.Path.{◌≡◌, sym}
use mathlib.Core.Logic.{◌⊎◌, inl, inr}
use mathlib.Core.Option.{some}
use mathlib.Core.List.{List, [], ◌∷◌, ◌++◌}
use native.Mathlib.Omega.{arith}
use fdbus.Prelude.Tests.{Bool-cases}
use fdbus.Prelude.Map.{Eq, Map, find, Distinct}

module _ {A : Type 0} where
  abbrev pub Has : A → List A → Type 0
  Has a [] = ⊥
  Has a (x ∷ xs) = (a ≡ x) ⊎ Has a xs

  pub Has-append : (a : A) (xs ys : List A) → Has a (xs ++ ys) → Has a xs ⊎ Has a ys
  Has-append a [] ys h = inr h
  Has-append a (x ∷ xs) ys (inl e) = inl (inl e)
  Has-append a (x ∷ xs) ys (inr h) = elim (Has-append a xs ys h) [
    | inl p ↦ inl (inr p)
    | inr q ↦ inr q
  ]

  pub append-Has : (a : A) (xs ys : List A) → Has a xs ⊎ Has a ys → Has a (xs ++ ys)
  append-Has a [] ys (inl h) = absurd h
  append-Has a [] ys (inr h) = h
  append-Has a (x ∷ xs) ys (inl (inl e)) = inl e
  append-Has a (x ∷ xs) ys (inl (inr h)) = inr (append-Has a xs ys (inl h))
  append-Has a (x ∷ xs) ys (inr h) = inr (append-Has a xs ys (inr h))

module _ {K V : Type 0} where
  abbrev pub In : K → V → Map K V → Type 0
  In k v [] = ⊥
  In k v ((j, w) ∷ m) = ((k ≡ j) × (v ≡ w)) ⊎ In k v m

module _ {K V : Type 0} ⦃e : Eq K⦄ where
  pub find-In : (k : K) (v : V) (m : Map K V) → find k m ≡ some v → In k v m
  unfolding find
  find-In k v [] h = cc
  find-In k v ((j, w) ∷ m) h = elim (Bool-cases (e.beq j k)) [
    | inl hit ↦ inl (sym ((e.beq_iff j k).0 hit), ground (arith, hit))
    | inr miss ↦ inr (find-In k v m (rw miss at h))
  ]

  pub In-find : (k : K) (v : V) (m : Map K V) → Distinct m → In k v m → find k m ≡ some v
  unfolding find
  In-find k v [] h i = absurd i
  In-find k v ((j, w) ∷ m) h (inl (p, q)) = ground (arith, e.beq_iff j k, p, q)
  In-find k v ((j, w) ∷ m) h (inr i) = elim (Bool-cases (e.beq j k)) [
    | inl hit ↦ absurd (ground (arith, In-find k v m h.1 i, h.0, (e.beq_iff j k).0 hit))
    | inr miss ↦ rw miss (In-find k v m h.1 i)
  ]
