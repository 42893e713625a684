-- ===== src/Prelude/Map.antt =====
-- std::map as an association list with one entry for each key. The order of the entries is the one
-- of insertion: nothing that is stated depends on it.
pub mod Tidy
pub mod Entries
use text.Mathlib.Text.{◌==◌ as str_eq}
use text.Mathlib.TextEquality.{eq_iff}
use Prim.Native.String.{String}
use Prim.Native.Nat.{ℕ}
use mathlib.Core.Path.{◌≡◌, refl, sym, subst}
use mathlib.Core.Logic.{◌↔◌, ◌⊎◌, inl, inr, ◌≢◌}
use mathlib.Core.Bool.{Bool, true, false, ◌&&◌}
use mathlib.Core.Option.{Option, none, some}
use mathlib.Core.List.{List, [], ◌∷◌}
use native.Mathlib.Omega.{arith}
use fdbus.Prelude.Tests.{◌==◌, ==_iff, if◌then◌else◌, Bool-cases, Option-cases}

pub record Eq (A : Type 0) : Type 0 where
  pub beq : A → A → Bool
  pub beq_iff : (a b : A) → (beq a b ≡ true) ↔ (a ≡ b)

instance abbrev pub nat_eq : Eq ℕ
nat_eq = record { beq = ◌==◌; beq_iff = ==_iff }

instance abbrev pub string_eq : Eq String
string_eq = record { beq = str_eq; beq_iff = eq_iff }

abbrev pub Map : Type 0 → Type 0 → Type 0
Map K V = List (K × V)

abbrev pub is_empty : {A : Type 0} → List A → Bool
is_empty [] = true
is_empty (x ∷ xs) = false

module _ {K V : Type 0} ⦃e : Eq K⦄ where
  unfoldable pub find : K → Map K V → Option V
  find k [] = none
  find k ((j, v) ∷ m) = if e.beq j k then some v else find k m

  -- `m[k] = v`
  unfoldable pub insert : K → V → Map K V → Map K V
  insert k v [] = (k, v) ∷ []
  insert k v ((j, w) ∷ m) = if e.beq j k then (j, v) ∷ m else (j, w) ∷ insert k v m

  unfoldable pub erase : K → Map K V → Map K V
  erase k [] = []
  erase k ((j, w) ∷ m) = let rest = erase k m in if e.beq j k then rest else (j, w) ∷ rest

  pub find-empty : (k : K) → find k [] ≡ none
  unfolding find
  find-empty k = refl

  pub find-insert :
      (k j : K) (v : V) (m : Map K V)
      → find j (insert k v m) ≡ (if e.beq k j then some v else find j m)
  unfolding find insert
  find-insert k j v [] = refl
  find-insert k j v ((i, w) ∷ m) =
      ground (arith, e.beq_iff k j, e.beq_iff i k, e.beq_iff i j, find-insert k j v m)

  pub find-erase :
      (k j : K) (m : Map K V) → find j (erase k m) ≡ (if e.beq k j then none else find j m)
  unfolding find erase
  find-erase k j [] = ground arith
  find-erase k j ((i, w) ∷ m) =
      ground (arith, e.beq_iff k j, e.beq_iff i k, e.beq_iff i j, find-erase k j m)

  -- The keys are distinct.
  abbrev pub Distinct : Map K V → Type 0
  Distinct [] = Unit
  Distinct ((k, v) ∷ m) = (find k m ≡ none) × Distinct m

  pub insert-Distinct : (k : K) (v : V) (m : Map K V) → Distinct m → Distinct (insert k v m)
  unfolding insert
  insert-Distinct k v [] h = (find-empty k, tt)
  insert-Distinct k v ((i, w) ∷ m) h = elim (Bool-cases (e.beq i k)) [
    | inl hit ↦ rw hit h
    | inr miss ↦ rw miss (
      ground (arith, find-insert k i v m, e.beq_iff i k, e.beq_iff k i, h.0),
      insert-Distinct k v m h.1,
    )
  ]

  pub erase-Distinct : (k : K) (m : Map K V) → Distinct m → Distinct (erase k m)
  unfolding erase
  erase-Distinct k [] h = tt
  erase-Distinct k ((i, w) ∷ m) h = elim (Bool-cases (e.beq i k)) [
    | inl hit ↦ rw hit (erase-Distinct k m h.1)
    | inr miss ↦ rw miss (ground (arith, find-erase k i m, h.0), erase-Distinct k m h.1)
  ]

  -- Every value has the property.
  abbrev pub Values : (V → Type 0) → Map K V → Type 0
  Values P [] = Unit
  Values P ((k, v) ∷ m) = P v × Values P m

  pub find-Values :
      (P : V → Type 0) (k : K) (v : V) (m : Map K V) → Values P m → find k m ≡ some v → P v
  unfolding find
  find-Values P k v [] h f = cc
  find-Values P k v ((i, w) ∷ m) h f = elim (Bool-cases (e.beq i k)) [
    | inl hit ↦ (let same : w ≡ v = ground (arith, hit) in subst P same h.0)
    | inr miss ↦ find-Values P k v m h.1 (rw miss at f)
  ]

  pub insert-Values :
      (P : V → Type 0) (k : K) (v : V) (m : Map K V) → P v → Values P m → Values P (insert k v m)
  unfolding insert
  insert-Values P k v [] p h = (p, tt)
  insert-Values P k v ((i, w) ∷ m) p h = elim (Bool-cases (e.beq i k)) [
    | inl hit ↦ rw hit (p, h.1)
    | inr miss ↦ rw miss (h.0, insert-Values P k v m p h.1)
  ]

  pub erase-Values : (P : V → Type 0) (k : K) (m : Map K V) → Values P m → Values P (erase k m)
  unfolding erase
  erase-Values P k [] h = tt
  erase-Values P k ((i, w) ∷ m) h = elim (Bool-cases (e.beq i k)) [
    | inl hit ↦ rw hit (erase-Values P k m h.1)
    | inr miss ↦ rw miss (h.0, erase-Values P k m h.1)
  ]

abbrev pub or_empty : {A : Type 0} → Option (List A) → List A
or_empty none = []
or_empty (some l) = l

module _ {K A B : Type 0} ⦃e : Eq K⦄ where
  -- `m[k]` makes an empty entry if there is none, and `f` changes it in place.
  unfoldable pub assign_at : K → (Map A B → Map A B) → Map K (Map A B) → Map K (Map A B)
  assign_at k f m = insert k (f (or_empty (find k m))) m

  unfoldable pub put_back : K → Map A B → Map K (Map A B) → Map K (Map A B)
  put_back k [] m = erase k m
  put_back k (x ∷ inner) m = insert k (x ∷ inner) m

  -- An entry that is there is changed by `f`, and dropped if nothing is left in it.
  unfoldable pub update_at : K → (Map A B → Map A B) → Map K (Map A B) → Map K (Map A B)
  unfolding put_back
  update_at k f m = elim (find k m) [ none ↦ m | some inner ↦ put_back k (f inner) m ]

  -- What `view`, which does not tell a missing entry from an empty one, shows after a change.
  module _ {C : Type 0} (view : Option (Map A B) → C) (blank : view none ≡ view (some [])) where
    pub view-assign_at :
        (k j : K) (f : Map A B → Map A B) (m : Map K (Map A B))
        → view (find j (assign_at k f m))
          ≡ (if e.beq k j then view (some (f (or_empty (find k m)))) else view (find j m))
    unfolding assign_at
    view-assign_at k j f m = rw (find-insert k j (f (or_empty (find k m))) m) (ground arith)

    view-put_back :
        (k j : K) (inner : Map A B) (m : Map K (Map A B))
        → view (find j (put_back k inner m))
          ≡ (if e.beq k j then view (some inner) else view (find j m))
    unfolding put_back
    view-put_back k j [] m = rw (find-erase k j m) (ground (arith, blank))
    view-put_back k j (x ∷ inner) m = rw (find-insert k j (x ∷ inner) m) (ground arith)

    pub view-update_at :
        (k j : K) (f : Map A B → Map A B) (m : Map K (Map A B))
        → f [] ≡ []
        → view (find j (update_at k f m))
          ≡ (if e.beq k j then view (some (f (or_empty (find k m)))) else view (find j m))
    unfolding update_at
    view-update_at k j f m h = elim (Option-cases (find k m)) [
      | inl missing ↦ rw (missing, update_at) (ground (arith, missing, h, blank, e.beq_iff k j))
      | inr (inner, present) ↦ rw (present, update_at) (view-put_back k j (f inner) m)
    ]

abbrev pub keep_unless_empty : {K A B : Type 0} → K → Map A B → Map K (Map A B) → Map K (Map A B)
keep_unless_empty k [] rest = rest
keep_unless_empty k (x ∷ inner) rest = (k, x ∷ inner) ∷ rest

-- Every nested map is changed by `f`, and dropped if nothing is left in it.
unfoldable pub change_all :
    {K A B : Type 0} → (Map A B → Map A B) → Map K (Map A B) → Map K (Map A B)
change_all f [] = []
change_all f ((k, inner) ∷ m) = keep_unless_empty k (f inner) (change_all f m)

module _ {K A B : Type 0} ⦃e : Eq K⦄ (f : Map A B → Map A B) (blank : f [] ≡ []) where
  keep_unless_empty-find :
      (j k : K) (inner inner' : Map A B) (m rest : Map K (Map A B))
      → f inner ≡ inner'
      → find k m ≡ none
      → or_empty (find j rest) ≡ f (or_empty (find j m))
      → or_empty (find j (keep_unless_empty k inner' rest)) ≡ f (or_empty (find j ((k, inner) ∷ m)))
  unfolding find
  keep_unless_empty-find j k inner [] m rest ch fresh ih = ground (arith, blank, ih, e.beq_iff k j)
  keep_unless_empty-find j k inner (x ∷ xs) m rest ch fresh ih = ground (arith, ih)

  pub find-change_all :
      (j : K) (m : Map K (Map A B))
      → Distinct m
      → or_empty (find j (change_all f m)) ≡ f (or_empty (find j m))
  unfolding change_all
  find-change_all j [] h = rw find-empty (sym blank)
  find-change_all j ((k, inner) ∷ m) h =
      keep_unless_empty-find j k inner (f inner) m (change_all f m) refl h.0
        (find-change_all j m h.1)

module _ {K A B C : Type 0} ⦃e : Eq K⦄ (view : Map A B → C) (f : Map A B → Map A B) (c : Bool)
    (new : C) (changes : (inner : Map A B) → view (f inner) ≡ (if c then new else view inner)) where
  -- A change of the nested maps is seen as a change of the map of maps, at its key.
  pub lift-assign_at :
      (k j : K) (m : Map K (Map A B))
      → view (or_empty (find j (assign_at k f m)))
        ≡ (if e.beq k j && c then new else view (or_empty (find j m)))
  lift-assign_at k j m = ground (
    arith,
    view-assign_at (λ o. view (or_empty o)) refl k j f m,
    changes (or_empty (find k m)),
    e.beq_iff k j,
  )

  pub lift-update_at :
      (k j : K) (m : Map K (Map A B))
      → f [] ≡ []
      → view (or_empty (find j (update_at k f m)))
        ≡ (if e.beq k j && c then new else view (or_empty (find j m)))
  lift-update_at k j m h = ground (
    arith,
    view-update_at (λ o. view (or_empty o)) refl k j f m h,
    changes (or_empty (find k m)),
    e.beq_iff k j,
  )

module _ {K A B : Type 0} ⦃e : Eq K⦄ where
  pub update_at-empty : (k : K) (f : Map A B → Map A B) → update_at k f [] ≡ []
  unfolding update_at find
  update_at-empty k f = refl
