-- ===== src/NameServer/Found.antt =====
-- What `CNameServer::findService` finds (server/CNameServer.cpp).
use fdbus.Prelude.{
  ℕ, ◌≡◌, ◌↔◌, inl, inr, refl, sym, subst, ◌∙◌, ap, arith, ◌==◌, if◌then◌else◌, not, ◌||◌, Bool,
  true, some, List, [], ◌∷◌, ◌++◌, Bool-cases, Option-cases, if_true, if_false, ==_iff,
}
use fdbus.Prelude.Map.{find, nat_eq, is_empty, Distinct, Values, find-Values}
use fdbus.Prelude.Map.Entries.{Has, Has-append, append-Has, In, find-In, In-find}
use fdbus.NameServer.{
  SvcRegistryEntry, SvcRegistryTbl, RegistryTbl, is_group, in_all_groups, same_group, entries,
  entries_in_group, find_instance, find_every_name, find_service, find_in, text_eq,
}

-- The instances that an id stands for: a group's, those of all groups, or only itself.
abbrev pub covers : ℕ → ℕ → Bool
covers iid i =
    if is_group iid then (if in_all_groups iid then true else same_group iid i) else iid == i

-- Whether a list has an entry is what `findService` returns.
abbrev Counted : Bool × List SvcRegistryEntry → Type 0
Counted r = r.0 ≡ not (is_empty r.1)

is_empty-entries : (tbl : SvcRegistryTbl) → is_empty (entries tbl) ≡ is_empty tbl
is_empty-entries [] = refl
is_empty-entries ((i, e) ∷ rest) = refl

is_empty-append :
    (xs ys : List SvcRegistryEntry)
    → (not (is_empty xs) || not (is_empty ys)) ≡ not (is_empty (xs ++ ys))
is_empty-append [] ys = refl
is_empty-append (x ∷ xs) ys = refl

find_instance-Counted : (iid : ℕ) (tbl : SvcRegistryTbl) → Counted (find_instance iid tbl)
unfolding find_instance
find_instance-Counted iid tbl = ground (arith, is_empty-entries tbl)

find_every_name-Counted : (iid : ℕ) (r : RegistryTbl) → Counted (find_every_name iid r)
unfolding find_every_name
find_every_name-Counted iid [] = refl
find_every_name-Counted iid ((name, tbl) ∷ rest) =
    let (found, matched) = find_instance iid tbl in
    let (more, others) = find_every_name iid rest in
    ground (
      arith,
      find_instance-Counted iid tbl,
      find_every_name-Counted iid rest,
      is_empty-append matched others,
    )

find_service-Counted :
    (name : List ℕ) (iid : ℕ) (r : RegistryTbl) → Counted (find_service name iid r)
unfolding find_service
find_service-Counted [] iid r = find_every_name-Counted iid r
find_service-Counted (c ∷ cs) iid r = elim (Option-cases (find (c ∷ cs) r)) [
  | inl e ↦ subst (λ o. Counted (find_in iid o)) (sym e) refl
  | inr (tbl, e) ↦ subst (λ o. Counted (find_in iid o)) (sym e) (find_instance-Counted iid tbl)
]

-- An entry of a table at an instance that the id stands for.
abbrev pub InTable : ℕ → SvcRegistryEntry → SvcRegistryTbl → Type 0
InTable iid e tbl = (i : ℕ) × ((covers iid i ≡ true) × In i e tbl)

pub entries-In :
    (e : SvcRegistryEntry) (tbl : SvcRegistryTbl) → Has e (entries tbl) → (i : ℕ) × In i e tbl
entries-In e [] h = absurd h
entries-In e ((i, x) ∷ rest) (inl p) = (i, inl (refl, p))
entries-In e ((i, x) ∷ rest) (inr h) = let (j, k) = entries-In e rest h in (j, inr k)

pub In-entries :
    (i : ℕ) (e : SvcRegistryEntry) (tbl : SvcRegistryTbl) → In i e tbl → Has e (entries tbl)
In-entries i e [] h = h
In-entries i e ((j, x) ∷ rest) (inl p) = inl p.1
In-entries i e ((j, x) ∷ rest) (inr h) = inr (In-entries i e rest h)

group-In :
    (iid : ℕ) (e : SvcRegistryEntry) (tbl : SvcRegistryTbl)
    → Has e (entries_in_group iid tbl)
    → (i : ℕ) × ((same_group iid i ≡ true) × In i e tbl)
group-In iid e [] h = absurd h
group-In iid e ((i, x) ∷ rest) h = elim (Bool-cases (same_group iid i)) [
  | inl hit ↦ elim (subst (Has e) (if_true (x ∷ entries_in_group iid rest) _ hit) h) [
    | inl p ↦ (i, (hit, inl (refl, p)))
    | inr q ↦ (let (j, (s, k)) = group-In iid e rest q in (j, (s, inr k)))
  ]
  | inr miss ↦
      let (j, (s, k)) =
        group-In iid e rest (subst (Has e) (if_false (x ∷ entries_in_group iid rest) _ miss) h) in
      (j, (s, inr k))
]

In-group :
    (iid i : ℕ) (e : SvcRegistryEntry) (tbl : SvcRegistryTbl)
    → same_group iid i ≡ true
    → In i e tbl
    → Has e (entries_in_group iid tbl)
In-group iid i e [] s h = h
In-group iid i e ((j, x) ∷ rest) s (inl p) = rw (ap (same_group iid) (sym p.0) ∙ s) (inl p.1)
In-group iid i e ((j, x) ∷ rest) s (inr h) = elim (Bool-cases (same_group iid j)) [
  | inl hit ↦ rw hit (inr (In-group iid i e rest s h))
  | inr miss ↦ rw miss (In-group iid i e rest s h)
]

find_instance-In :
    (iid : ℕ) (e : SvcRegistryEntry) (tbl : SvcRegistryTbl)
    → Has e (find_instance iid tbl).1
    → InTable iid e tbl
unfolding find_instance
find_instance-In iid e tbl h = elim (Bool-cases (is_group iid)) [
  | inl g ↦ elim (Bool-cases (in_all_groups iid)) [
    | inl a ↦ let (i, k) = entries-In e tbl (rw (g, a) at h) in (i, (ground (arith, g, a), k))
    | inr a ↦
        let (i, (s, k)) = group-In iid e tbl (rw (g, a) at h) in (i, (ground (arith, g, a, s), k))
  ]
  | inr g ↦ elim (Option-cases (find iid tbl)) [
    | inl f ↦ absurd (rw (g, f) at h)
    | inr (x, f) ↦
        let same : e ≡ x = elim (rw (g, f) at h) [ inl p ↦ p | inr q ↦ absurd q ] in
        (iid, (ground (arith, g), find-In iid e tbl (f ∙ ap some (sym same))))
  ]
]

In-find_instance :
    (iid : ℕ) (e : SvcRegistryEntry) (tbl : SvcRegistryTbl)
    → Distinct tbl
    → InTable iid e tbl
    → Has e (find_instance iid tbl).1
unfolding find_instance
In-find_instance iid e tbl d (i, (c, k)) = elim (Bool-cases (is_group iid)) [
  | inl g ↦ elim (Bool-cases (in_all_groups iid)) [
    | inl a ↦ rw (g, a) (In-entries i e tbl k)
    | inr a ↦ rw (g, a) (In-group iid i e tbl (ground (arith, g, a, c)) k)
  ]
  | inr g ↦
      let same : iid ≡ i = (==_iff iid i).0 (ground (arith, g, c)) in
      let there = In-find iid e tbl d (subst (λ j. In j e tbl) (sym same) k) in
      rw (g, there) (inl refl)
]

-- The services that a name stands for: those of the name, or without a name all.
abbrev pub Named : List ℕ → List ℕ → Type 0
Named [] n = Unit
Named (c ∷ cs) n = c ∷ cs ≡ n

-- An entry of the registry that a name and an instance id stand for.
abbrev pub Registered : List ℕ → ℕ → SvcRegistryEntry → RegistryTbl → Type 0
Registered name iid e r =
    (n : List ℕ) × ((tbl : SvcRegistryTbl) × (Named name n × (In n tbl r × InTable iid e tbl)))

find_every_name-In :
    (iid : ℕ) (e : SvcRegistryEntry) (r : RegistryTbl)
    → Has e (find_every_name iid r).1
    → Registered [] iid e r
unfolding find_every_name
find_every_name-In iid e [] h = absurd h
find_every_name-In iid e ((n, tbl) ∷ rest) h =
    elim (Has-append e (find_instance iid tbl).1 (find_every_name iid rest).1 h) [
      | inl p ↦ (n, (tbl, (tt, (inl (refl, refl), find_instance-In iid e tbl p))))
      | inr q ↦
          let (m, (t, (u, (k, i)))) = find_every_name-In iid e rest q in (m, (t, (u, (inr k, i))))
    ]

In-find_every_name :
    (iid : ℕ) (e : SvcRegistryEntry) (r : RegistryTbl)
    → Values Distinct r
    → (n : List ℕ) (tbl : SvcRegistryTbl) → In n tbl r
    → InTable iid e tbl
    → Has e (find_every_name iid r).1
unfolding find_every_name
In-find_every_name iid e [] v n tbl k i = absurd k
In-find_every_name iid e ((m, t) ∷ rest) v n tbl (inl p) i =
    append-Has e (find_instance iid t).1 (find_every_name iid rest).1
      (inl (In-find_instance iid e t v.0 (subst (InTable iid e) p.1 i)))
In-find_every_name iid e ((m, t) ∷ rest) v n tbl (inr k) i =
    append-Has e (find_instance iid t).1 (find_every_name iid rest).1
      (inr (In-find_every_name iid e rest v.1 n tbl k i))

find_service-In :
    (name : List ℕ) (iid : ℕ) (e : SvcRegistryEntry) (r : RegistryTbl)
    → Has e (find_service name iid r).1
    → Registered name iid e r
unfolding find_service
find_service-In [] iid e r h = find_every_name-In iid e r h
find_service-In (c ∷ cs) iid e r h = elim (Option-cases (find (c ∷ cs) r)) [
  | inl f ↦ absurd (subst (λ o. Has e (find_in iid o).1) f h)
  | inr (tbl, f) ↦ (
    c ∷ cs,
    (
      tbl,
      (
        refl,
        (
          find-In (c ∷ cs) tbl r f,
          find_instance-In iid e tbl (subst (λ o. Has e (find_in iid o).1) f h),
        ),
      ),
    ),
  )
]

In-find_service :
    (name : List ℕ) (iid : ℕ) (e : SvcRegistryEntry) (r : RegistryTbl)
    → Distinct r
    → Values Distinct r
    → Registered name iid e r
    → Has e (find_service name iid r).1
unfolding find_service
In-find_service [] iid e r d v (n, (tbl, (u, (k, i)))) = In-find_every_name iid e r v n tbl k i
In-find_service (c ∷ cs) iid e r d v (n, (tbl, (u, (k, i)))) =
    let there = In-find (c ∷ cs) tbl r d (subst (λ m. In m tbl r) (sym u) k) in
    subst (λ o. Has e (find_in iid o).1) (sym there)
      (In-find_instance iid e tbl (find-Values Distinct n tbl r v (In-find n tbl r d k)) i)

-- In a registry with distinct names and distinct instances of each, findService says whether it collects a
-- service, and collects exactly the services registered under the name, or under any name if it is empty,
-- whose instance is the one asked for, of the group asked for, or any if all groups are asked for.
pub find_service_iff :
    (name : List ℕ) (iid : ℕ) (r : RegistryTbl)
    → Distinct r
    → Values Distinct r
    → ((find_service name iid r).0 ≡ not (is_empty (find_service name iid r).1))
      × ((e : SvcRegistryEntry) → Has e (find_service name iid r).1 ↔ Registered name iid e r)
find_service_iff name iid r d v = (
  find_service-Counted name iid r,
  λ e. (find_service-In name iid e r, In-find_service name iid e r d v),
)
