-- ===== src/NameServer/Registry.antt =====
-- The registry as a table by name and instance id, and what `CNameServer::eraseService` changes in it
-- (server/CNameServer.cpp).
use fdbus.Prelude.{
  ℕ, ◌≡◌, ◌≢◌, inl, inr, refl, sym, ◌∙◌, ap, arith, ◌==◌, if◌then◌else◌, ◌&&◌, Bool, true, false,
  Option, none, some, List, [], ◌∷◌, Bool-cases, Option-cases,
}
use fdbus.Prelude.Map.{
  nat_eq, find, insert, erase, or_empty, is_empty, update_at, assign_at, Distinct, find-empty,
  find-erase, find-insert, lift-assign_at, lift-update_at, insert-Distinct, erase-Distinct,
  find-Values,
}
use fdbus.Prelude.Map.Tidy.{Tidy, Inner, insert-ne-nil, assign_at-Tidy, update_at-Tidy}
use fdbus.NameServer.{SvcRegistryEntry, SvcRegistryTbl, RegistryTbl, erase_service, text_eq}

-- The entry of a service.
abbrev pub entry_at : List ℕ → ℕ → RegistryTbl → Option SvcRegistryEntry
entry_at name iid r = find iid (or_empty (find name r))

abbrev pub is_some : Option SvcRegistryEntry → Bool
is_some none = false
is_some (some entry) = true

-- No name and no id is there twice, and no name without a service.
abbrev pub IsTidy : RegistryTbl → Type 0
IsTidy = Tidy Distinct

pub entry_at-assign :
    (name n : List ℕ) (iid i : ℕ) (e : SvcRegistryEntry) (r : RegistryTbl)
    → entry_at n i (assign_at name (insert iid e) r)
      ≡ (if text_eq.beq name n && (iid == i) then some e else entry_at n i r)
entry_at-assign name n iid i e r =
    lift-assign_at (find i) (insert iid e) (iid == i) (some e) (λ inner. find-insert iid i e inner)
      name n r

pub assign-IsTidy :
    (name : List ℕ) (iid : ℕ) (e : SvcRegistryEntry) (r : RegistryTbl)
    → IsTidy r
    → IsTidy (assign_at name (insert iid e) r)
assign-IsTidy name iid e r h =
    assign_at-Tidy Distinct (insert iid e) (λ inner d. insert-Distinct iid e inner d) name r tt
      (λ inner. insert-ne-nil iid e inner) h

not-empty : (tbl : SvcRegistryTbl) → tbl ≢ [] → is_empty tbl ≡ false
not-empty [] h = absurd (h refl)
not-empty (x ∷ xs) h = refl

-- Among the services that are tidy, erasing has these cases.
pub erase_service-missing :
    (name : List ℕ) (iid : ℕ) (r : RegistryTbl)
    → IsTidy r
    → entry_at name iid r ≡ none
    → erase_service name iid r ≡ (false, r)
unfolding erase_service
erase_service-missing name iid r h m = elim (Option-cases (find name r)) [
  | inl e ↦ rw (e, erase_service) refl
  | inr (tbl, e) ↦
      let full = not-empty tbl (find-Values (Inner Distinct) name tbl r h.1 e).0 in
      let no : find iid tbl ≡ none = ap (λ o. find iid (or_empty o)) (sym e) ∙ m in
      rw (e, no, full, erase_service) refl
]

pub entry_at-table :
    (name : List ℕ) (iid : ℕ) (r : RegistryTbl) (x : SvcRegistryEntry)
    → entry_at name iid r ≡ some x
    → (tbl : SvcRegistryTbl) × ((find name r ≡ some tbl) × (find iid tbl ≡ some x))
entry_at-table name iid r x m = elim (Option-cases (find name r)) [
  | inl e ↦
      let clash : none ≡ some x =
        sym (find-empty {V = SvcRegistryEntry} iid)
        ∙ (ap (λ o. find iid (or_empty o)) (sym e) ∙ m) in
      absurd (ground (arith, clash))
  | inr (tbl, e) ↦ (tbl, (e, ap (λ o. find iid (or_empty o)) (sym e) ∙ m))
]

pub erase_service-found :
    (name : List ℕ) (iid : ℕ) (r : RegistryTbl) (x : SvcRegistryEntry)
    → entry_at name iid r ≡ some x
    → erase_service name iid r ≡ (true, update_at name (erase iid) r)
unfolding erase_service
erase_service-found name iid r x m =
    let (tbl, (e, there)) = entry_at-table name iid r x m in rw (e, there, erase_service) refl

pub same-entry :
    (name n : List ℕ) (iid i : ℕ) (r : RegistryTbl)
    → text_eq.beq name n && (iid == i) ≡ true
    → entry_at n i r ≡ entry_at name iid r
same-entry name n iid i r h =
    let names : name ≡ n = (text_eq.beq_iff name n).0 (ground (arith, h)) in
    let ids : iid ≡ i = ground (arith, h) in
    ap (λ m. entry_at m i r) (sym names) ∙ ap (λ j. entry_at name j r) (sym ids)

-- In a tidy registry, eraseService tells whether the service was there, the service is then gone, every
-- other is what it was, and the registry is tidy.
pub erase_service_lem :
    (name : List ℕ) (iid : ℕ) (r : RegistryTbl)
    → IsTidy r
    → ((erase_service name iid r).0 ≡ is_some (entry_at name iid r))
      × (((n : List ℕ) (i : ℕ)
            → entry_at n i (erase_service name iid r).1
              ≡ (if text_eq.beq name n && (iid == i) then none else entry_at n i r))
          × IsTidy (erase_service name iid r).1)
unfolding erase
erase_service_lem name iid r h = elim (Option-cases (entry_at name iid r)) [
  | inl m ↦ rw (erase_service-missing name iid r h m) (
    sym (ap is_some m),
    (
      λ n i. elim (Bool-cases (text_eq.beq name n && (iid == i))) [
        | inl hit ↦ rw hit (same-entry name n iid i r hit ∙ m)
        | inr miss ↦ rw miss refl
      ],
      h,
    ),
  )
  | inr (x, m) ↦ rw (erase_service-found name iid r x m) (
    sym (ap is_some m),
    (
      λ n i.
          lift-update_at (find i) (erase iid) (iid == i) none (λ inner. find-erase iid i inner) name
            n r refl,
      update_at-Tidy Distinct (erase iid) (λ inner d. erase-Distinct iid inner d) name r h,
    ),
  )
]
