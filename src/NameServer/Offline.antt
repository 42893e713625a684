-- ===== src/NameServer/Offline.antt =====
-- What `CNameServer::onOffline` leaves in the registry (server/CNameServer.cpp).
use fdbus.Prelude.{
  ℕ, zero, suc, ◌<◌, ◌≡◌, ◌⊎◌, inl, inr, refl, sym, subst, ◌∙◌, ap, arith, ◌==◌, if◌then◌else◌,
  ◌&&◌, Bool, true, false, Option, none, some, List, [], ◌∷◌, Bool-cases, Option-cases, List-cases,
  if_true,
}
use fdbus.Prelude.Map.{find, or_empty, nat_eq, Distinct, find-Values}
use fdbus.Prelude.Map.Tidy.{Inner}
use fdbus.Prelude.Map.Entries.{Has, Has-append, append-Has, In, find-In, In-find}
use fdbus.NameServer.{
  SvcRegistryEntry, SvcRegistryTbl, RegistryTbl, find_service, erase_service, entries, text_eq,
}
use fdbus.NameServer.Registry.{
  entry_at, IsTidy, entry_at-table, same-entry, erase_service_lem, is_some,
}
use fdbus.NameServer.Found.{find_service_iff, entries-In, In-entries}
use fdbus.NameServer.Counting.{total, total-erase_service}
use fdbus.NameServer.Requests.{NameServer}
use fdbus.NameServer.Allocation.{IsSound, found_entry, Values-Distinct}
use fdbus.NameServer.Removal.{
  Notice, all_entries, remove_entry, first_removed, remove_service, offline_scan, on_offline,
  with_notices,
}

-- The entries are those that are found at a name and an id.
In-listed :
    (n : List ℕ) (tbl : SvcRegistryTbl) (i : ℕ) (e : SvcRegistryEntry) (r : RegistryTbl)
    → In n tbl r
    → In i e tbl
    → Has e (all_entries r)
In-listed n tbl i e [] k h = absurd k
In-listed n tbl i e ((m, t) ∷ rest) (inl p) h =
    append-Has e (entries t) (all_entries rest) (inl (In-entries i e t (subst (In i e) p.1 h)))
In-listed n tbl i e ((m, t) ∷ rest) (inr k) h =
    append-Has e (entries t) (all_entries rest) (inr (In-listed n tbl i e rest k h))

listed-In :
    (e : SvcRegistryEntry) (r : RegistryTbl)
    → Has e (all_entries r)
    → (n : List ℕ) × ((tbl : SvcRegistryTbl) × (In n tbl r × ((i : ℕ) × In i e tbl)))
listed-In e [] h = absurd h
listed-In e ((m, t) ∷ rest) h = elim (Has-append e (entries t) (all_entries rest) h) [
  | inl p ↦ (m, (t, (inl (refl, refl), entries-In e t p)))
  | inr q ↦ (let (n, (tbl, (k, i))) = listed-In e rest q in (n, (tbl, (inr k, i))))
]

listed-entry_at :
    (e : SvcRegistryEntry) (r : RegistryTbl)
    → IsTidy r
    → Has e (all_entries r)
    → (n : List ℕ) × ((i : ℕ) × (entry_at n i r ≡ some e))
listed-entry_at e r h l =
    let (n, (tbl, (k, (i, m)))) = listed-In e r l in
    let there = In-find n tbl r h.0 k in
    let d = (find-Values (Inner Distinct) n tbl r h.1 there).1 in
    (n, (i, ap (λ o. find i (or_empty o)) there ∙ In-find i e tbl d m))

entry_at-listed :
    (n : List ℕ) (i : ℕ) (e : SvcRegistryEntry) (r : RegistryTbl)
    → entry_at n i r ≡ some e
    → Has e (all_entries r)
entry_at-listed n i e r f =
    let (tbl, (there, here)) = entry_at-table n i r e f in
    In-listed n tbl i e r (find-In n tbl r there) (find-In i e tbl here)

abbrev pub without : List ℕ → ℕ → NameServer → NameServer
without n i s = record s { registry = (erase_service n i s.registry).1 }

pub without-IsSound : (n : List ℕ) (i : ℕ) (s : NameServer) → IsSound s → IsSound (without n i s)
without-IsSound n i s h =
    let (erased, (others, tidy)) = erase_service_lem n i s.registry h.tidy in
    record {
      tidy = tidy;
      keyed = λ m j e f. h.keyed m j e (ground (arith, others m j, f));
      begin = h.begin;
      end = h.end;
    }

-- A service that is there is removed.
remove_service-erases :
    (n : List ℕ) (i : ℕ) (e : SvcRegistryEntry) (s : NameServer)
    → IsSound s
    → entry_at n i s.registry ≡ some e
    → (notices : List Notice) × (remove_service n i s ≡ (true, (notices, without n i s)))
unfolding remove_service remove_entry
remove_service-erases n i e s h f =
    let single = (h.keyed n i e f).1.1 in
    let found = find_service_iff n i s.registry h.tidy.0 (Values-Distinct s.registry h.tidy.1) in
    let there = (found.1 e).1 (found_entry n i e s.registry single f) in
    let erased = (erase_service_lem n i s.registry h.tidy).0 ∙ ap is_some f in
    elim (List-cases (find_service n i s.registry).1) [
      | inl nothing ↦ absurd (subst (Has e) nothing there)
      | inr (x, xs, first) ↦
          let sent = (remove_entry n i x s).1.0 in
          (sent, ap (first_removed n i s) first ∙ ap (λ b. (b, (sent, without n i s))) erased)
    ]

abbrev Removed : ℕ → NameServer → Bool × (List Notice × NameServer) → Type 0
Removed sid s r =
    (n : List ℕ) × ((i : ℕ) × ((e : SvcRegistryEntry) × ((notices : List Notice) × ((entry_at n i
                s.registry
              ≡ some e)
            × (((e.sid == sid) ≡ true) × (r ≡ (true, (notices, without n i s))))))))

-- A scan finds no service of the session, or removes one.
offline_scan-Removed :
    (sid : ℕ) (es : List SvcRegistryEntry) (s : NameServer)
    → IsSound s
    → ((e : SvcRegistryEntry) → Has e es → Has e (all_entries s.registry))
    → (((e : SvcRegistryEntry) → Has e es → (e.sid == sid) ≡ false)
        × (offline_scan sid es s ≡ (false, ([], s))))
      ⊎ Removed sid s (offline_scan sid es s)
unfolding offline_scan
offline_scan-Removed sid [] s h l = inl ((λ e m. absurd m), refl)
offline_scan-Removed sid (x ∷ es) s h l = elim (Bool-cases (x.sid == sid)) [
  | inl own ↦
      let (n, (i, f)) = listed-entry_at x s.registry h.tidy (l x (inl refl)) in
      let (names, (ids, single)) = h.keyed n i x f in
      let (notices, gone) = remove_service-erases n i x s h f in
      let gone' : remove_service x.svc_name x.instance_id s ≡ (true, (notices, without n i s)) =
        ap (λ m. remove_service m x.instance_id s) names
        ∙ (ap (λ j. remove_service n j s) ids ∙ gone) in
      inr (n, (i, (x, (notices, (f, (own, ground (arith, own, gone')))))))
  | inr other ↦ elim (offline_scan-Removed sid es s h (λ e m. l e (inr m))) [
    | inl (none_own, same) ↦ inl (
      λ e m. elim m [ inl p ↦ ap (λ y. y.sid == sid) p ∙ other | inr q ↦ none_own e q ],
      ground (arith, other, same),
    )
    | inr (n, (i, (e, (notices, (f, (own, same)))))) ↦
        inr (n, (i, (e, (notices, (f, (own, ground (arith, other, same)))))))
  ]
]

abbrev pub unless_of : ℕ → Option SvcRegistryEntry → Option SvcRegistryEntry
unless_of sid none = none
unless_of sid (some e) = if e.sid == sid then none else some e

-- The services of the session are gone, and the others as they were.
abbrev pub Left : ℕ → NameServer → Option (List Notice × NameServer) → Type 0
Left sid s none = ⊥
Left sid s (some (notices, t)) =
    IsSound t
    × ((n : List ℕ) (i : ℕ) → entry_at n i t.registry ≡ unless_of sid (entry_at n i s.registry))

none_of_session :
    (sid : ℕ) (s : NameServer)
    → IsSound s
    → ((e : SvcRegistryEntry) → Has e (all_entries s.registry) → (e.sid == sid) ≡ false)
    → Left sid s (some ([], s))
none_of_session sid s h other = (
  h,
  λ n i. elim (Option-cases (entry_at n i s.registry)) [
    | inl e ↦ ground (arith, e)
    | inr (x, e) ↦ ground (arith, e, other x (entry_at-listed n i x s.registry e))
  ],
)

Left-without :
    (sid : ℕ) (s : NameServer) (m : List ℕ) (j : ℕ) (x : SvcRegistryEntry) (notices : List Notice)
    (r : Option (List Notice × NameServer))
    → IsSound s
    → entry_at m j s.registry ≡ some x
    → (x.sid == sid) ≡ true
    → Left sid (without m j s) r
    → Left sid s (with_notices notices r)
Left-without sid s m j x notices none h f own l = l
Left-without sid s m j x notices (some (more, t)) h f own l =
    let (erased, (others, tidy)) = erase_service_lem m j s.registry h.tidy in
    (
      l.0,
      λ n i.
          l.1 n i
          ∙ (ap (unless_of sid) (others n i) ∙ elim (Bool-cases (text_eq.beq m n && (j == i))) [
            | inl hit ↦
                let here =
                  ap (unless_of sid) (same-entry m n j i s.registry hit ∙ f) ∙ if_true none _ own in
                rw hit (sym here)
            | inr miss ↦ rw miss refl
          ]),
    )

-- In a sound name server, the end of a session is handled to an end if there is more fuel than there are
-- services: the services of the session are then gone, every other service is as it was, and the server is
-- sound.
pub on_offline-Left :
    (fuel sid : ℕ) (s : NameServer)
    → total s.registry < fuel
    → IsSound s
    → Left sid s (on_offline fuel sid s)
unfolding on_offline
on_offline-Left zero sid s enough h = absurd (omega arith)
on_offline-Left (suc fuel) sid s enough h =
    elim (offline_scan-Removed sid (all_entries s.registry) s h (λ e m. m)) [
      | inl (other, same) ↦ rw same (none_of_session sid s h other)
      | inr (n, (i, (e, (notices, (f, (own, same)))))) ↦
          let fewer = total-erase_service n i s.registry e h.tidy f in
          rw same (
            Left-without sid s n i e notices (on_offline fuel sid (without n i s)) h f own (
              on_offline-Left fuel sid (without n i s) (omega (arith, fewer))
                (without-IsSound n i s h)))
    ]
