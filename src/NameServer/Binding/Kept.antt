-- ===== src/NameServer/Binding/Kept.antt =====
-- What registering the addresses of a service keeps (server/CNameServer.cpp).
use fdbus.Prelude.{
  ℕ, ◌≡◌, refl, ◌∙◌, ap, ◌==◌, if◌then◌else◌, ◌&&◌, false, Option, some, List, [], ◌∷◌,
}
use fdbus.Prelude.Map.{find, or_empty, Distinct, find-Values, nat_eq}
use fdbus.Prelude.Map.Tidy.{Inner}
use fdbus.Prelude.Map.Entries.{Has, In-find}
use fdbus.AddressAllocator.{AllocatedAddress}
use fdbus.Messages.AddrBindStatus.{AddrBindStatus}
use fdbus.NameServer.{
  AddressDesc, SvcRegistryEntry, RegistryTbl, is_group, find_service, find_instance, find_in,
  text_eq,
}
use fdbus.ServiceAddresses.{Network}
use fdbus.NameServer.Registry.{entry_at, entry_at-table, entry_at-assign}
use fdbus.NameServer.Found.{find_service_iff}
use fdbus.NameServer.Requests.{Names, NameServer}
use fdbus.NameServer.Allocation.{IsSound, Values-Distinct}
use fdbus.NameServer.Binding.{registered, register_entry, on_register_service_req}

-- A service that `findService` finds is at its name and its instance.
pub found-entry_at :
    (name : List ℕ) (iid : ℕ) (e : SvcRegistryEntry) (s : NameServer)
    → IsSound s
    → Has e (find_service name iid s.registry).1
    → (is_group e.instance_id ≡ false) × (entry_at e.svc_name e.instance_id s.registry ≡ some e)
found-entry_at name iid e s h m =
    let r = s.registry in
    let (counted, listed) = find_service_iff name iid r h.tidy.0 (Values-Distinct r h.tidy.1) in
    let (n, (tbl, (named, (k, (i, (c, j)))))) = (listed e).0 m in
    let there = In-find n tbl r h.tidy.0 k in
    let d = (find-Values (Inner Distinct) n tbl r h.tidy.1 there).1 in
    let at : entry_at n i r ≡ some e = ap (λ o. find i (or_empty o)) there ∙ In-find i e tbl d j in
    let (names, (ids, single)) = h.keyed n i e at in
    (
      ap is_group ids ∙ single,
      ap (λ x. entry_at x e.instance_id r) names ∙ (ap (λ x. entry_at n x r) ids ∙ at),
    )

find_one :
    (c : ℕ) (cs : List ℕ) (iid : ℕ) (e : SvcRegistryEntry) (r : RegistryTbl)
    → is_group iid ≡ false
    → entry_at (c ∷ cs) iid r ≡ some e
    → (find_service (c ∷ cs) iid r).1 ≡ e ∷ []
unfolding find_service find_instance
find_one c cs iid e r g f =
    let (tbl, (there, here)) = entry_at-table (c ∷ cs) iid r e f in
    ap (λ o. (find_in iid o).1) there ∙ rw (g, here) refl

module _ (n : Network) (retry_cnt : ℕ) (parse_url : List ℕ → Option AllocatedAddress)
    (reallocate : AddressDesc → Option (AllocatedAddress × ℕ)) (names : Names) (level sid : ℕ) where
  -- In a sound name server, a report of at least one address for a service that is registered under a name
  -- that is not empty changes that service alone, to what the report makes of it.
  pub on_register_service_req-only :
      (c : ℕ) (cs : List ℕ) (iid : ℕ) (item : AddrBindStatus) (items : List AddrBindStatus)
      (e : SvcRegistryEntry) (s : NameServer)
      → IsSound s
      → entry_at (c ∷ cs) iid s.registry ≡ some e
      → (m : List ℕ) (i : ℕ)
      → entry_at m i
          (on_register_service_req n retry_cnt parse_url reallocate names level sid
            (c ∷ cs)
            iid
            (item ∷ items)
            s).1.1.registry
        ≡ (if text_eq.beq (c ∷ cs) m && (iid == i)
            then some (registered n retry_cnt parse_url reallocate sid (item ∷ items) e)
            else entry_at m i s.registry)
  unfolding on_register_service_req register_entry registered
  on_register_service_req-only c cs iid item items e s h f m i =
      let (named, (ids, single)) = h.keyed (c ∷ cs) iid e f in
      let first = find_one c cs iid e s.registry single f in
      let entry = registered n retry_cnt parse_url reallocate sid (item ∷ items) e in
      rw (single, first)
        (entry_at-assign e.svc_name m e.instance_id i entry s.registry
          ∙ (ap
                (λ x.
                  if text_eq.beq x m && (e.instance_id == i)
                  then some entry
                  else entry_at m i s.registry)
                named
              ∙ ap
                  (λ j.
                    if text_eq.beq (c ∷ cs) m && (j == i)
                    then some entry
                    else entry_at m i s.registry)
                  ids))
