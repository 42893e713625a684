-- ===== src/NameServer/Steps.antt =====
-- The states that a name server can come to by its requests (server/CNameServer.cpp).
use fdbus.Prelude.{
  ℕ, ◌≤◌, ◌<◌, ◌≡◌, inl, inr, refl, subst, arith, Bool, false, Option, some, List, [], ◌∷◌,
  Bool-cases,
}
use fdbus.Prelude.Map.{find, nat_eq, is_empty}
use fdbus.Prelude.Map.Entries.{Has}
use fdbus.AddressAllocator.{AllocatedAddress}
use fdbus.Messages.AddrBindStatus.{AddrBindStatus}
use fdbus.NameServer.{
  AddressDesc, SvcRegistryEntry, is_group, find_service, text_eq, auto_instance_begin,
}
use fdbus.ServiceAddresses.{Network}
use fdbus.NameServer.Registry.{entry_at-assign, assign-IsTidy}
use fdbus.NameServer.Counting.{total}
use fdbus.NameServer.Requests.{Names, NameServer, AllocReq, Answer, on_alloc_service_address_req}
use fdbus.NameServer.Removal.{
  Notice, remove_entry, first_removed, remove_service, on_unregister_service_req, on_offline,
}
use fdbus.NameServer.Allocation.{IsSound, Answered, on_alloc_service_address_req-Answered}
use fdbus.NameServer.Offline.{Left, without-IsSound, on_offline-Left}
use fdbus.NameServer.Binding.{registered, register_entry, register_first, on_register_service_req}
use fdbus.NameServer.Binding.Kept.{found-entry_at}

abbrev pub new_name_server : List ℕ → List ℕ → ℕ → NameServer
new_name_server host_name domain_name min_level = record {
  registry = [];
  instance_id_allocator = auto_instance_begin;
  host_name = host_name;
  domain_name = domain_name;
  min_upstream_exportable_level = min_level;
}

new_name_server-IsSound :
    (host_name domain_name : List ℕ) (min_level : ℕ)
    → IsSound (new_name_server host_name domain_name min_level)
unfolding find
new_name_server-IsSound host_name domain_name min_level = record {
  tidy = (tt, tt);
  keyed = λ n i e f. absurd (ground (arith, f));
  begin = omega arith;
  end = omega arith;
}

module _ (n : Network) (retry_cnt : ℕ) (parse_url : List ℕ → Option AllocatedAddress)
    (reallocate : AddressDesc → Option (AllocatedAddress × ℕ)) (names : Names) (level sid : ℕ) where
  register_entry-IsSound :
      (items : List AddrBindStatus) (e : SvcRegistryEntry) (s : NameServer)
      → is_group e.instance_id ≡ false
      → IsSound s
      → IsSound (register_entry n retry_cnt parse_url reallocate names level sid items e s).1
  unfolding register_entry registered
  register_entry-IsSound items e s g h = record {
    tidy = assign-IsTidy e.svc_name e.instance_id _ s.registry h.tidy;
    keyed = λ m i x f.
        let entry = registered n retry_cnt parse_url reallocate sid items e in
        ground (
          arith,
          entry_at-assign e.svc_name m e.instance_id i entry s.registry,
          f,
          g,
          h.keyed m i x,
          text_eq.beq_iff e.svc_name m,
        );
    begin = h.begin;
    end = h.end;
  }

  register_first-IsSound :
      (name : List ℕ) (iid : ℕ) (items : List AddrBindStatus) (s : NameServer)
      (matched : List SvcRegistryEntry)
      → ((e : SvcRegistryEntry) → Has e matched → is_group e.instance_id ≡ false)
      → IsSound s
      → IsSound
          (register_first n retry_cnt parse_url reallocate names level sid name iid items s
            matched).1.1
  register_first-IsSound name iid items s [] g h = h
  register_first-IsSound name iid items s (e ∷ others) g h = elim (Bool-cases (is_empty items)) [
    | inl none_bound ↦ rw none_bound (without-IsSound name iid s h)
    | inr some_bound ↦ rw some_bound (register_entry-IsSound items e s (g e (inl refl)) h)
  ]

  on_register_service_req-IsSound :
      (name : List ℕ) (iid : ℕ) (items : List AddrBindStatus) (s : NameServer)
      → IsSound s
      → IsSound
          (on_register_service_req n retry_cnt parse_url reallocate names level sid name iid items
            s).1.1
  unfolding on_register_service_req
  on_register_service_req-IsSound name iid items s h = elim (Bool-cases (is_group iid)) [
    | inl g ↦ rw g h
    | inr g ↦ rw g (
        register_first-IsSound name iid items s (find_service name iid s.registry).1
          (λ e m. (found-entry_at name iid e s h m).0) h)
  ]

first_removed-IsSound :
    (name : List ℕ) (iid : ℕ) (s : NameServer) (matched : List SvcRegistryEntry)
    → IsSound s
    → IsSound (first_removed name iid s matched).1.1
unfolding remove_entry
first_removed-IsSound name iid s [] h = h
first_removed-IsSound name iid s (e ∷ others) h = without-IsSound name iid s h

on_unregister_service_req-IsSound :
    (name : List ℕ) (iid : ℕ) (s : NameServer)
    → IsSound s
    → IsSound (on_unregister_service_req name iid s).1.1
unfolding on_unregister_service_req remove_service
on_unregister_service_req-IsSound name iid s h = elim (Bool-cases (is_group iid)) [
  | inl g ↦ rw g h
  | inr g ↦ rw g (first_removed-IsSound name iid s (find_service name iid s.registry).1 h)
]

-- A request, or the end of a session, with whatever the allocators and the parser of URLs give.
pub data Step (s : NameServer) : NameServer → Type 0 where
  allocates :
      (names : Names) (allocated : Bool → SvcRegistryEntry → List AllocatedAddress)
      (udp_port : List ℕ → Option ℕ) (tokens : List (List ℕ)) (sid : ℕ) (req : AllocReq) (fuel : ℕ)
      (reply_to : Answer) (t : NameServer)
      → 131072 ≤ fuel
      → on_alloc_service_address_req names allocated udp_port tokens sid req fuel s
        ≡ some (reply_to, t)
      → Step s t
  registers :
      (n : Network) (retry_cnt : ℕ) (parse_url : List ℕ → Option AllocatedAddress)
      (reallocate : AddressDesc → Option (AllocatedAddress × ℕ)) (names : Names) (level sid : ℕ)
      (name : List ℕ) (iid : ℕ) (items : List AddrBindStatus)
      → Step s
          (on_register_service_req n retry_cnt parse_url reallocate names level sid name iid items
            s).1.1
  unregisters : (name : List ℕ) (iid : ℕ) → Step s (on_unregister_service_req name iid s).1.1
  session_ends :
      (fuel sid : ℕ) (notices : List Notice) (t : NameServer)
      → total s.registry < fuel
      → on_offline fuel sid s ≡ some (notices, t)
      → Step s t

pub data Reach (s : NameServer) : NameServer → Type 0 where
  here : Reach s s
  next : {t u : NameServer} → Reach s t → Step t u → Reach s u

Step-IsSound : {s t : NameServer} → Step s t → IsSound s → IsSound t
Step-IsSound {s = s} (allocates names allocated udp_port tokens sid req fuel reply_to t enough e)
      h =
    (subst (Answered names allocated udp_port tokens sid req s) e (
      on_alloc_service_address_req-Answered names allocated udp_port tokens sid req fuel s enough
        h)).0
Step-IsSound {s = s} (registers n retry_cnt parse_url reallocate names level sid name iid items) h =
    on_register_service_req-IsSound n retry_cnt parse_url reallocate names level sid name iid items
      s h
Step-IsSound {s = s} (unregisters name iid) h = on_unregister_service_req-IsSound name iid s h
Step-IsSound {s = s} (session_ends fuel sid notices t enough e) h =
    (subst (Left sid s) e (on_offline-Left fuel sid s enough h)).0

Reach-keeps : {s t : NameServer} → IsSound s → Reach s t → IsSound t
Reach-keeps h here = h
Reach-keeps h (next r st) = Step-IsSound st (Reach-keeps h r)

-- Every state that a new name server comes to by allocating addresses, registering and unregistering
-- services and the end of sessions is sound: no name and no instance is registered twice and no name
-- without a service, every service has the name and the instance that it is registered at, which is no
-- group, and the allocator of instances is within its limits.
pub reachable-IsSound :
    (host_name domain_name : List ℕ) (min_level : ℕ) (s : NameServer)
    → Reach (new_name_server host_name domain_name min_level) s
    → IsSound s
reachable-IsSound host_name domain_name min_level s r =
    Reach-keeps (new_name_server-IsSound host_name domain_name min_level) r
