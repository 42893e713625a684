-- ===== src/Tests/Registry.antt =====
-- Runs of the name server.
use fdbus.Prelude.{
  ℕ, ◌≡◌, ◌↔◌, refl, arith, if◌then◌else◌, not, Bool, true, false, Option, none, List, [], ◌∷◌,
}
use fdbus.Prelude.Map.{nat_eq, find, is_empty}
use fdbus.Prelude.Map.Entries.{Has}
use fdbus.AddressAllocator.{AllocatedAddress, user}
use fdbus.NameServer.{SvcRegistryEntry, RegistryTbl, find_service, is_group, text_eq}
use fdbus.NameServer.Registry.{IsTidy}
use fdbus.NameServer.Found.{Registered, find_service_iff}
use fdbus.NameServer.Requests.{Names, NameServer, AllocReq, on_alloc_service_address_req}
use fdbus.NameServer.Removal.{on_offline}
use fdbus.NameServer.Allocation.{IsSound, Answered, on_alloc_service_address_req-Answered}
use fdbus.NameServer.Offline.{Left, on_offline-Left}

abbrev camera : SvcRegistryEntry
camera = record {
  sid = 8;
  addr_tbl = [];
  tokens = [];
  allow_tcp_secure = false;
  allow_tcp_normal = true;
  exportable_level = 0;
  endpoint_name = 99 ∷ [];
  svc_name = 99 ∷ [];
  svc_type = user;
  instance_id = 5;
}

abbrev registry : RegistryTbl
registry = (99 ∷ [], (5, camera) ∷ []) ∷ []

registry-IsTidy : IsTidy registry
unfolding find
registry-IsTidy = ((refl, tt), (((λ e. ground (arith, e)), (refl, tt)), tt))

-- All services of the group 0.
find_service_iff_example :
    ((find_service [] 16777215 registry).0 ≡ not (is_empty (find_service [] 16777215 registry).1))
    × ((e : SvcRegistryEntry)
        → Has e (find_service [] 16777215 registry).1 ↔ Registered [] 16777215 e registry)
unfolding find
find_service_iff_example = find_service_iff [] 16777215 registry (refl, tt) ((refl, tt), tt)

abbrev server : NameServer
server = record {
  registry = registry;
  instance_id_allocator = 16711680;
  host_name = 104 ∷ [];
  domain_name = [];
  min_upstream_exportable_level = 2;
}

server-IsSound : IsSound server
unfolding find is_group
server-IsSound = record {
  tidy = registry-IsTidy;
  keyed = λ n i e f. ground (arith, f, text_eq.beq_iff (99 ∷ []) n);
  begin = omega arith;
  end = omega arith;
}

abbrev names : Names
names = record {
  name_server_name = 110 ∷ [];
  host_server_name = 111 ∷ [];
  socket_ipc = 3;
  process_id = 1;
}

abbrev one_address : Bool → SvcRegistryEntry → List AllocatedAddress
one_address inet entry =
    record {
      url = 117 ∷ entry.svc_name;
      type = if inet then 1 else 3;
      addr = [];
      port = 0;
      secure = false;
      exportable_level = 0;
      interface_id = 0;
    }
    ∷ []

abbrev no_port : List ℕ → Option ℕ
no_port addr = none

-- Any instance of the group 0.
abbrev request : AllocReq
request = record {
  name = 99 ∷ [];
  endpoint_name = 101 ∷ [];
  instance_id = 16777215;
  allow_tcp_secure = false;
  allow_tcp_normal = true;
  exportable_level = 0;
}

on_alloc_service_address_req-Answered_example :
    Answered names one_address no_port [] 9 request server
      (on_alloc_service_address_req names one_address no_port [] 9 request 131072 server)
on_alloc_service_address_req-Answered_example =
    on_alloc_service_address_req-Answered names one_address no_port [] 9 request 131072 server
      (omega arith) server-IsSound

on_offline-Left_example : Left 8 server (on_offline 2 8 server)
on_offline-Left_example = on_offline-Left 2 8 server (omega arith) server-IsSound
