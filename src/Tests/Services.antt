-- ===== src/Tests/Services.antt =====
-- Runs of the registration of services and of the search for addresses.
use fdbus.Prelude.{
  ℕ, ◌+◌, ◌≤◌, ◌<◌, ◌≡◌, ◌↔◌, ◌⊎◌, refl, arith, ◌==◌, if◌then◌else◌, ◌&&◌, true, false, Option,
  some, List, [], ◌∷◌, ◌++◌,
}
use fdbus.Prelude.Map.{nat_eq, find}
use fdbus.Prelude.Map.Entries.{Has}
use fdbus.AddressAllocator.{AllocatedAddress, user}
use fdbus.Messages.AddrBindStatus.{AddrBindStatus}
use fdbus.ServiceAddresses.{Network, same_text}
use fdbus.NameServer.{AddressDesc, addr_pending, SvcRegistryEntry, RegistryTbl, is_group, text_eq}
use fdbus.NameServer.Registry.{entry_at}
use fdbus.NameServer.Requests.{Names, NameServer, check_exportable, populate_address_item}
use fdbus.NameServer.Allocation.{IsSound}
use fdbus.NameServer.Removal.{all_entries, on_unregister_service_req}
use fdbus.NameServer.Announcing.{
  prepare_addresses_to_notify, populate_tokens_remote, populate_tokens_local,
}
use fdbus.NameServer.Announcing.Audience.{inner, remote_list_iff, populate_tokens-take}
use fdbus.NameServer.Addresses.{
  all_addresses, allocate_address, allocate_udp_port, takes_address, tries_of, find_address,
  is_free,
}
use fdbus.NameServer.Addresses.Tries.{
  Fresh, value_at, has_port, allocate_address-Fresh, allocate_udp_port-unused,
}
use fdbus.NameServer.Binding.{registered, on_register_service_req}
use fdbus.NameServer.Binding.Retries.{Report, retries_left, asked_by_all, registered-retries}
use fdbus.NameServer.Binding.Kept.{on_register_service_req-only}
use fdbus.NameServer.Steps.{new_name_server, here, next, unregisters, reachable-IsSound}

abbrev tcp_address : ℕ → AllocatedAddress
tcp_address port = record {
  url = 116 ∷ port ∷ [];
  type = 1;
  addr = 49 ∷ [];
  port = port;
  secure = false;
  exportable_level = 1;
  interface_id = 0;
}

abbrev waiting : AddressDesc
waiting = record { address = tcp_address 80; status = addr_pending; rebind_count = 0; udp_port = 0 }

abbrev camera : SvcRegistryEntry
camera = record {
  sid = 8;
  addr_tbl = waiting ∷ [];
  tokens = [];
  allow_tcp_secure = false;
  allow_tcp_normal = true;
  exportable_level = 0;
  endpoint_name = 99 ∷ [];
  svc_name = 99 ∷ [];
  svc_type = user;
  instance_id = 5;
}

abbrev registry : RegistryTbl
registry = (99 ∷ [], (5, camera) ∷ []) ∷ []

abbrev server : NameServer
server = record {
  registry = registry;
  instance_id_allocator = 16711680;
  host_name = 104 ∷ [];
  domain_name = [];
  min_upstream_exportable_level = 2;
}

server-IsSound : IsSound server
unfolding find is_group
server-IsSound = record {
  tidy = ((refl, tt), (((λ e. ground (arith, e)), (refl, tt)), tt));
  keyed = λ n i e f. ground (arith, f, text_eq.beq_iff (99 ∷ []) n);
  begin = omega arith;
  end = omega arith;
}

abbrev names : Names
names = record {
  name_server_name = 110 ∷ [];
  host_server_name = 111 ∷ [];
  socket_ipc = 3;
  process_id = 1;
}

abbrev net : Network
net = record {
  local_host = 127 ∷ [];
  all_interface = 48 ∷ [];
  socket_ipc = 3;
  build_url = λ ip port secure. ip;
}

abbrev parse_url : List ℕ → Option AllocatedAddress
parse_url url = some (tcp_address 81)

abbrev reallocate : AddressDesc → Option (AllocatedAddress × ℕ)
reallocate desc = some (tcp_address (desc.address.port + 1), 0)

-- The address could not be bound.
abbrev failed : AddrBindStatus
failed = record { request_addr = 116 ∷ 80 ∷ []; bind_addr = []; udp_port = 0 }

reachable-IsSound_example :
    IsSound (on_unregister_service_req (99 ∷ []) 5 (new_name_server [] [] 2)).1.1
reachable-IsSound_example =
    reachable-IsSound [] [] 2 (on_unregister_service_req (99 ∷ []) 5 (new_name_server [] [] 2)).1.1
      (next here (unregisters (99 ∷ []) 5))

on_register_service_req-only_example :
    entry_at
      (99 ∷ [])
      5
      (on_register_service_req net 3 parse_url reallocate names 1 8
        (99 ∷ [])
        5
        (failed ∷ [])
        server).1.1.registry
    ≡ (if text_eq.beq (99 ∷ []) (99 ∷ []) && (5 == 5)
        then some (registered net 3 parse_url reallocate 8 (failed ∷ []) camera)
        else entry_at (99 ∷ []) 5 registry)
unfolding find same_text
on_register_service_req-only_example =
    on_register_service_req-only net 3 parse_url reallocate names 1 8 99 [] 5 failed [] camera
      server server-IsSound refl (99 ∷ []) 5

abbrev failed_report : Report
failed_report = record { sid = 8; items = failed ∷ []; reallocate = reallocate }

registered-retries_example :
    asked_by_all 3 net parse_url (failed_report ∷ failed_report ∷ []) camera
    ≤ retries_left 3 camera.addr_tbl
registered-retries_example =
    registered-retries 3 net parse_url (failed_report ∷ failed_report ∷ []) camera

remote_list_iff_example :
    Has
      (populate_address_item waiting)
      (prepare_addresses_to_notify net 1 [] (waiting ∷ [])).remote_list
    ↔ ((desc : AddressDesc) × ((Has desc (waiting ∷ []) × (inner net desc ≡ false))
          × ((check_exportable desc 1 ≡ true)
              × (populate_address_item waiting ≡ populate_address_item desc))))
remote_list_iff_example = remote_list_iff net 1 [] (waiting ∷ []) (populate_address_item waiting)

abbrev two_tokens : List (List ℕ)
two_tokens = (97 ∷ []) ∷ (98 ∷ []) ∷ []

populate_tokens-take_example :
    (populate_tokens_remote (some 1) two_tokens ≡ two_tokens)
    × ((others : List (List ℕ)) × (last : List ℕ) × ((populate_tokens_remote (some 1) two_tokens
            ≡ others ++ last ∷ [])
          × (populate_tokens_local (some 1) two_tokens ≡ last ∷ [])))
populate_tokens-take_example = populate_tokens-take 1 (97 ∷ []) ((98 ∷ []) ∷ [])

abbrev by_port : ℕ → AllocatedAddress × ℕ
by_port port = (tcp_address port, port + 1)

allocate_address-Fresh_example :
    let r = allocate_address by_port 1 0 user registry (tcp_address 0) 80 in
    ((r.0 ≡ true)
      × (((r.1.0.type ≡ 1) × (r.1.0.port ≡ 0))
          ⊎ Fresh by_port 1 0 registry (tcp_address 0) 80 r.1.0))
    ⊎ ((r.0 ≡ false)
        × ((i : ℕ)
            → i < tries_of registry
            → is_free (
                find_address
                  (some (value_at by_port (takes_address 1 0 user registry) i 80).type)
                  (value_at by_port (takes_address 1 0 user registry) i 80).url
                  registry)
              ≡ false))
allocate_address-Fresh_example = allocate_address-Fresh by_port 1 0 registry (tcp_address 0) 80

allocate_udp_port-unused_example :
    (((allocate_udp_port true 3 60000 60010 (49 ∷ []) registry 0 60000).0 ≡ true)
      × ((x : AddressDesc)
          → Has x (all_addresses (all_entries registry))
          → has_port 3
              (49 ∷ [])
              (allocate_udp_port true 3 60000 60010 (49 ∷ []) registry 0 60000).1.0
              x
            ≡ false))
    ⊎ (((allocate_udp_port true 3 60000 60010 (49 ∷ []) registry 0 60000).0 ≡ false)
        × ((allocate_udp_port true 3 60000 60010 (49 ∷ []) registry 0 60000).1.0 ≡ 0))
allocate_udp_port-unused_example =
    allocate_udp_port-unused true 3 60000 60010 (49 ∷ []) registry 0 60000
