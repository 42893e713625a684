-- ===== src/Tests/Servers.antt =====
-- Runs of the log cache, the address allocators and the exported services.
use fdbus.Prelude.{
  ℕ, ◌+◌, ◌-◌, ◌≤◌, ◌<◌, ◌≡◌, ◌≢◌, refl, inl, Bool, false, not, ◌&&◌, ◌||◌, some, List, [], ◌∷◌,
  ◌++◌, arith, All,
}
use fdbus.LogCache.{LogCache, push}
use fdbus.LogCache.Bounds.{IsSound, push-IsSound}
use fdbus.AddressAllocator.{Config, TcpAllocator, AllocatedAddress}
use fdbus.AddressAllocator.Ids.{addr_after, ipc_allocate-distinct}
use fdbus.AddressAllocator.Ports.{port_of, tcp_allocate-round}
use fdbus.Messages.AddressItem.{AddressItem, new_address_item}
use fdbus.Messages.AddressList.{AddressList, new_address_list}
use fdbus.ServiceAddresses.{
  Network, SvcAddress, blank, same_text, stays_here, validate_url, compare_svc_table,
}
use fdbus.ServiceAddresses.Peers.{AtPeer, validate_url-AtPeer}
use fdbus.ServiceAddresses.Changes.{listed, announced, compare_svc_table-listed}

abbrev fresh : LogCache
fresh = record {
  cache = [];
  max_size = 60;
  cache_size = 0;
  data_id = 0;
  stop_if_full = false;
  full = false;
}

fresh-IsSound : IsSound 24 fresh
fresh-IsSound = record { counted = refl; bounded = inl (omega arith); small = omega arith }

abbrev filled : LogCache
filled = push 24 (1 ∷ 2 ∷ []) 2 7 (push 24 (3 ∷ 4 ∷ []) 2 7 fresh)

filled-IsSound : IsSound 24 filled
unfolding push
filled-IsSound =
    push-IsSound 24 (1 ∷ 2 ∷ []) 2 7 (push 24 (3 ∷ 4 ∷ []) 2 7 fresh)
      (push-IsSound 24 (3 ∷ 4 ∷ []) 2 7 fresh fresh-IsSound (omega arith) (omega arith))
      (omega arith) (omega arith)

push-IsSound_example : IsSound 24 (push 24 (5 ∷ []) 1 7 filled)
unfolding push
push-IsSound_example =
    push-IsSound 24 (5 ∷ []) 1 7 filled filled-IsSound (omega arith) (omega arith)

abbrev config : Config
config = record {
  name_server_ipc_path = 1 ∷ [];
  name_server_ipc_url = 2 ∷ [];
  host_server_ipc_path = 3 ∷ [];
  host_server_ipc_url = 4 ∷ [];
  ipc_path_base = 5 ∷ [];
  ipc_url_base = 6 ∷ [];
  min_port = 60000;
  max_port = 60010;
  exportable_node_internal = 0;
  invalid_id = 0;
  socket_ipc = 3;
  socket_tcp = 1;
}

abbrev decimal : ℕ → List ℕ
decimal n = n ∷ []

decimal-injective : (m n : ℕ) → decimal m ≡ decimal n → m ≡ n
decimal-injective m n e = ground (arith, e)

abbrev build_url : List ℕ → List ℕ → Bool → List ℕ
build_url ip port secure = ip ++ port

ipc_allocate-distinct_example :
    addr_after config decimal false 2 9 ≢ addr_after config decimal false 5 9
ipc_allocate-distinct_example =
    ipc_allocate-distinct config decimal false decimal-injective 2 5 9 (omega arith) (omega arith)
      (omega arith)

abbrev server_addr : AllocatedAddress
server_addr = record {
  url = 2 ∷ [];
  type = 3;
  addr = 1 ∷ [];
  port = 0;
  secure = false;
  exportable_level = 0;
  interface_id = 0;
}

abbrev ports : TcpAllocator
ports = record {
  min_port = 60005;
  max_port = 60010;
  port = 60007;
  interface_ip = [];
  exportable_level = 0;
  interface_id = 0;
}

tcp_allocate-round_example :
    ((i n : ℕ)
      → i < n
      → n ≤ 60010 - 60005
      → port_of config decimal build_url false i ports
        ≢ port_of config decimal build_url false n ports)
    × ((n : ℕ)
        → (60005 ≤ port_of config decimal build_url false n ports)
          × (port_of config decimal build_url false n ports ≤ 60010))
    × (port_of config decimal build_url false ((60010 - 60005) + 1) ports
        ≡ port_of config decimal build_url false 0 ports)
tcp_allocate-round_example =
    tcp_allocate-round config decimal build_url false ports (omega arith) (omega arith)

abbrev server_port : AllocatedAddress
server_port = record {
  url = 60002 ∷ [];
  type = 1;
  addr = [];
  port = 60002;
  secure = false;
  exportable_level = 3;
  interface_id = 0;
}

abbrev net : Network
net = record {
  local_host = 127 ∷ [];
  all_interface = 0 ∷ [];
  socket_ipc = 3;
  build_url = λ ip port secure. ip ++ port ∷ [];
}

abbrev everywhere : AddressItem
everywhere = record new_address_item { tcp_ipc_address = 0 ∷ []; tcp_port = 80; type = 1 }

abbrev here : AddressItem
here = record new_address_item { type = 3 }

abbrev offer : AddressList
offer = record new_address_list { service_name = 104 ∷ []; address_list = here ∷ everywhere ∷ [] }

validate_url-AtPeer_example :
    All (AtPeer net (10 ∷ [])) (validate_url net (some (10 ∷ [])) offer).address_list
unfolding same_text stays_here
validate_url-AtPeer_example = validate_url-AtPeer net (10 ∷ []) offer refl refl

abbrev private_offer : AddressList
private_offer = record new_address_list { service_name = 104 ∷ []; address_list = here ∷ [] }

abbrev current : List SvcAddress
current = record (blank 0) { svc_name = 105 ∷ [] } ∷ []

compare_svc_table-listed_example :
    let (a, r) = compare_svc_table 0 (offer ∷ []) current [] [] in
    (listed (104 ∷ []) 0 a
      ≡ announced (104 ∷ []) 0 (offer ∷ []) && not (listed (104 ∷ []) 0 current))
    × (listed (104 ∷ []) 0 r
        ≡ listed (104 ∷ []) 0 current && not (announced (104 ∷ []) 0 (offer ∷ [])))
    × (((listed (104 ∷ []) 0 current && not (listed (104 ∷ []) 0 r)) || listed (104 ∷ []) 0 a)
        ≡ announced (104 ∷ []) 0 (offer ∷ []))
compare_svc_table-listed_example =
    compare_svc_table-listed 0 (offer ∷ []) current (refl, tt) (104 ∷ []) 0
