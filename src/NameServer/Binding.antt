-- ===== src/NameServer/Binding.antt =====
-- A server reports which of its addresses it has bound: `onRegisterServiceReq` with `rebindToAddress`
-- (server/CNameServer.cpp). `parse_url` is CBaseSocketFactory::parseUrl, of whose result only the members of
-- the socket address are used; `reallocate` gives another address of the same kind and its UDP port, from the
-- allocator of the address that could not be bound.
pub mod Kept
pub mod Retries
use fdbus.Prelude.{
  ℕ, ◌+◌, ◌==◌, leb, if◌then◌else◌, not, ◌&&◌, ◌||◌, Bool, true, false, Option, none, some, List,
  [], ◌∷◌, ◌++◌,
}
use fdbus.Prelude.Map.{is_empty, insert, assign_at, nat_eq}
use fdbus.AddressAllocator.{AllocatedAddress}
use fdbus.Messages.AddressList.{AddressList, new_address_list}
use fdbus.Messages.AddrBindStatus.{AddrBindStatus}
use fdbus.NameServer.{
  AddressStatus, addr_free, addr_pending, addr_bound, AddressDesc, SvcRegistryEntry, is_group,
  find_service, erase_service, same_text, text_eq,
}
use fdbus.ServiceAddresses.{Network}
use fdbus.NameServer.Requests.{
  Names, NameServer, Answer, status, no_answer, bad_parameter, non_exist, set_service_info,
  populate_address_item, port_invalid,
}
use fdbus.NameServer.Removal.{
  Notice, local_clients, remote_clients, local_monitors, remote_monitors, host_servers,
  bind_address, connect_host_server, is_bound, populate_export_addr_list,
}
use fdbus.NameServer.Announcing.{Announced, exportable_domain, prepare_addresses_to_notify}

abbrev is_pending : AddressStatus → Bool
is_pending addr_free = false
is_pending addr_pending = true
is_pending addr_bound = false

unfoldable pub has_pending_address : List AddressDesc → Bool
has_pending_address [] = false
has_pending_address (desc ∷ descs) = is_pending desc.status || has_pending_address descs

-- `desc->mAddress = addr`, which leaves the level and the interface.
unfoldable pub with_socket : AllocatedAddress → AllocatedAddress → AllocatedAddress
with_socket old socket = record socket {
  exportable_level = old.exportable_level;
  interface_id = old.interface_id;
}

-- An address that is in no table yet: of level FDB_EXPORTABLE_DOMAIN and without an interface, whose id
-- is `~0`.
unfoldable pub new_desc : AllocatedAddress → AddressDesc
new_desc socket = record {
  address = record socket { exportable_level = exportable_domain; interface_id = 4294967295 };
  status = addr_bound;
  rebind_count = 0;
  udp_port = port_invalid;
}

module _ (n : Network) (retry_cnt : ℕ) (parse_url : List ℕ → Option AllocatedAddress)
    (reallocate : AddressDesc → Option (AllocatedAddress × ℕ)) where
  abbrev pub rebound : AddressDesc → Option (AllocatedAddress × ℕ) → Option AddressDesc
  rebound desc none = none
  rebound desc (some (a, port)) =
      some (record desc { address = a; udp_port = port; rebind_count = desc.rebind_count + 1 })

  -- `none` is the result false, after which the address is dropped.
  unfoldable pub rebind_to_address : AddressDesc → Option AddressDesc
  rebind_to_address desc =
      if leb retry_cnt desc.rebind_count then none else rebound desc (reallocate desc)

  abbrev pub moved : AddressDesc → Option AllocatedAddress → AddressDesc
  moved desc none = desc
  moved desc (some socket) = record desc { address = with_socket desc.address socket }

  -- The address is bound, to the one asked for or to another.
  unfoldable pub bound : AddrBindStatus → AddressDesc → AddressDesc
  bound item desc =
      let now = record desc { status = addr_bound; udp_port = item.udp_port } in
      if not (desc.address.type == n.socket_ipc) && not (same_text item.bind_addr desc.address.url)
      then moved now (parse_url item.bind_addr)
      else now

  -- What an address that could not be bound becomes, with what is asked of the server.
  abbrev pub retried : Option AddressDesc → List AddressDesc × List AddressDesc
  retried none = ([], [])
  retried (some desc) = (desc ∷ [], desc ∷ [])

  unfoldable pub handled : AddrBindStatus → AddressDesc → List AddressDesc × List AddressDesc
  handled item desc =
      if not (is_empty item.bind_addr)
      then (bound item desc ∷ [], [])
      else if is_bound desc.status
      then (desc ∷ [], [])
      else retried (rebind_to_address desc)

  -- The first address of the table that was asked for; `false` if there is none.
  unfoldable pub bind_in_table :
      AddrBindStatus → List AddressDesc → Bool × (List AddressDesc × List AddressDesc)
  bind_in_table item [] = (false, ([], []))
  bind_in_table item (desc ∷ descs) =
      let (found, (rest, asked)) = bind_in_table item descs in
      let (own, own_asked) = handled item desc in
      if same_text item.request_addr desc.address.url
      then (true, (own ++ descs, own_asked))
      else (found, (desc ∷ rest, asked))

  abbrev pub parsed : Option AllocatedAddress → List AddressDesc
  parsed none = []
  parsed (some socket) = new_desc socket ∷ []

  -- The loop over the reported addresses: the table, the new addresses, and those to be bound again.
  unfoldable pub bind_all :
      List AddrBindStatus
      → List AddressDesc
      → List AddressDesc × (List AddressDesc × List AddressDesc)
  bind_all [] tbl = (tbl, ([], []))
  bind_all (item ∷ items) tbl =
      let (found, (after, asked)) = bind_in_table item tbl in
      let (end, (new, more)) = bind_all items after in
      (end, ((if found then new else parsed (parse_url item.bind_addr) ++ new), asked ++ more))

  unfoldable pub ask_to_bind : NameServer → SvcRegistryEntry → List AddressDesc → List Notice
  ask_to_bind s entry [] = []
  ask_to_bind s entry (desc ∷ descs) =
      let list = record (set_service_info s entry true 0 new_address_list) {
        address_list = populate_address_item desc ∷ [];
      } in
      bind_address list ∷ ask_to_bind s entry descs

  -- What is sent when all addresses of a service are bound.
  unfoldable pub announce : Names → ℕ → NameServer → SvcRegistryEntry → List Notice
  announce names max_domain_level s entry =
      let a = prepare_addresses_to_notify n max_domain_level [] entry.addr_tbl in
      let here = set_service_info s entry true 0 new_address_list in
      let there = set_service_info s entry false 0 new_address_list in
      let all = record here { address_list = a.all_list } in
      let outside = record all { is_local = false } in
      let local = record here { address_list = a.local_list } in
      let remote = record there { address_list = a.remote_list } in
      let to_host_server =
        same_text entry.svc_name names.host_server_name && not (is_empty a.best_local_url) in
      (if to_host_server then connect_host_server a.best_local_url ∷ [] else [])
      ++ ((if is_empty a.all_list then [] else local_monitors all ∷ remote_monitors outside ∷ [])
          ++ ((if is_empty a.local_list then [] else local_clients entry.tokens local ∷ [])
              ++ ((if is_empty a.remote_list then [] else remote_clients entry.tokens remote ∷ [])
                  ++ host_servers (populate_export_addr_list s) ∷ [])))

  -- The entry of a service that has reported its addresses.
  unfoldable pub registered : ℕ → List AddrBindStatus → SvcRegistryEntry → SvcRegistryEntry
  registered sid items entry =
      let (tbl, (new, asked)) = bind_all items entry.addr_tbl in
      record entry { sid = sid; addr_tbl = tbl ++ new }

  unfoldable pub register_entry :
      Names → ℕ → ℕ → List AddrBindStatus → SvcRegistryEntry → NameServer → List Notice × NameServer
  register_entry names max_domain_level sid items old s =
      let entry = registered sid items old in
      let asked = (bind_all items old.addr_tbl).1.1 in
      let after = record s {
        registry = assign_at entry.svc_name (insert entry.instance_id entry) s.registry;
      } in
      let news =
        if has_pending_address entry.addr_tbl
        then []
        else announce names max_domain_level after entry in
      (ask_to_bind s entry asked ++ news, after)

  abbrev pub register_first :
      Names
      → ℕ
      → ℕ
      → List ℕ
      → ℕ
      → List AddrBindStatus
      → NameServer
      → List SvcRegistryEntry
      → Answer × (List Notice × NameServer)
  register_first names level sid name iid items s [] = (status non_exist, ([], s))
  register_first names level sid name iid items s (entry ∷ others) =
      if is_empty items
      then (no_answer, ([], record s { registry = (erase_service name iid s.registry).1 }))
      else (no_answer, register_entry names level sid items entry s)

  unfoldable pub on_register_service_req :
      Names
      → ℕ
      → ℕ
      → List ℕ
      → ℕ
      → List AddrBindStatus
      → NameServer
      → Answer × (List Notice × NameServer)
  on_register_service_req names level sid name iid items s =
      if is_group iid
      then (status bad_parameter, ([], s))
      else register_first names level sid name iid items s (find_service name iid s.registry).1
