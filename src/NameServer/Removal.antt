-- ===== src/NameServer/Removal.antt =====
-- How a service leaves the registry: `removeService`, `onUnegisterServiceReq` and `onOffline` of
-- server/CNameServer.cpp. A message to the subscribers of one of the publishers is a notice; those that
-- carry tokens go through `populateTokensLocal` or `populateTokensRemote` to each subscriber.
use fdbus.Prelude.{
  ℕ, zero, suc, ◌==◌, ltb, if◌then◌else◌, not, ◌&&◌, ◌||◌, Bool, true, false, Option, none, some,
  List, [], ◌∷◌, ◌++◌,
}
use fdbus.Prelude.Map.{is_empty}
use fdbus.Messages.AddressItem.{AddressItem}
use fdbus.Messages.AddressList.{AddressList, new_address_list}
use fdbus.NameServer.{
  AddressStatus, addr_free, addr_pending, addr_bound, AddressDesc, SvcRegistryEntry, RegistryTbl,
  is_group, find_service, erase_service, entries,
}
use fdbus.NameServer.Requests.{
  NameServer, set_service_info, Answer, status, no_answer, bad_parameter,
}

pub data Notice : Type 0 where
  local_clients : List (List ℕ) → AddressList → Notice
  remote_clients : List (List ℕ) → AddressList → Notice
  local_monitors : AddressList → Notice
  remote_monitors : AddressList → Notice
  host_servers : List AddressList → Notice
  -- To the server that is asked to bind an address.
  bind_address : AddressList → Notice
  -- A connection to the host server.
  connect_host_server : List ℕ → Notice

abbrev pub is_bound : AddressStatus → Bool
is_bound addr_free = false
is_bound addr_pending = false
is_bound addr_bound = true

unfoldable pub exported_item : AddressDesc → AddressItem
exported_item desc = record {
  tcp_ipc_address = desc.address.addr;
  tcp_port = desc.address.port;
  type = desc.address.type;
  tcp_ipc_url = desc.address.url;
  is_secure = desc.address.secure;
  exportable_level = desc.address.exportable_level;
  interface_id = desc.address.interface_id;
  options = 1;
  udp_port = desc.udp_port;
}

unfoldable pub exported_items : ℕ → List AddressDesc → List AddressItem
exported_items min_level [] = []
exported_items min_level (desc ∷ descs) =
    let rest = exported_items min_level descs in
    if ltb desc.address.exportable_level min_level || not (is_bound desc.status)
    then rest
    else exported_item desc ∷ rest

-- A service without an exported address has no list.
unfoldable pub exported_services : NameServer → List SvcRegistryEntry → List AddressList
exported_services s [] = []
exported_services s (entry ∷ rest) =
    let items = exported_items s.min_upstream_exportable_level entry.addr_tbl in
    let list = record (set_service_info s entry false 0 new_address_list) {
      address_list = items;
    } in
    let others = exported_services s rest in if is_empty items then others else list ∷ others

abbrev pub all_entries : RegistryTbl → List SvcRegistryEntry
all_entries [] = []
all_entries ((name, tbl) ∷ rest) = entries tbl ++ all_entries rest

unfoldable pub populate_export_addr_list : NameServer → List AddressList
populate_export_addr_list s = exported_services s (all_entries s.registry)

unfoldable pub exported_address : List AddressDesc → Bool
exported_address [] = false
exported_address (desc ∷ descs) =
    (ltb 0 desc.address.exportable_level && is_bound desc.status) || exported_address descs

-- What `removeService` sends, and the server after it, when `entry` is the first that is found.
unfoldable pub remove_entry :
    List ℕ → ℕ → SvcRegistryEntry → NameServer → Bool × (List Notice × NameServer)
remove_entry name iid entry s =
    let list = set_service_info s entry true 0 new_address_list in
    let remote = record list { is_local = false } in
    let (erased, registry) = erase_service name iid s.registry in
    let after = record s { registry = registry } in
    let exported = host_servers (populate_export_addr_list after) ∷ [] in
    let posted = if exported_address entry.addr_tbl then exported else [] in
    (
      erased,
      (
        local_clients entry.tokens list
            ∷ local_monitors list
            ∷ remote_clients entry.tokens remote
            ∷ remote_monitors remote
            ∷ posted,
        after,
      ),
    )

abbrev pub first_removed :
    List ℕ → ℕ → NameServer → List SvcRegistryEntry → Bool × (List Notice × NameServer)
first_removed name iid s [] = (false, ([], s))
first_removed name iid s (entry ∷ others) = remove_entry name iid entry s

unfoldable pub remove_service : List ℕ → ℕ → NameServer → Bool × (List Notice × NameServer)
remove_service name iid s = first_removed name iid s (find_service name iid s.registry).1

unfoldable pub on_unregister_service_req :
    List ℕ → ℕ → NameServer → Answer × (List Notice × NameServer)
on_unregister_service_req name iid s =
    let (erased, after) = remove_service name iid s in
    if is_group iid then (status bad_parameter, ([], s)) else (no_answer, after)

-- One scan of `onOffline`: the first service of the session that can be removed is.
unfoldable pub offline_scan :
    ℕ → List SvcRegistryEntry → NameServer → Bool × (List Notice × NameServer)
offline_scan sid [] s = (false, ([], s))
offline_scan sid (entry ∷ rest) s =
    let (erased, (notices, after)) = remove_service entry.svc_name entry.instance_id s in
    let (again, (more, end)) = offline_scan sid rest after in
    let others = offline_scan sid rest s in
    if entry.sid == sid
    then (if erased then (true, (notices, after)) else (again, (notices ++ more, end)))
    else others

abbrev pub with_notices :
    List Notice → Option (List Notice × NameServer) → Option (List Notice × NameServer)
with_notices notices none = none
with_notices notices (some (more, s)) = some (notices ++ more, s)

-- Without fuel the loop has no result.
unfoldable pub on_offline : ℕ → ℕ → NameServer → Option (List Notice × NameServer)
on_offline zero sid s = none
on_offline (suc fuel) sid s =
    let (again, (notices, after)) = offline_scan sid (all_entries s.registry) s in
    let rest = on_offline fuel sid after in
    if again then with_notices notices rest else some (notices, after)
