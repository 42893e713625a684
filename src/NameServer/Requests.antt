-- ===== src/NameServer/Requests.antt =====
-- The requests to the name server that change its registry (server/CNameServer.cpp): allocating
-- addresses, unregistering, and the end of a session. Allocators and tokens are parameters: `allocated`
-- has the addresses that they give a service, for its local transport or for TCP, `udp_port` the UDP
-- port for an interface, and `tokens` what CFdbToken::allocateToken makes.
use fdbus.Prelude.{
  ℕ, ◌==◌, ltb, if◌then◌else◌, not, ◌||◌, Bool, true, false, Option, none, some, List, [], ◌∷◌,
  ◌++◌,
}
use fdbus.Prelude.Map.{insert, is_empty, assign_at, nat_eq}
use fdbus.AddressAllocator.{FdbServerType, name_server, host_server, user, AllocatedAddress}
use fdbus.Messages.AddressItem.{AddressItem, new_address_item}
use fdbus.Messages.AddressList.{AddressList, new_address_list}
use fdbus.NameServer.{
  addr_pending, AddressDesc, SvcRegistryEntry, RegistryTbl, is_group, find_service,
  auto_instance_begin, auto_instance_end, same_text, text_eq,
}
use fdbus.NameServer.Instances.{choose_instance}

-- The names and numbers of utils/CNsConfig.h and public/fdbus/common_defs.h that the server uses.
pub record Names : Type 0 where
  pub name_server_name : List ℕ
  pub host_server_name : List ℕ
  pub socket_ipc : ℕ
  pub process_id : ℕ

pub record NameServer : Type 0 where
  pub registry : RegistryTbl
  pub instance_id_allocator : ℕ
  pub host_name : List ℕ
  pub domain_name : List ℕ
  pub min_upstream_exportable_level : ℕ

-- The 32 bits of FDB_INET_PORT_INVALID, which is -2.
abbrev pub port_invalid : ℕ
port_invalid = 4294967294

abbrev pub exportable_any : ℕ
exportable_any = 2147483647

unfoldable pub check_exportable : AddressDesc → ℕ → Bool
check_exportable desc max_level =
    let level = desc.address.exportable_level in
    if ltb max_level level
    then false
    else if level == 0
    then max_level == exportable_any || max_level == 0
    else true

unfoldable pub populate_address_item : AddressDesc → AddressItem
populate_address_item desc =
    let has_port = not (desc.udp_port == port_invalid) in
    record {
      tcp_ipc_address = desc.address.addr;
      tcp_port = desc.address.port;
      type = desc.address.type;
      tcp_ipc_url = desc.address.url;
      is_secure = desc.address.secure;
      exportable_level = desc.address.exportable_level;
      interface_id = desc.address.interface_id;
      options = if has_port then 1 else 0;
      udp_port = if has_port then desc.udp_port else new_address_item.udp_port;
    }

unfoldable pub prepare_address : ℕ → AddressDesc → List AddressItem → List AddressItem
prepare_address max_level desc list =
    if check_exportable desc max_level then list ++ populate_address_item desc ∷ [] else list

unfoldable pub prepare_addresses : ℕ → List AddressDesc → List AddressItem → List AddressItem
prepare_addresses max_level [] list = list
prepare_addresses max_level (desc ∷ descs) list =
    prepare_addresses max_level descs (prepare_address max_level desc list)

unfoldable pub set_service_info :
    NameServer → SvcRegistryEntry → Bool → ℕ → AddressList → AddressList
set_service_info s entry is_local pid list = record list {
  service_name = entry.svc_name;
  endpoint_name = entry.endpoint_name;
  host_name = s.host_name;
  domain_name = s.domain_name;
  is_local = is_local;
  pid = pid;
  instance_id = entry.instance_id;
}

-- `IAddressAllocator::getSvcType`
unfoldable pub get_svc_type : Names → List ℕ → FdbServerType
get_svc_type names name =
    if same_text name names.name_server_name
    then name_server
    else if same_text name names.host_server_name
    then host_server
    else user

unfoldable pub address_registered : List AddressDesc → List ℕ → Bool
address_registered [] url = false
address_registered (desc ∷ descs) url =
    same_text desc.address.url url || address_registered descs url

-- FDB_ST_ALREADY_EXIST, FDB_ST_NO_RESOURCE, FDB_ST_NOT_AVAILABLE, FDB_ST_BAD_PARAMETER and
-- FDB_ST_NON_EXIST
pub data Status : Type 0 where
  already_exist : Status
  no_resource : Status
  not_available : Status
  bad_parameter : Status
  non_exist : Status

pub data Answer : Type 0 where
  status : Status → Answer
  reply : AddressList → Answer
  no_answer : Answer

-- FdbMsgServerName, with the two bits of its flag that are read.
pub record AllocReq : Type 0 where
  pub name : List ℕ
  pub endpoint_name : List ℕ
  pub instance_id : ℕ
  pub allow_tcp_secure : Bool
  pub allow_tcp_normal : Bool
  pub exportable_level : ℕ

module _ (names : Names) (allocated : Bool → SvcRegistryEntry → List AllocatedAddress)
    (udp_port : List ℕ → Option ℕ) where
  abbrev or_invalid : Option ℕ → ℕ
  or_invalid none = port_invalid
  or_invalid (some port) = port

  unfoldable pub pending_address : AllocatedAddress → AddressDesc
  pending_address a = record {
    address = a;
    status = addr_pending;
    rebind_count = 0;
    udp_port = if a.type == names.socket_ipc then port_invalid else or_invalid (udp_port a.addr);
  }

  -- The loop of `addOneServiceAddress`: the table, and the addresses that are new in it.
  unfoldable pub add_addresses :
      List AllocatedAddress → List AddressDesc → List AddressDesc × List AddressDesc
  add_addresses [] tbl = (tbl, [])
  add_addresses (a ∷ rest) tbl =
      let (old_tbl, old_new) = add_addresses rest tbl in
      let (added, new) = add_addresses rest (tbl ++ pending_address a ∷ []) in
      if address_registered tbl a.url then (old_tbl, old_new) else (added, pending_address a ∷ new)

  unfoldable pub add_one_service_address :
      Bool → SvcRegistryEntry → SvcRegistryEntry × List AddressDesc
  add_one_service_address inet entry =
      let (tbl, new) = add_addresses (allocated inet entry) entry.addr_tbl in
      (record entry { addr_tbl = tbl }, new)

  unfoldable pub add_service_address : Bool → SvcRegistryEntry → SvcRegistryEntry × List AddressDesc
  add_service_address inet_only entry =
      let (local, first) = if inet_only then (entry, []) else add_one_service_address false entry in
      let (both, second) = add_one_service_address true local in (both, first ++ second)

  module _ (tokens : List (List ℕ)) (sid : ℕ) (req : AllocReq) where
    unfoldable pub new_entry : ℕ → SvcRegistryEntry
    new_entry instance_id = record {
      sid = sid;
      addr_tbl = [];
      tokens = tokens;
      allow_tcp_secure = req.allow_tcp_secure;
      allow_tcp_normal = req.allow_tcp_normal;
      exportable_level = req.exportable_level;
      endpoint_name = req.endpoint_name;
      svc_name = req.name;
      svc_type = get_svc_type names req.name;
      instance_id = instance_id;
    }

    -- What `onAllocServiceAddressReq` does with the id that it has chosen. Without an address the entry
    -- stays all the same.
    unfoldable pub enter_service : ℕ → NameServer → Answer × NameServer
    enter_service instance_id s =
        let (entry, new) = add_service_address false (new_entry instance_id) in
        let items = prepare_addresses exportable_any new [] in
        let pid = if same_text names.name_server_name req.name then names.process_id else 0 in
        let answer = record (set_service_info s entry true pid new_address_list) {
          address_list = items;
          token_list = tokens;
        } in
        (
          if is_empty items then status not_available else reply answer,
          record s { registry = assign_at req.name (insert instance_id entry) s.registry },
        )

    abbrev pub chosen : NameServer → Option (Option ℕ × ℕ) → Option (Answer × NameServer)
    chosen s none = none
    chosen s (some (none, next)) =
        some (status no_resource, record s { instance_id_allocator = next })
    chosen s (some (some id, next)) =
        some (enter_service id (record s { instance_id_allocator = next }))

    -- Without fuel there is no result.
    unfoldable pub on_alloc_service_address_req : ℕ → NameServer → Option (Answer × NameServer)
    on_alloc_service_address_req fuel s =
        let used : ℕ → Bool = λ id. (find_service req.name id s.registry).0 in
        if is_group req.instance_id
        then chosen s (
            choose_instance auto_instance_begin auto_instance_end used req.instance_id fuel false
              s.instance_id_allocator)
        else if used req.instance_id
        then some (status already_exist, s)
        else some (enter_service req.instance_id s)
