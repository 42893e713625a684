-- ===== src/ServiceAddresses.antt =====
-- CSvcAddrUtils (server/CSvcAddrUtils.h, server/CSvcAddrUtils.cpp): which addresses of a service go to
-- which peer, and what changes between two lists of exported services. `build_url` is
-- CBaseSocketFactory::buildUrl; `local_host` and `all_interface` are FDB_LOCAL_HOST and
-- FDB_IP_ALL_INTERFACE, `socket_ipc` is FDB_SOCKET_IPC, and `unset` is what an int32_t that the code
-- does not set holds.
pub mod Peers
pub mod Changes
use fdbus.Prelude.{
  ℕ, Option, none, some, Bool, true, false, not, ◌&&◌, ◌||◌, List, [], ◌∷◌, ◌++◌, map, ◌==◌,
  if◌then◌else◌,
}
use fdbus.Messages.AddressItem.{AddressItem}
use fdbus.Messages.AddressList.{AddressList}

unfoldable pub same_text : List ℕ → List ℕ → Bool
same_text [] [] = true
same_text [] (y ∷ ys) = false
same_text (x ∷ xs) [] = false
same_text (x ∷ xs) (y ∷ ys) = (x == y) && same_text xs ys

-- The strings and the function that the URLs come from.
pub record Network : Type 0 where
  pub local_host : List ℕ
  pub all_interface : List ℕ
  pub socket_ipc : ℕ
  pub build_url : List ℕ → ℕ → Bool → List ℕ

-- The addresses that validateUrl sorts.
pub record Candidates : Type 0 where
  pub best : List AddressItem
  pub all_if : List AddressItem
  pub fallback : List AddressItem

abbrev pub is_nil {ℓ} : {A : Type ℓ} → List A → Bool
is_nil [] = true
is_nil (x ∷ xs) = false

module _ (n : Network) where
  -- The first test of both loops.
  unfoldable pub stays_here : AddressItem → Bool
  unfolding same_text
  stays_here item = (item.type == n.socket_ipc) || same_text item.tcp_ipc_address n.local_host

  unfoldable pub readdress : List ℕ → AddressItem → AddressItem
  readdress peer_ip item = record item {
    tcp_ipc_address = peer_ip;
    tcp_ipc_url = n.build_url peer_ip item.tcp_port item.is_secure;
  }

  -- What one round of validateUrl's loop adds to the front of what the rounds after it collect.
  unfoldable pub sort_item : List ℕ → AddressItem → Candidates → Candidates
  unfolding stays_here readdress
  sort_item peer_ip item c =
      if stays_here item
      then c
      else if same_text item.tcp_ipc_address peer_ip
      then record c { best = item ∷ c.best }
      else if same_text item.tcp_ipc_address n.all_interface && not (is_nil peer_ip)
      then record c { all_if = readdress peer_ip item ∷ c.all_if }
      else record c { fallback = item ∷ c.fallback }

  unfoldable pub sort_items : List ℕ → List AddressItem → Candidates
  unfolding sort_item
  sort_items peer_ip [] = record { best = []; all_if = []; fallback = [] }
  sort_items peer_ip (item ∷ items) = sort_item peer_ip item (sort_items peer_ip items)

  unfoldable pub choose : List AddressItem → Candidates → List AddressItem
  choose pool c =
      if not (is_nil c.best)
      then c.best
      else if not (is_nil c.all_if)
      then c.all_if
      else if not (is_nil c.fallback)
      then c.fallback
      else pool

  -- The session is absent or has the address of its peer.
  unfoldable pub validate_url : Option (List ℕ) → AddressList → AddressList
  unfolding choose sort_items
  validate_url none m = m
  validate_url (some peer_ip) m = record m {
    address_list = choose m.address_list (sort_items peer_ip m.address_list);
  }

  unfoldable pub validate_urls : Option (List ℕ) → List AddressList → List AddressList
  unfolding validate_url
  validate_urls session svc_address_list = map (validate_url session) svc_address_list

  unfoldable pub verify_items : List ℕ → List AddressItem → List AddressItem
  unfolding stays_here readdress
  verify_items peer_ip [] = []
  verify_items peer_ip (item ∷ items) =
      let rest = verify_items peer_ip items in
      if stays_here item
      then rest
      else if same_text item.tcp_ipc_address n.all_interface && not (is_nil peer_ip)
      then readdress peer_ip item ∷ rest
      else item ∷ rest

  unfoldable pub verify_url : Option (List ℕ) → List AddressItem → List AddressItem
  unfolding verify_items same_text
  verify_url none pool = pool
  verify_url (some peer_ip) pool =
      if same_text peer_ip n.local_host then pool else verify_items peer_ip pool

  unfoldable pub verify_urls : Option (List ℕ) → List AddressList → List AddressList
  unfolding verify_url
  verify_urls session svc_address_list =
      map {A = AddressList} (λ m. record m { address_list = verify_url session m.address_list })
        svc_address_list

-- CFdbSocketAddrInfo, with the socket address inside.
pub record SocketAddrInfo : Type 0 where
  pub addr : List ℕ
  pub port : ℕ
  pub type : ℕ
  pub url : List ℕ
  pub secure : Bool
  pub udp_port : ℕ
  pub exportable_level : ℕ
  pub interface_id : ℕ

-- CFdbSvcAddress.
pub record SvcAddress : Type 0 where
  pub addr_tbl : List SocketAddrInfo
  pub instance_id : ℕ
  pub svc_name : List ℕ
  pub endpoint_name : List ℕ
  pub host_name : List ℕ
  pub domain_name : List ℕ
  pub tokens : List (List ℕ)

unfoldable pub to_socket_address : AddressItem → SocketAddrInfo
to_socket_address item = record {
  addr = item.tcp_ipc_address;
  port = item.tcp_port;
  type = item.type;
  url = item.tcp_ipc_url;
  secure = item.is_secure;
  udp_port = item.udp_port;
  exportable_level = item.exportable_level;
  interface_id = item.interface_id;
}

-- `exported` is the entry as it was; an entry just added is `blank`.
unfoldable pub populate_to_host_info : AddressList → SvcAddress → SvcAddress
unfolding to_socket_address
populate_to_host_info m exported = if is_nil m.address_list then exported else record {
  addr_tbl = exported.addr_tbl ++ map to_socket_address m.address_list;
  instance_id = m.instance_id;
  svc_name = m.service_name;
  endpoint_name = m.endpoint_name;
  host_name = m.host_name;
  domain_name = m.domain_name;
  tokens = exported.tokens ++ m.token_list;
}

abbrev pub blank : ℕ → SvcAddress
blank unset = record {
  addr_tbl = [];
  instance_id = unset;
  svc_name = [];
  endpoint_name = [];
  host_name = [];
  domain_name = [];
  tokens = [];
}

module _ (unset : ℕ) where
  unfoldable pub populate_table : List AddressList → List SvcAddress → List SvcAddress
  unfolding populate_to_host_info
  populate_table svc_address_list svc_addr_tbl =
      svc_addr_tbl ++ map (λ m. populate_to_host_info m (blank unset)) svc_address_list

  unfoldable pub same_service : AddressList → SvcAddress → Bool
  unfolding same_text
  same_service m svc = same_text svc.svc_name m.service_name && (svc.instance_id == m.instance_id)

  unfoldable pub in_current : AddressList → List SvcAddress → Bool
  unfolding same_service
  in_current m [] = false
  in_current m (svc ∷ current) = same_service m svc || in_current m current

  unfoldable pub in_new : SvcAddress → List AddressList → Bool
  unfolding same_service
  in_new svc [] = false
  in_new svc (m ∷ new) = same_service m svc || in_new svc new

  unfoldable pub added : List AddressList → List SvcAddress → List SvcAddress
  unfolding in_current populate_to_host_info
  added [] current = []
  added (m ∷ new) current =
      let rest = added new current in
      if in_current m current then rest else populate_to_host_info m (blank unset) ∷ rest

  unfoldable pub removed : List AddressList → List SvcAddress → List SvcAddress
  unfolding in_new
  removed new [] = []
  removed new (svc ∷ current) =
      let rest = removed new current in if in_new svc new then rest else svc ∷ rest

  -- What the code appends to `added_svc_tbl` and `removed_svc_tbl`.
  unfoldable pub compare_svc_table :
      List AddressList
      → List SvcAddress
      → List SvcAddress
      → List SvcAddress
      → List SvcAddress × List SvcAddress
  unfolding added removed
  compare_svc_table new current added_svc_tbl removed_svc_tbl =
      (added_svc_tbl ++ added new current, removed_svc_tbl ++ removed new current)
