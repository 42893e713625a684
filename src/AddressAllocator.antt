-- ===== src/AddressAllocator.antt =====
-- CIPCAddressAllocator, CTCPAddressAllocator and CUDPPortAllocator (server/CAddressAllocator.h,
-- server/CAddressAllocator.cpp). The paths and ports of utils/CNsConfig.h are the fields of `Config`;
-- `decimal` is what sprintf("%u") prints and `build_url` is CBaseSocketFactory::buildUrl. Ports are in
-- ℕ: the configured ones are positive and below 2 ^ 16. TCP ports are allocated as in a build without
-- CFG_ALLOC_PORT_BY_SYSTEM.
pub mod Ids
pub mod Ports
use fdbus.Prelude.{
  ℕ, ◌+◌, ◌%◌, ◌^◌, Option, none, some, Bool, true, false, List, ◌++◌, ltb, if◌then◌else◌,
}

pub data FdbServerType : Type 0 where
  name_server : FdbServerType
  host_server : FdbServerType
  log_server : FdbServerType
  user : FdbServerType
  unknown : FdbServerType

pub record Config : Type 0 where
  pub name_server_ipc_path : List ℕ
  pub name_server_ipc_url : List ℕ
  pub host_server_ipc_path : List ℕ
  pub host_server_ipc_url : List ℕ
  pub ipc_path_base : List ℕ
  pub ipc_url_base : List ℕ
  pub min_port : ℕ
  pub max_port : ℕ
  pub exportable_node_internal : ℕ
  pub invalid_id : ℕ
  pub socket_ipc : ℕ
  pub socket_tcp : ℕ

abbrev pub name_server_tcp_port : Config → Bool → ℕ
name_server_tcp_port k secure = if secure then k.min_port + 3 else k.min_port + 2

abbrev pub host_server_tcp_port : Config → Bool → ℕ
host_server_tcp_port k secure = if secure then k.min_port + 1 else k.min_port

abbrev pub tcp_port_min : Config → ℕ
tcp_port_min k = k.min_port + 5

-- CAllocatedAddress, with the socket address inside.
pub record AllocatedAddress : Type 0 where
  pub url : List ℕ
  pub type : ℕ
  pub addr : List ℕ
  pub port : ℕ
  pub secure : Bool
  pub exportable_level : ℕ
  pub interface_id : ℕ

module _ (k : Config) (decimal : ℕ → List ℕ) where
  abbrev ipc_address : List ℕ → List ℕ → Bool → AllocatedAddress
  ipc_address addr url secure = record {
    url = url;
    type = k.socket_ipc;
    addr = addr;
    port = 0;
    secure = secure;
    exportable_level = k.exportable_node_internal;
    interface_id = k.invalid_id;
  }

  -- The state is `mSocketId`, a uint32_t.
  unfoldable pub ipc_allocate_user : Bool → ℕ → AllocatedAddress × ℕ
  ipc_allocate_user secure socket_id =
      let id_string = decimal socket_id in
      (
        ipc_address (k.ipc_path_base ++ id_string) (k.ipc_url_base ++ id_string) secure,
        (socket_id + 1) % 2 ^ 32,
      )

  unfoldable pub ipc_allocate : FdbServerType → Bool → ℕ → AllocatedAddress × ℕ
  unfolding ipc_allocate_user
  ipc_allocate name_server secure socket_id =
      (ipc_address k.name_server_ipc_path k.name_server_ipc_url secure, socket_id)
  ipc_allocate host_server secure socket_id =
      (ipc_address k.host_server_ipc_path k.host_server_ipc_url secure, socket_id)
  ipc_allocate log_server secure socket_id = ipc_allocate_user secure socket_id
  ipc_allocate user secure socket_id = ipc_allocate_user secure socket_id
  ipc_allocate unknown secure socket_id = ipc_allocate_user secure socket_id

  unfoldable pub ipc_allocate_known : FdbServerType → Bool → Option AllocatedAddress
  ipc_allocate_known name_server secure =
      some (ipc_address k.name_server_ipc_path k.name_server_ipc_url secure)
  ipc_allocate_known host_server secure =
      some (ipc_address k.host_server_ipc_path k.host_server_ipc_url secure)
  ipc_allocate_known log_server secure = none
  ipc_allocate_known user secure = none
  ipc_allocate_known unknown secure = none

unfoldable pub ipc_reset : ℕ → ℕ
ipc_reset socket_id = 0

pub record TcpAllocator : Type 0 where
  pub min_port : ℕ
  pub max_port : ℕ
  pub port : ℕ
  pub interface_ip : List ℕ
  pub exportable_level : ℕ
  pub interface_id : ℕ

-- `interface_ip` and `interface_id` are what the setters store before the allocator is used.
unfoldable pub new_tcp_allocator : Config → ℕ → List ℕ → ℕ → TcpAllocator
new_tcp_allocator k exportable_domain interface_ip interface_id = record {
  min_port = tcp_port_min k;
  max_port = k.max_port;
  port = tcp_port_min k;
  interface_ip = interface_ip;
  exportable_level = exportable_domain;
  interface_id = interface_id;
}

-- The port that is handed out, and `mPort` after it: CTCPAddressAllocator and CUDPPortAllocator alike.
unfoldable pub next_port : ℕ → ℕ → ℕ → ℕ × ℕ
next_port min_port max_port port = (port, if ltb max_port (port + 1) then min_port else port + 1)

module _ (k : Config) (decimal : ℕ → List ℕ) (build_url : List ℕ → List ℕ → Bool → List ℕ) where
  abbrev tcp_address : TcpAllocator → ℕ → Bool → AllocatedAddress
  tcp_address a port secure = record {
    url = build_url a.interface_ip (decimal port) secure;
    type = k.socket_tcp;
    addr = a.interface_ip;
    port = port;
    secure = secure;
    exportable_level = a.exportable_level;
    interface_id = a.interface_id;
  }

  unfoldable pub tcp_allocate_user : Bool → TcpAllocator → AllocatedAddress × TcpAllocator
  unfolding next_port
  tcp_allocate_user secure a =
      let (port, next) = next_port a.min_port a.max_port a.port in
      (tcp_address a port secure, record a { port = next })

  unfoldable pub tcp_allocate :
      FdbServerType → Bool → TcpAllocator → AllocatedAddress × TcpAllocator
  unfolding tcp_allocate_user
  tcp_allocate name_server secure a = (tcp_address a (name_server_tcp_port k secure) secure, a)
  tcp_allocate host_server secure a = (tcp_address a (host_server_tcp_port k secure) secure, a)
  tcp_allocate log_server secure a = tcp_allocate_user secure a
  tcp_allocate user secure a = tcp_allocate_user secure a
  tcp_allocate unknown secure a = tcp_allocate_user secure a

  unfoldable pub tcp_allocate_known : FdbServerType → Bool → TcpAllocator → Option AllocatedAddress
  tcp_allocate_known name_server secure a =
      some (tcp_address a (name_server_tcp_port k secure) secure)
  tcp_allocate_known host_server secure a =
      some (tcp_address a (host_server_tcp_port k secure) secure)
  tcp_allocate_known log_server secure a = none
  tcp_allocate_known user secure a = none
  tcp_allocate_known unknown secure a = none

unfoldable pub tcp_reset : TcpAllocator → TcpAllocator
tcp_reset a = record a { port = a.min_port }
