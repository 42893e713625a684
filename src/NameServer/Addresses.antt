-- ===== src/NameServer/Addresses.antt =====
-- How the name server looks for an address or a port that no service has: `findAddress`, `findUDPPort`,
-- `allocateUDPPort` and `allocateAddress` (server/CNameServer.cpp). A socket type is a number; `none` is
-- FDB_SOCKET_MAX, which stands for any.
pub mod Tries
use fdbus.Prelude.{
  ℕ, zero, suc, ◌+◌, ◌==◌, ltb, if◌then◌else◌, not, ◌&&◌, ◌||◌, Bool, true, false, Option, none,
  some, List, [], ◌∷◌, ◌++◌, length,
}
use fdbus.AddressAllocator.{
  FdbServerType, user, name_server, host_server, log_server, unknown, AllocatedAddress, next_port,
}
use fdbus.NameServer.{AddressDesc, SvcRegistryEntry, RegistryTbl, same_text}
use fdbus.NameServer.Removal.{all_entries}

-- All addresses of all services, in the order in which the loops meet them.
abbrev pub all_addresses : List SvcRegistryEntry → List AddressDesc
all_addresses [] = []
all_addresses (entry ∷ rest) = entry.addr_tbl ++ all_addresses rest

abbrev pub of_type : Option ℕ → ℕ → Bool
of_type none type = true
of_type (some t) type = type == t

unfoldable pub first_address : Option ℕ → List ℕ → List AddressDesc → Option AddressDesc
first_address type url [] = none
first_address type url (desc ∷ descs) =
    let rest = first_address type url descs in
    if of_type type desc.address.type && same_text desc.address.url url then some desc else rest

unfoldable pub find_address : Option ℕ → List ℕ → RegistryTbl → Option AddressDesc
find_address type url registry = first_address type url (all_addresses (all_entries registry))

-- The port is positive as an int32_t: neither 0 nor with the highest bit.
unfoldable pub first_udp_port : ℕ → List ℕ → ℕ → List AddressDesc → Option AddressDesc
first_udp_port ipc ip port [] = none
first_udp_port ipc ip port (desc ∷ descs) =
    let rest = first_udp_port ipc ip port descs in
    let own = not (desc.address.type == ipc) && same_text desc.address.addr ip in
    let valid = ltb 0 desc.udp_port && ltb desc.udp_port 2147483648 in
    if own && (valid && desc.udp_port == port) then some desc else rest

unfoldable pub find_udp_port : ℕ → List ℕ → ℕ → RegistryTbl → Option AddressDesc
find_udp_port ipc ip port registry =
    first_udp_port ipc ip port (all_addresses (all_entries registry))

abbrev pub is_free : Option AddressDesc → Bool
is_free none = true
is_free (some desc) = false

-- The loops of `allocateUDPPort` and `allocateAddress`: whether a try was good, the last one, and the
-- allocator after it.
module _ {A S : Type 0} (allocate : S → A × S) (good : A → Bool) where
  unfoldable pub retry : ℕ → A → S → Bool × (A × S)
  retry zero last s = (false, (last, s))
  retry (suc tries) last s =
      let (a, next) = allocate s in
      let again = retry tries a next in if good a then (true, (a, next)) else again

-- The port stays if there is no other. `retries` starts at the number of names and 8 more, and is counted down before each try.
abbrev pub tries_of : RegistryTbl → ℕ
tries_of registry = length registry + 7

-- `CUDPPortAllocator::allocate`: in a build with CFG_ALLOC_PORT_BY_USER a port between the two, and without
-- it FDB_INET_PORT_AUTO, 0. The state is the next port.
unfoldable pub next_udp_port : Bool → ℕ → ℕ → ℕ → ℕ × ℕ
next_udp_port by_user min_port max_port port =
    if by_user then next_port min_port max_port port else (0, port)

-- The allocator is that for all interfaces.
unfoldable pub allocate_udp_port : Bool → ℕ → ℕ → ℕ → List ℕ → RegistryTbl → ℕ → ℕ → Bool × (ℕ × ℕ)
allocate_udp_port by_user ipc min_port max_port ip registry old port =
    let (found, (p, next)) =
      retry (next_udp_port by_user min_port max_port)
        (λ p. is_free (find_udp_port ipc ip p registry)) (tries_of registry) old port in
    (found, (if found then p else old, next))

abbrev pub is_user : FdbServerType → Bool
is_user name_server = false
is_user host_server = false
is_user log_server = false
is_user user = true
is_user unknown = false

-- Whether `allocateAddress` takes an address: `auto` is a TCP port that the system chooses.
unfoldable pub takes_address : ℕ → ℕ → FdbServerType → RegistryTbl → AllocatedAddress → Bool
takes_address tcp auto svc_type registry a =
    (a.type == tcp && a.port == auto)
    || (not (is_user svc_type) || is_free (find_address (some a.type) a.url registry))

unfoldable pub allocate_address :
    {S : Type 0}
    → (S → AllocatedAddress × S)
    → ℕ
    → ℕ
    → FdbServerType
    → RegistryTbl
    → AllocatedAddress
    → S
    → Bool × (AllocatedAddress × S)
allocate_address allocate tcp auto svc_type registry old s =
    retry allocate (takes_address tcp auto svc_type registry) (tries_of registry) old s
