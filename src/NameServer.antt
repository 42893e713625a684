-- ===== src/NameServer.antt =====
-- server/CNameServer.cpp and server/CNameServer.h: the services that are registered. A name is a list of
-- characters, and the two halves of an instance id, the group and the code, are those of
-- public/fdbus/common_defs.h. Exportable levels are not negative.
pub mod Registry
pub mod Found
pub mod Instances
pub mod Requests
pub mod Removal
pub mod Announcing
pub mod Addresses
pub mod Binding
pub mod Allocation
pub mod Counting
pub mod Offline
pub mod Steps
use fdbus.Prelude.{
  ℕ, ◌+◌, ◌*◌, ◌/◌, ◌%◌, ◌≡◌, subst, ◌==◌, if◌then◌else◌, not, ◌&&◌, ◌||◌, Bool, true, false,
  Option, none, some, List, [], ◌∷◌, ◌++◌,
}
use fdbus.Prelude.Map.{
  Map, Eq, nat_eq, find, insert, erase, or_empty, is_empty, update_at, assign_at,
}
use fdbus.AddressAllocator.{FdbServerType, AllocatedAddress}
use fdbus.ServiceAddresses.{same_text}
use fdbus.ServiceAddresses.Peers.{same_text_eq, same_text_refl}

pub data AddressStatus : Type 0 where
  addr_free : AddressStatus
  addr_pending : AddressStatus
  addr_bound : AddressStatus

-- `udp_port` is the 32 bits of `mUDPPort`.
pub record AddressDesc : Type 0 where
  pub address : AllocatedAddress
  pub status : AddressStatus
  pub rebind_count : ℕ
  pub udp_port : ℕ

pub record SvcRegistryEntry : Type 0 where
  pub sid : ℕ
  pub addr_tbl : List AddressDesc
  pub tokens : List (List ℕ)
  pub allow_tcp_secure : Bool
  pub allow_tcp_normal : Bool
  pub exportable_level : ℕ
  pub endpoint_name : List ℕ
  pub svc_name : List ℕ
  pub svc_type : FdbServerType
  pub instance_id : ℕ

instance abbrev pub text_eq : Eq (List ℕ)
text_eq = record {
  beq = same_text;
  beq_iff = λ a b. (same_text_eq a b, λ e. subst (λ c. same_text a c ≡ true) e (same_text_refl a));
}

abbrev pub SvcRegistryTbl : Type 0
SvcRegistryTbl = Map ℕ SvcRegistryEntry

abbrev pub RegistryTbl : Type 0
RegistryTbl = Map (List ℕ) SvcRegistryTbl

-- The macros of the groups of events, which are those of instances as well.
unfoldable pub is_group : ℕ → Bool
is_group event = event % 16777216 == 16777215

unfoldable pub in_all_groups : ℕ → Bool
in_all_groups event = (event / 16777216) % 256 == 255

unfoldable pub same_group : ℕ → ℕ → Bool
same_group a b = (a / 16777216) % 256 == (b / 16777216) % 256

abbrev pub auto_instance_begin : ℕ
auto_instance_begin = 16711680

abbrev pub auto_instance_end : ℕ
auto_instance_end = 16777214

-- The code of the event is below 2 ^ 24 where this is used.
unfoldable pub merge_event_code : ℕ → ℕ → ℕ
merge_event_code group event = ((group / 16777216) % 256) * 16777216 + event

abbrev pub entries : SvcRegistryTbl → List SvcRegistryEntry
entries [] = []
entries ((i, entry) ∷ rest) = entry ∷ entries rest

abbrev pub entries_in_group : ℕ → SvcRegistryTbl → List SvcRegistryEntry
entries_in_group iid [] = []
entries_in_group iid ((i, entry) ∷ rest) =
    if same_group iid i then entry ∷ entries_in_group iid rest else entries_in_group iid rest

abbrev pub the_entry : Option SvcRegistryEntry → Bool × List SvcRegistryEntry
the_entry none = (false, [])
the_entry (some entry) = (true, entry ∷ [])

-- `findService` in the services of one name: whether there is one, and those that it collects.
unfoldable pub find_instance : ℕ → SvcRegistryTbl → Bool × List SvcRegistryEntry
find_instance iid tbl =
    let grouped = entries_in_group iid tbl in
    if is_group iid
    then (if in_all_groups iid
        then (not (is_empty tbl), entries tbl)
        else (not (is_empty grouped), grouped))
    else the_entry (find iid tbl)

unfoldable pub find_every_name : ℕ → RegistryTbl → Bool × List SvcRegistryEntry
find_every_name iid [] = (false, [])
find_every_name iid ((name, tbl) ∷ rest) =
    let (found, matched) = find_instance iid tbl in
    let (more, others) = find_every_name iid rest in (found || more, matched ++ others)

abbrev pub find_in : ℕ → Option SvcRegistryTbl → Bool × List SvcRegistryEntry
find_in iid none = (false, [])
find_in iid (some tbl) = find_instance iid tbl

-- `findService`: without a name, in all services.
unfoldable pub find_service : List ℕ → ℕ → RegistryTbl → Bool × List SvcRegistryEntry
find_service [] iid registry = find_every_name iid registry
find_service (c ∷ cs) iid registry = find_in iid (find (c ∷ cs) registry)

-- `eraseService`: a name without services goes as well.
unfoldable pub erase_service : List ℕ → ℕ → RegistryTbl → Bool × RegistryTbl
erase_service name iid registry = elim (find name registry) [
  | none ↦ (false, registry)
  | some tbl ↦ elim (find iid tbl) [
    | none ↦ (false, if is_empty tbl then erase name registry else registry)
    | some entry ↦ (true, update_at name (erase iid) registry)
  ]
]
