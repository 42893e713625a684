-- ===== src/Messages/HostAddressList.antt =====
-- FdbMsgHostAddressList (public/fdbus/CFdbIfNameServer.h).
use fdbus.Prelude.{ℕ, Bool, List, [], ◌++◌, length}
use fdbus.Bytes.{bytes}
use fdbus.Serializer.{Ser, ◌>>◌}
use fdbus.Serializer.Growth.{Appends, Appends->>}
use fdbus.Deserializer.{Des, pure, ◌>>=◌}
use fdbus.Deserializer.Reading.{Reads, Reads->>=}
use fdbus.Deserializer.Safety.{Safe, Safe-pure, Safe->>=}
use fdbus.Parcelable.{Parcelable, put_array, get_array}
use fdbus.Parcelable.Arrays.{wire_each, received_each, IsArray, array-Implements}
use fdbus.Parcelable.Codec.{Format, Implements, Reads-last}
use fdbus.Messages.HostAddress.{
  HostAddress, new_host_address, host_address, host_address_format, host_address-Implements,
}
use fdbus.Messages.ExportableSvcAddress.{
  ExportableSvcAddress, new_exportable_svc_address, exportable_svc_address, IsExportableSvcAddress,
  wire_exportable_svc_address, received_exportable_svc_address, exportable_svc_address-Implements,
}

pub record HostAddressList : Type 0 where
  pub address_list : List HostAddress
  pub svc_addr_list : ExportableSvcAddress

abbrev pub new_host_address_list : HostAddressList
new_host_address_list = record { address_list = []; svc_addr_list = new_exportable_svc_address }

module _ (little : Bool) where
  unfoldable pub serialize_host_address_list : HostAddressList → Ser
  serialize_host_address_list m = do
    put_array little (host_address little) m.address_list
    (exportable_svc_address little).serialize m.svc_addr_list

  unfoldable pub deserialize_host_address_list : HostAddressList → Des HostAddressList
  deserialize_host_address_list old = do
    address_list ← get_array little (host_address little) old.address_list
    svc_addr_list ← (exportable_svc_address little).deserialize old.svc_addr_list
    pure (record { address_list = address_list; svc_addr_list = svc_addr_list })

abbrev pub host_address_list : Bool → Parcelable HostAddressList
host_address_list little = record {
  fresh = new_host_address_list;
  serialize = serialize_host_address_list little;
  deserialize = deserialize_host_address_list little;
}

-- Every member that goes out fits its field.
pub record IsHostAddressList (m : HostAddressList) : Type 0 where
  pub address_list : IsArray host_address_format m.address_list
  pub svc_addr_list : IsExportableSvcAddress m.svc_addr_list

unfoldable pub wire_host_address_list : HostAddressList → List ℕ
wire_host_address_list m =
    (bytes 2 (length m.address_list) ++ wire_each host_address_format m.address_list)
    ++ (wire_exportable_svc_address m.svc_addr_list)

-- The object after reading `m` into `old`.
unfoldable pub received_host_address_list : HostAddressList → HostAddressList → HostAddressList
received_host_address_list old m = record m {
  address_list = received_each host_address_format new_host_address old.address_list m.address_list;
  svc_addr_list = received_exportable_svc_address old.svc_addr_list m.svc_addr_list;
}

abbrev pub host_address_list_format : Format HostAddressList
host_address_list_format = record {
  IsSendable = IsHostAddressList;
  wire = wire_host_address_list;
  received = received_host_address_list;
}

module _ (little : Bool) where
  host_address_list-Appends :
      (m : HostAddressList)
      → IsHostAddressList m
      → Appends (serialize_host_address_list little m) (wire_host_address_list m)
  unfolding serialize_host_address_list wire_host_address_list
  host_address_list-Appends m v =
      Appends->> _ _ _ _
        ((array-Implements little (host_address-Implements little)).appends m.address_list
          v.address_list)
        ((exportable_svc_address-Implements little).appends m.svc_addr_list v.svc_addr_list)

  host_address_list-Reads :
      (old m : HostAddressList)
      → IsHostAddressList m
      → Reads
          (deserialize_host_address_list little old)
          (wire_host_address_list m)
          (received_host_address_list old m)
  unfolding deserialize_host_address_list wire_host_address_list received_host_address_list
  host_address_list-Reads old m v =
      Reads->>= _ _ _ _ _ _
        ((array-Implements little (host_address-Implements little)).reads _ m.address_list
          v.address_list)
        (Reads-last _ _ _ _
          ((exportable_svc_address-Implements little).reads _ m.svc_addr_list v.svc_addr_list))

  host_address_list-Safe : (old : HostAddressList) → Safe (deserialize_host_address_list little old)
  unfolding deserialize_host_address_list
  host_address_list-Safe old =
      Safe->>= _ _
        ((array-Implements little (host_address-Implements little)).safe old.address_list)
        (λ address_list.
          Safe->>= _ _ ((exportable_svc_address-Implements little).safe old.svc_addr_list)
            (λ svc_addr_list. Safe-pure _))

  pub host_address_list-Implements : Implements (host_address_list little) host_address_list_format
  host_address_list-Implements = record {
    appends = host_address_list-Appends;
    reads = host_address_list-Reads;
    safe = host_address_list-Safe;
  }
