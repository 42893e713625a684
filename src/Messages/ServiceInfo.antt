-- ===== src/Messages/ServiceInfo.antt =====
-- FdbMsgServiceInfo (public/fdbus/CFdbIfNameServer.h).
use fdbus.Prelude.{ℕ, Bool, List, ◌++◌}
use fdbus.Serializer.{Ser, ◌>>◌}
use fdbus.Serializer.Growth.{Appends, Appends->>}
use fdbus.Deserializer.{Des, pure, ◌>>=◌}
use fdbus.Deserializer.Reading.{Reads, Reads->>=}
use fdbus.Deserializer.Safety.{Safe, Safe-pure, Safe->>=}
use fdbus.Parcelable.{Parcelable}
use fdbus.Parcelable.Codec.{Format, Implements, Reads-last}
use fdbus.Messages.AddressList.{
  AddressList, new_address_list, address_list, IsAddressList, wire_address_list,
  received_address_list, address_list-Implements,
}
use fdbus.Messages.HostAddress.{
  HostAddress, new_host_address, host_address, IsHostAddress, wire_host_address,
  received_host_address, host_address-Implements,
}

pub record ServiceInfo : Type 0 where
  pub service_addr : AddressList
  pub host_addr : HostAddress

abbrev pub new_service_info : ServiceInfo
new_service_info = record { service_addr = new_address_list; host_addr = new_host_address }

module _ (little : Bool) where
  unfoldable pub serialize_service_info : ServiceInfo → Ser
  serialize_service_info m = do
    (address_list little).serialize m.service_addr
    (host_address little).serialize m.host_addr

  unfoldable pub deserialize_service_info : ServiceInfo → Des ServiceInfo
  deserialize_service_info old = do
    service_addr ← (address_list little).deserialize old.service_addr
    host_addr ← (host_address little).deserialize old.host_addr
    pure (record { service_addr = service_addr; host_addr = host_addr })

abbrev pub service_info : Bool → Parcelable ServiceInfo
service_info little = record {
  fresh = new_service_info;
  serialize = serialize_service_info little;
  deserialize = deserialize_service_info little;
}

-- Every member that goes out fits its field.
pub record IsServiceInfo (m : ServiceInfo) : Type 0 where
  pub service_addr : IsAddressList m.service_addr
  pub host_addr : IsHostAddress m.host_addr

unfoldable pub wire_service_info : ServiceInfo → List ℕ
wire_service_info m = wire_address_list m.service_addr ++ (wire_host_address m.host_addr)

-- The object after reading `m` into `old`.
unfoldable pub received_service_info : ServiceInfo → ServiceInfo → ServiceInfo
received_service_info old m = record m {
  service_addr = received_address_list old.service_addr m.service_addr;
  host_addr = received_host_address old.host_addr m.host_addr;
}

abbrev pub service_info_format : Format ServiceInfo
service_info_format = record {
  IsSendable = IsServiceInfo;
  wire = wire_service_info;
  received = received_service_info;
}

module _ (little : Bool) where
  service_info-Appends :
      (m : ServiceInfo)
      → IsServiceInfo m
      → Appends (serialize_service_info little m) (wire_service_info m)
  unfolding serialize_service_info wire_service_info
  service_info-Appends m v =
      Appends->> _ _ _ _ ((address_list-Implements little).appends m.service_addr v.service_addr)
        ((host_address-Implements little).appends m.host_addr v.host_addr)

  service_info-Reads :
      (old m : ServiceInfo)
      → IsServiceInfo m
      → Reads
          (deserialize_service_info little old)
          (wire_service_info m)
          (received_service_info old m)
  unfolding deserialize_service_info wire_service_info received_service_info
  service_info-Reads old m v =
      Reads->>= _ _ _ _ _ _ ((address_list-Implements little).reads _ m.service_addr v.service_addr)
        (Reads-last _ _ _ _ ((host_address-Implements little).reads _ m.host_addr v.host_addr))

  service_info-Safe : (old : ServiceInfo) → Safe (deserialize_service_info little old)
  unfolding deserialize_service_info
  service_info-Safe old =
      Safe->>= _ _ ((address_list-Implements little).safe old.service_addr) (λ service_addr.
        Safe->>= _ _ ((host_address-Implements little).safe old.host_addr)
          (λ host_addr. Safe-pure _))

  pub service_info-Implements : Implements (service_info little) service_info_format
  service_info-Implements = record {
    appends = service_info-Appends;
    reads = service_info-Reads;
    safe = service_info-Safe;
  }
