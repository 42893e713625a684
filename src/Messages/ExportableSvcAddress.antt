-- ===== src/Messages/ExportableSvcAddress.antt =====
-- FdbMsgExportableSvcAddress (public/fdbus/CFdbIfNameServer.h).
use fdbus.Prelude.{ℕ, Bool, List, [], ◌++◌, length}
use fdbus.Bytes.{bytes}
use fdbus.Serializer.{Ser}
use fdbus.Serializer.Growth.{Appends}
use fdbus.Deserializer.{Des, pure, ◌>>=◌}
use fdbus.Deserializer.Reading.{Reads}
use fdbus.Deserializer.Safety.{Safe, Safe-pure, Safe->>=}
use fdbus.Parcelable.{Parcelable, put_array, get_array}
use fdbus.Parcelable.Arrays.{wire_each, received_each, IsArray, array-Implements}
use fdbus.Parcelable.Codec.{Format, Implements, Reads-last}
use fdbus.Messages.AddressList.{
  AddressList, new_address_list, address_list, address_list_format, address_list-Implements,
}

pub record ExportableSvcAddress : Type 0 where
  pub svc_addr_list : List AddressList

abbrev pub new_exportable_svc_address : ExportableSvcAddress
new_exportable_svc_address = record { svc_addr_list = [] }

module _ (little : Bool) where
  unfoldable pub serialize_exportable_svc_address : ExportableSvcAddress → Ser
  serialize_exportable_svc_address m = put_array little (address_list little) m.svc_addr_list

  unfoldable pub deserialize_exportable_svc_address :
      ExportableSvcAddress → Des ExportableSvcAddress
  deserialize_exportable_svc_address old = do
    svc_addr_list ← get_array little (address_list little) old.svc_addr_list
    pure (record { svc_addr_list = svc_addr_list })

abbrev pub exportable_svc_address : Bool → Parcelable ExportableSvcAddress
exportable_svc_address little = record {
  fresh = new_exportable_svc_address;
  serialize = serialize_exportable_svc_address little;
  deserialize = deserialize_exportable_svc_address little;
}

-- Every member that goes out fits its field.
pub record IsExportableSvcAddress (m : ExportableSvcAddress) : Type 0 where
  pub svc_addr_list : IsArray address_list_format m.svc_addr_list

unfoldable pub wire_exportable_svc_address : ExportableSvcAddress → List ℕ
wire_exportable_svc_address m =
    (bytes 2 (length m.svc_addr_list) ++ wire_each address_list_format m.svc_addr_list)

-- The object after reading `m` into `old`.
unfoldable pub received_exportable_svc_address :
    ExportableSvcAddress → ExportableSvcAddress → ExportableSvcAddress
received_exportable_svc_address old m = record m {
  svc_addr_list =
      received_each address_list_format new_address_list old.svc_addr_list m.svc_addr_list;
}

abbrev pub exportable_svc_address_format : Format ExportableSvcAddress
exportable_svc_address_format = record {
  IsSendable = IsExportableSvcAddress;
  wire = wire_exportable_svc_address;
  received = received_exportable_svc_address;
}

module _ (little : Bool) where
  exportable_svc_address-Appends :
      (m : ExportableSvcAddress)
      → IsExportableSvcAddress m
      → Appends (serialize_exportable_svc_address little m) (wire_exportable_svc_address m)
  unfolding serialize_exportable_svc_address wire_exportable_svc_address
  exportable_svc_address-Appends m v =
      (array-Implements little (address_list-Implements little)).appends m.svc_addr_list
        v.svc_addr_list

  exportable_svc_address-Reads :
      (old m : ExportableSvcAddress)
      → IsExportableSvcAddress m
      → Reads
          (deserialize_exportable_svc_address little old)
          (wire_exportable_svc_address m)
          (received_exportable_svc_address old m)
  unfolding deserialize_exportable_svc_address wire_exportable_svc_address
      received_exportable_svc_address
  exportable_svc_address-Reads old m v = Reads-last _ _ _ _ (
      (array-Implements little (address_list-Implements little)).reads _ m.svc_addr_list
        v.svc_addr_list)

  exportable_svc_address-Safe :
      (old : ExportableSvcAddress) → Safe (deserialize_exportable_svc_address little old)
  unfolding deserialize_exportable_svc_address
  exportable_svc_address-Safe old =
      Safe->>= _ _
        ((array-Implements little (address_list-Implements little)).safe old.svc_addr_list)
        (λ svc_addr_list. Safe-pure _)

  pub exportable_svc_address-Implements :
      Implements (exportable_svc_address little) exportable_svc_address_format
  exportable_svc_address-Implements = record {
    appends = exportable_svc_address-Appends;
    reads = exportable_svc_address-Reads;
    safe = exportable_svc_address-Safe;
  }
