-- ===== src/Messages/ServiceTable.antt =====
-- FdbMsgServiceTable (public/fdbus/CFdbIfNameServer.h).
use fdbus.Prelude.{ℕ, Bool, List, [], ◌++◌, length}
use fdbus.Bytes.{bytes}
use fdbus.Serializer.{Ser, ◌>>◌}
use fdbus.Serializer.Growth.{Appends, Appends->>}
use fdbus.Deserializer.{Des, pure, ◌>>=◌}
use fdbus.Deserializer.Reading.{Reads, Reads->>=}
use fdbus.Deserializer.Safety.{Safe, Safe-pure, Safe->>=}
use fdbus.Parcelable.{Parcelable, put_array, get_array}
use fdbus.Parcelable.Arrays.{wire_each, received_each, IsArray, array-Implements}
use fdbus.Parcelable.Codec.{Format, Implements, Reads-last}
use fdbus.Messages.ServiceInfo.{
  ServiceInfo, new_service_info, service_info, service_info_format, service_info-Implements,
}
use fdbus.Messages.ExportableSvcAddress.{
  ExportableSvcAddress, new_exportable_svc_address, exportable_svc_address, IsExportableSvcAddress,
  wire_exportable_svc_address, received_exportable_svc_address, exportable_svc_address-Implements,
}

pub record ServiceTable : Type 0 where
  pub service_tbl : List ServiceInfo
  pub exported_svc_tbl : ExportableSvcAddress

abbrev pub new_service_table : ServiceTable
new_service_table = record { service_tbl = []; exported_svc_tbl = new_exportable_svc_address }

module _ (little : Bool) where
  unfoldable pub serialize_service_table : ServiceTable → Ser
  serialize_service_table m = do
    put_array little (service_info little) m.service_tbl
    (exportable_svc_address little).serialize m.exported_svc_tbl

  unfoldable pub deserialize_service_table : ServiceTable → Des ServiceTable
  deserialize_service_table old = do
    service_tbl ← get_array little (service_info little) old.service_tbl
    exported_svc_tbl ← (exportable_svc_address little).deserialize old.exported_svc_tbl
    pure (record { service_tbl = service_tbl; exported_svc_tbl = exported_svc_tbl })

abbrev pub service_table : Bool → Parcelable ServiceTable
service_table little = record {
  fresh = new_service_table;
  serialize = serialize_service_table little;
  deserialize = deserialize_service_table little;
}

-- Every member that goes out fits its field.
pub record IsServiceTable (m : ServiceTable) : Type 0 where
  pub service_tbl : IsArray service_info_format m.service_tbl
  pub exported_svc_tbl : IsExportableSvcAddress m.exported_svc_tbl

unfoldable pub wire_service_table : ServiceTable → List ℕ
wire_service_table m =
    (bytes 2 (length m.service_tbl) ++ wire_each service_info_format m.service_tbl)
    ++ (wire_exportable_svc_address m.exported_svc_tbl)

-- The object after reading `m` into `old`.
unfoldable pub received_service_table : ServiceTable → ServiceTable → ServiceTable
received_service_table old m = record m {
  service_tbl = received_each service_info_format new_service_info old.service_tbl m.service_tbl;
  exported_svc_tbl = received_exportable_svc_address old.exported_svc_tbl m.exported_svc_tbl;
}

abbrev pub service_table_format : Format ServiceTable
service_table_format = record {
  IsSendable = IsServiceTable;
  wire = wire_service_table;
  received = received_service_table;
}

module _ (little : Bool) where
  service_table-Appends :
      (m : ServiceTable)
      → IsServiceTable m
      → Appends (serialize_service_table little m) (wire_service_table m)
  unfolding serialize_service_table wire_service_table
  service_table-Appends m v =
      Appends->> _ _ _ _
        ((array-Implements little (service_info-Implements little)).appends m.service_tbl
          v.service_tbl)
        ((exportable_svc_address-Implements little).appends m.exported_svc_tbl v.exported_svc_tbl)

  service_table-Reads :
      (old m : ServiceTable)
      → IsServiceTable m
      → Reads
          (deserialize_service_table little old)
          (wire_service_table m)
          (received_service_table old m)
  unfolding deserialize_service_table wire_service_table received_service_table
  service_table-Reads old m v =
      Reads->>= _ _ _ _ _ _
        ((array-Implements little (service_info-Implements little)).reads _ m.service_tbl
          v.service_tbl)
        (Reads-last _ _ _ _ (
          (exportable_svc_address-Implements little).reads _ m.exported_svc_tbl v.exported_svc_tbl))

  service_table-Safe : (old : ServiceTable) → Safe (deserialize_service_table little old)
  unfolding deserialize_service_table
  service_table-Safe old =
      Safe->>= _ _ ((array-Implements little (service_info-Implements little)).safe old.service_tbl)
        (λ service_tbl.
          Safe->>= _ _ ((exportable_svc_address-Implements little).safe old.exported_svc_tbl)
            (λ exported_svc_tbl. Safe-pure _))

  pub service_table-Implements : Implements (service_table little) service_table_format
  service_table-Implements = record {
    appends = service_table-Appends;
    reads = service_table-Reads;
    safe = service_table-Safe;
  }
