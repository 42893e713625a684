-- ===== src/Messages/AddrBindResults.antt =====
-- FdbMsgAddrBindResults (public/fdbus/CFdbIfNameServer.h).
use fdbus.Prelude.{arith, ℕ, ◌^◌, ◌<◌, Bool, List, [], ◌++◌, length}
use fdbus.Bytes.{bytes}
use fdbus.Serializer.{Ser, ◌>>◌, serialize_scalar, put_string}
use fdbus.Serializer.Growth.{Appends, Appends->>}
use fdbus.Serializer.Puts.{serialize_scalar-Appends}
use fdbus.Deserializer.{Des, pure, ◌>>=◌, deserialize_scalar, get_string}
use fdbus.Deserializer.Reading.{Reads, Reads->>=, Reads-scalar}
use fdbus.Deserializer.Safety.{Safe, Safe-pure, Safe->>=, Safe-scalar, Safe-string}
use fdbus.Parcelable.{Parcelable, put_array, get_array}
use fdbus.Parcelable.Arrays.{wire_each, received_each, IsArray, array-Implements}
use fdbus.Parcelable.Codec.{
  Format, Implements, IsText, wire_text, put_string-Appends_text, Reads-text_string, Reads-last,
}
use fdbus.Messages.AddrBindStatus.{
  AddrBindStatus, new_addr_bind_status, addr_bind_status, addr_bind_status_format,
  addr_bind_status-Implements,
}

pub record AddrBindResults : Type 0 where
  pub service_name : List ℕ
  pub addr_list : List AddrBindStatus
  pub instance_id : ℕ

abbrev pub new_addr_bind_results : AddrBindResults
new_addr_bind_results = record { service_name = []; addr_list = []; instance_id = 0 }

module _ (little : Bool) where
  unfoldable pub serialize_addr_bind_results : AddrBindResults → Ser
  serialize_addr_bind_results m = do
    put_string little m.service_name
    put_array little (addr_bind_status little) m.addr_list
    serialize_scalar little 4 m.instance_id

  unfoldable pub deserialize_addr_bind_results : AddrBindResults → Des AddrBindResults
  deserialize_addr_bind_results old = do
    service_name ← get_string little old.service_name
    addr_list ← get_array little (addr_bind_status little) old.addr_list
    instance_id ← deserialize_scalar little 4 old.instance_id
    pure (record { service_name = service_name; addr_list = addr_list; instance_id = instance_id })

abbrev pub addr_bind_results : Bool → Parcelable AddrBindResults
addr_bind_results little = record {
  fresh = new_addr_bind_results;
  serialize = serialize_addr_bind_results little;
  deserialize = deserialize_addr_bind_results little;
}

-- Every member that goes out fits its field.
pub record IsAddrBindResults (m : AddrBindResults) : Type 0 where
  pub service_name : IsText m.service_name
  pub addr_list : IsArray addr_bind_status_format m.addr_list
  pub instance_id : m.instance_id < 256 ^ 4

unfoldable pub wire_addr_bind_results : AddrBindResults → List ℕ
wire_addr_bind_results m =
    wire_text m.service_name
    ++ ((bytes 2 (length m.addr_list) ++ wire_each addr_bind_status_format m.addr_list)
        ++ (bytes 4 m.instance_id))

-- The object after reading `m` into `old`.
unfoldable pub received_addr_bind_results : AddrBindResults → AddrBindResults → AddrBindResults
received_addr_bind_results old m = record m {
  addr_list = received_each addr_bind_status_format new_addr_bind_status old.addr_list m.addr_list;
}

abbrev pub addr_bind_results_format : Format AddrBindResults
addr_bind_results_format = record {
  IsSendable = IsAddrBindResults;
  wire = wire_addr_bind_results;
  received = received_addr_bind_results;
}

module _ (little : Bool) where
  addr_bind_results-Appends :
      (m : AddrBindResults)
      → IsAddrBindResults m
      → Appends (serialize_addr_bind_results little m) (wire_addr_bind_results m)
  unfolding serialize_addr_bind_results wire_addr_bind_results
  addr_bind_results-Appends m v =
      Appends->> _ _ _ _ (put_string-Appends_text little m.service_name v.service_name) (
        Appends->> _ _ _ _
          ((array-Implements little (addr_bind_status-Implements little)).appends m.addr_list
            v.addr_list)
          (serialize_scalar-Appends little 4 m.instance_id))

  addr_bind_results-Reads :
      (old m : AddrBindResults)
      → IsAddrBindResults m
      → Reads
          (deserialize_addr_bind_results little old)
          (wire_addr_bind_results m)
          (received_addr_bind_results old m)
  unfolding deserialize_addr_bind_results wire_addr_bind_results received_addr_bind_results
  addr_bind_results-Reads old m v =
      Reads->>= _ _ _ _ _ _ (Reads-text_string little _ m.service_name v.service_name) (
        Reads->>= _ _ _ _ _ _
          ((array-Implements little (addr_bind_status-Implements little)).reads _ m.addr_list
            v.addr_list)
          (Reads-last _ _ _ _ (Reads-scalar little 4 _ m.instance_id v.instance_id)))

  addr_bind_results-Safe : (old : AddrBindResults) → Safe (deserialize_addr_bind_results little old)
  unfolding deserialize_addr_bind_results
  addr_bind_results-Safe old = Safe->>= _ _ (Safe-string little old.service_name) (λ service_name.
      Safe->>= _ _
        ((array-Implements little (addr_bind_status-Implements little)).safe old.addr_list)
        (λ addr_list.
          Safe->>= _ _ (Safe-scalar little 4 _ (omega arith)) (λ instance_id. Safe-pure _)))

  pub addr_bind_results-Implements : Implements (addr_bind_results little) addr_bind_results_format
  addr_bind_results-Implements = record {
    appends = addr_bind_results-Appends;
    reads = addr_bind_results-Reads;
    safe = addr_bind_results-Safe;
  }
