-- ===== src/Messages/ServerName.antt =====
-- FdbMsgServerName (public/fdbus/CFdbIfNameServer.h).
use fdbus.Prelude.{ℕ, ◌^◌, ◌<◌, Bool, List, [], ◌++◌}
use fdbus.Bytes.{bytes}
use fdbus.Serializer.{Ser, ◌>>◌, serialize_scalar, put_string}
use fdbus.Serializer.Growth.{Appends, Appends->>}
use fdbus.Serializer.Puts.{serialize_scalar-Appends}
use fdbus.Deserializer.{Des, pure, ◌>>=◌, deserialize_scalar, get_string}
use fdbus.Deserializer.Reading.{Reads, Reads->>=, Reads-scalar}
use fdbus.Deserializer.Safety.{Safe, safe_gets}
use fdbus.Parcelable.{Parcelable}
use fdbus.Parcelable.Codec.{
  Format, Implements, IsText, wire_text, put_string-Appends_text, Reads-text_string, Reads-last,
}
use fdbus.Messages.Defaults.{exportable_node_internal, default_instance}

pub record ServerName : Type 0 where
  pub name : List ℕ
  pub flag : ℕ
  pub endpoint_name : List ℕ
  pub exportable_level : ℕ
  pub instance_id : ℕ

abbrev pub new_server_name : ServerName
new_server_name = record {
  name = [];
  flag = 0;
  endpoint_name = [];
  exportable_level = exportable_node_internal;
  instance_id = default_instance;
}

module _ (little : Bool) where
  unfoldable pub serialize_server_name : ServerName → Ser
  serialize_server_name m = do
    put_string little m.name
    serialize_scalar little 1 m.flag
    put_string little m.endpoint_name
    serialize_scalar little 4 m.exportable_level
    serialize_scalar little 4 m.instance_id

  unfoldable pub deserialize_server_name : ServerName → Des ServerName
  deserialize_server_name old = do
    name ← get_string little old.name
    flag ← deserialize_scalar little 1 old.flag
    endpoint_name ← get_string little old.endpoint_name
    exportable_level ← deserialize_scalar little 4 old.exportable_level
    instance_id ← deserialize_scalar little 4 old.instance_id
    pure (record {
      name = name;
      flag = flag;
      endpoint_name = endpoint_name;
      exportable_level = exportable_level;
      instance_id = instance_id;
    })

abbrev pub server_name : Bool → Parcelable ServerName
server_name little = record {
  fresh = new_server_name;
  serialize = serialize_server_name little;
  deserialize = deserialize_server_name little;
}

-- Every member that goes out fits its field.
pub record IsServerName (m : ServerName) : Type 0 where
  pub name : IsText m.name
  pub flag : m.flag < 256 ^ 1
  pub endpoint_name : IsText m.endpoint_name
  pub exportable_level : m.exportable_level < 256 ^ 4
  pub instance_id : m.instance_id < 256 ^ 4

unfoldable pub wire_server_name : ServerName → List ℕ
wire_server_name m =
    wire_text m.name
    ++ (bytes 1 m.flag
        ++ (wire_text m.endpoint_name ++ (bytes 4 m.exportable_level ++ (bytes 4 m.instance_id))))

abbrev pub server_name_format : Format ServerName
server_name_format = record {
  IsSendable = IsServerName;
  wire = wire_server_name;
  received = λ old m. m;
}

module _ (little : Bool) where
  server_name-Appends :
      (m : ServerName)
      → IsServerName m
      → Appends (serialize_server_name little m) (wire_server_name m)
  unfolding serialize_server_name wire_server_name
  server_name-Appends m v = Appends->> _ _ _ _ (put_string-Appends_text little m.name v.name) (
      Appends->> _ _ _ _ (serialize_scalar-Appends little 1 m.flag) (
        Appends->> _ _ _ _ (put_string-Appends_text little m.endpoint_name v.endpoint_name) (
          Appends->> _ _ _ _ (serialize_scalar-Appends little 4 m.exportable_level)
            (serialize_scalar-Appends little 4 m.instance_id))))

  server_name-Reads :
      (old m : ServerName)
      → IsServerName m
      → Reads (deserialize_server_name little old) (wire_server_name m) (m)
  unfolding deserialize_server_name wire_server_name
  server_name-Reads old m v = Reads->>= _ _ _ _ _ _ (Reads-text_string little _ m.name v.name) (
      Reads->>= _ _ _ _ _ _ (Reads-scalar little 1 _ m.flag v.flag) (
        Reads->>= _ _ _ _ _ _ (Reads-text_string little _ m.endpoint_name v.endpoint_name) (
          Reads->>= _ _ _ _ _ _ (Reads-scalar little 4 _ m.exportable_level v.exportable_level)
            (Reads-last _ _ _ _ (Reads-scalar little 4 _ m.instance_id v.instance_id)))))

  server_name-Safe : (old : ServerName) → Safe (deserialize_server_name little old)
  unfolding deserialize_server_name
  server_name-Safe old = search safe_gets depth 40

  pub server_name-Implements : Implements (server_name little) server_name_format
  server_name-Implements = record {
    appends = server_name-Appends;
    reads = server_name-Reads;
    safe = server_name-Safe;
  }
