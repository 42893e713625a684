-- ===== src/Messages/AddressItem.antt =====
-- FdbMsgAddressItem (public/fdbus/CFdbIfNameServer.h).
use fdbus.Prelude.{ℕ, ◌%◌, ◌^◌, ◌<◌, ◌≡◌, Bool, true, false, List, [], ◌++◌, arith, if◌then◌else◌}
use fdbus.Prelude.Bits.{has_bit}
use fdbus.Bytes.{bytes}
use fdbus.Serializer.{Ser, ◌>>◌, put_when, serialize_scalar, put_string, put_bool}
use fdbus.Serializer.Growth.{Appends, Appends->>}
use fdbus.Serializer.Puts.{serialize_scalar-Appends, put_bool-Appends}
use fdbus.Deserializer.{Des, pure, ◌>>=◌, when, deserialize_scalar, get_string, get_bool}
use fdbus.Deserializer.Reading.{Reads, Reads-when, Reads->>=, Reads-scalar, Reads-bool}
use fdbus.Deserializer.Safety.{Safe, safe_gets}
use fdbus.Parcelable.{Parcelable}
use fdbus.Parcelable.Codec.{
  Format, Implements, IsText, wire_text, put_string-Appends_text, Reads-text_string, Reads-last,
  Appends-when,
}

pub record AddressItem : Type 0 where
  pub tcp_ipc_address : List ℕ
  pub tcp_port : ℕ
  pub type : ℕ
  pub tcp_ipc_url : List ℕ
  pub is_secure : Bool
  pub exportable_level : ℕ
  pub interface_id : ℕ
  pub options : ℕ
  pub udp_port : ℕ

abbrev pub new_address_item : AddressItem
new_address_item = record {
  tcp_ipc_address = [];
  tcp_port = 0;
  type = 0;
  tcp_ipc_url = [];
  is_secure = false;
  exportable_level = 0;
  interface_id = 0;
  options = 0;
  udp_port = 0;
}

module _ (little : Bool) where
  unfoldable pub serialize_address_item : AddressItem → Ser
  serialize_address_item m = do
    put_string little m.tcp_ipc_address
    serialize_scalar little 4 m.tcp_port
    serialize_scalar little 1 (m.type % 256)
    put_string little m.tcp_ipc_url
    put_bool little m.is_secure
    serialize_scalar little 4 m.exportable_level
    serialize_scalar little 4 m.interface_id
    serialize_scalar little 1 m.options
    put_when (has_bit 1 m.options) (serialize_scalar little 4 m.udp_port)

  unfoldable pub deserialize_address_item : AddressItem → Des AddressItem
  deserialize_address_item old = do
    tcp_ipc_address ← get_string little old.tcp_ipc_address
    tcp_port ← deserialize_scalar little 4 old.tcp_port
    type ← deserialize_scalar little 1 0
    tcp_ipc_url ← get_string little old.tcp_ipc_url
    is_secure ← get_bool little
    exportable_level ← deserialize_scalar little 4 old.exportable_level
    interface_id ← deserialize_scalar little 4 old.interface_id
    options ← deserialize_scalar little 1 old.options
    udp_port ← when (has_bit 1 options) (deserialize_scalar little 4 old.udp_port) old.udp_port
    pure (record {
      tcp_ipc_address = tcp_ipc_address;
      tcp_port = tcp_port;
      type = type;
      tcp_ipc_url = tcp_ipc_url;
      is_secure = is_secure;
      exportable_level = exportable_level;
      interface_id = interface_id;
      options = options;
      udp_port = udp_port;
    })

abbrev pub address_item : Bool → Parcelable AddressItem
address_item little = record {
  fresh = new_address_item;
  serialize = serialize_address_item little;
  deserialize = deserialize_address_item little;
}

-- Every member that goes out fits its field.
pub record IsAddressItem (m : AddressItem) : Type 0 where
  pub tcp_ipc_address : IsText m.tcp_ipc_address
  pub tcp_port : m.tcp_port < 256 ^ 4
  pub type : m.type < 256 ^ 1
  pub tcp_ipc_url : IsText m.tcp_ipc_url
  pub exportable_level : m.exportable_level < 256 ^ 4
  pub interface_id : m.interface_id < 256 ^ 4
  pub options : m.options < 256 ^ 1
  pub udp_port : has_bit 1 m.options ≡ true → m.udp_port < 256 ^ 4

unfoldable pub wire_address_item : AddressItem → List ℕ
wire_address_item m =
    wire_text m.tcp_ipc_address
    ++ (bytes 4 m.tcp_port
        ++ (bytes 1 m.type
            ++ (wire_text m.tcp_ipc_url
                ++ (bytes 1 (if m.is_secure then 1 else 0)
                    ++ (bytes 4 m.exportable_level
                        ++ (bytes 4 m.interface_id
                            ++ (bytes 1 m.options
                                ++ ((if has_bit 1 m.options then bytes 4 m.udp_port else [])))))))))

-- The object after reading `m` into `old`.
unfoldable pub received_address_item : AddressItem → AddressItem → AddressItem
received_address_item old m = record m {
  udp_port = if has_bit 1 m.options then m.udp_port else old.udp_port;
}

abbrev pub address_item_format : Format AddressItem
address_item_format = record {
  IsSendable = IsAddressItem;
  wire = wire_address_item;
  received = received_address_item;
}

module _ (little : Bool) where
  address_item-Appends :
      (m : AddressItem)
      → IsAddressItem m
      → Appends (serialize_address_item little m) (wire_address_item m)
  unfolding serialize_address_item wire_address_item
  address_item-Appends m v =
      let type : m.type % 256 ≡ m.type = omega (arith, v.type) in
      rw type (
        Appends->> _ _ _ _ (put_string-Appends_text little m.tcp_ipc_address v.tcp_ipc_address) (
          Appends->> _ _ _ _ (serialize_scalar-Appends little 4 m.tcp_port) (
            Appends->> _ _ _ _ (serialize_scalar-Appends little 1 m.type) (
              Appends->> _ _ _ _ (put_string-Appends_text little m.tcp_ipc_url v.tcp_ipc_url) (
                Appends->> _ _ _ _ (put_bool-Appends little m.is_secure) (
                  Appends->> _ _ _ _ (serialize_scalar-Appends little 4 m.exportable_level) (
                    Appends->> _ _ _ _ (serialize_scalar-Appends little 4 m.interface_id) (
                      Appends->> _ _ _ _ (serialize_scalar-Appends little 1 m.options) (
                        Appends-when _ _ _
                          (λ e. serialize_scalar-Appends little 4 m.udp_port))))))))))

  address_item-Reads :
      (old m : AddressItem)
      → IsAddressItem m
      → Reads
          (deserialize_address_item little old)
          (wire_address_item m)
          (received_address_item old m)
  unfolding deserialize_address_item wire_address_item received_address_item
  address_item-Reads old m v =
      Reads->>= _ _ _ _ _ _ (Reads-text_string little _ m.tcp_ipc_address v.tcp_ipc_address) (
        Reads->>= _ _ _ _ _ _ (Reads-scalar little 4 _ m.tcp_port v.tcp_port) (
          Reads->>= _ _ _ _ _ _ (Reads-scalar little 1 _ m.type v.type) (
            Reads->>= _ _ _ _ _ _ (Reads-text_string little _ m.tcp_ipc_url v.tcp_ipc_url) (
              Reads->>= _ _ _ _ _ _ (Reads-bool little m.is_secure) (
                Reads->>= _ _ _ _ _ _
                  (Reads-scalar little 4 _ m.exportable_level v.exportable_level)
                  (Reads->>= _ _ _ _ _ _ (Reads-scalar little 4 _ m.interface_id v.interface_id) (
                    Reads->>= _ _ _ _ _ _ (Reads-scalar little 1 _ m.options v.options) (
                      Reads-last _ _ _ _ (
                        Reads-when _ _ _ _ _
                          (λ e. Reads-scalar little 4 _ m.udp_port (v.udp_port e)))))))))))

  address_item-Safe : (old : AddressItem) → Safe (deserialize_address_item little old)
  unfolding deserialize_address_item
  address_item-Safe old = search safe_gets depth 40

  pub address_item-Implements : Implements (address_item little) address_item_format
  address_item-Implements = record {
    appends = address_item-Appends;
    reads = address_item-Reads;
    safe = address_item-Safe;
  }
