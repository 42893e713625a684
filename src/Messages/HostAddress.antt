-- ===== src/Messages/HostAddress.antt =====
-- FdbMsgHostAddress (public/fdbus/CFdbIfNameServer.h).
use fdbus.Prelude.{arith, ℕ, ◌^◌, ◌<◌, ◌≡◌, Bool, true, List, [], ◌++◌, length, if◌then◌else◌}
use fdbus.Prelude.Bits.{has_bit}
use fdbus.Bytes.{bytes}
use fdbus.Serializer.{Ser, ◌>>◌, put_when, serialize_scalar, put_string}
use fdbus.Serializer.Growth.{Appends, Appends->>}
use fdbus.Serializer.Puts.{serialize_scalar-Appends}
use fdbus.Deserializer.{Des, pure, ◌>>=◌, when, deserialize_scalar, get_string}
use fdbus.Deserializer.Reading.{Reads, Reads-when, Reads->>=, Reads-scalar}
use fdbus.Deserializer.Safety.{Safe, Safe-pure, Safe-when, Safe->>=, Safe-scalar, Safe-string}
use fdbus.Parcelable.{Parcelable, put_array, get_array}
use fdbus.Parcelable.Arrays.{wire_each, received_each, IsArray, array-Implements}
use fdbus.Parcelable.Codec.{
  Format, Implements, IsText, wire_text, text_format, put_string-Appends_text, Reads-text_string,
  Reads-last, Appends-when,
}
use fdbus.Messages.Tokens.{tokens, tokens_format, tokens-Implements}
use fdbus.Messages.AddressItem.{
  AddressItem, new_address_item, address_item, address_item_format, address_item-Implements,
}
use fdbus.Messages.ExportableSvcAddress.{
  ExportableSvcAddress, new_exportable_svc_address, exportable_svc_address, IsExportableSvcAddress,
  wire_exportable_svc_address, received_exportable_svc_address, exportable_svc_address-Implements,
}

pub record HostAddress : Type 0 where
  pub ip_address : List ℕ
  pub host_name : List ℕ
  pub address_list : List AddressItem
  pub svc_addr_list : ExportableSvcAddress
  pub options : ℕ
  pub token_list : List (List ℕ)

abbrev pub new_host_address : HostAddress
new_host_address = record {
  ip_address = [];
  host_name = [];
  address_list = [];
  svc_addr_list = new_exportable_svc_address;
  options = 0;
  token_list = [];
}

module _ (little : Bool) where
  unfoldable pub serialize_host_address : HostAddress → Ser
  serialize_host_address m = do
    put_string little m.ip_address
    put_string little m.host_name
    put_array little (address_item little) m.address_list
    (exportable_svc_address little).serialize m.svc_addr_list
    serialize_scalar little 1 m.options
    put_when (has_bit 1 m.options) ((tokens little).serialize m.token_list)

  unfoldable pub deserialize_host_address : HostAddress → Des HostAddress
  deserialize_host_address old = do
    ip_address ← get_string little old.ip_address
    host_name ← get_string little old.host_name
    address_list ← get_array little (address_item little) old.address_list
    svc_addr_list ← (exportable_svc_address little).deserialize old.svc_addr_list
    options ← deserialize_scalar little 1 old.options
    token_list ←
        when (has_bit 1 options) ((tokens little).deserialize old.token_list) old.token_list
    pure (record {
      ip_address = ip_address;
      host_name = host_name;
      address_list = address_list;
      svc_addr_list = svc_addr_list;
      options = options;
      token_list = token_list;
    })

abbrev pub host_address : Bool → Parcelable HostAddress
host_address little = record {
  fresh = new_host_address;
  serialize = serialize_host_address little;
  deserialize = deserialize_host_address little;
}

-- Every member that goes out fits its field.
pub record IsHostAddress (m : HostAddress) : Type 0 where
  pub ip_address : IsText m.ip_address
  pub host_name : IsText m.host_name
  pub address_list : IsArray address_item_format m.address_list
  pub svc_addr_list : IsExportableSvcAddress m.svc_addr_list
  pub options : m.options < 256 ^ 1
  pub token_list : has_bit 1 m.options ≡ true → IsArray text_format m.token_list

unfoldable pub wire_host_address : HostAddress → List ℕ
wire_host_address m =
    wire_text m.ip_address
    ++ (wire_text m.host_name
        ++ ((bytes 2 (length m.address_list) ++ wire_each address_item_format m.address_list)
            ++ (wire_exportable_svc_address m.svc_addr_list
                ++ (bytes 1 m.options
                    ++ ((if has_bit 1 m.options then tokens_format.wire m.token_list else []))))))

-- The object after reading `m` into `old`.
unfoldable pub received_host_address : HostAddress → HostAddress → HostAddress
received_host_address old m = record m {
  address_list = received_each address_item_format new_address_item old.address_list m.address_list;
  svc_addr_list = received_exportable_svc_address old.svc_addr_list m.svc_addr_list;
  token_list =
      if has_bit 1 m.options
      then tokens_format.received old.token_list m.token_list
      else old.token_list;
}

abbrev pub host_address_format : Format HostAddress
host_address_format = record {
  IsSendable = IsHostAddress;
  wire = wire_host_address;
  received = received_host_address;
}

module _ (little : Bool) where
  host_address-Appends :
      (m : HostAddress)
      → IsHostAddress m
      → Appends (serialize_host_address little m) (wire_host_address m)
  unfolding serialize_host_address wire_host_address
  host_address-Appends m v =
      Appends->> _ _ _ _ (put_string-Appends_text little m.ip_address v.ip_address) (
        Appends->> _ _ _ _ (put_string-Appends_text little m.host_name v.host_name) (
          Appends->> _ _ _ _
            ((array-Implements little (address_item-Implements little)).appends m.address_list
              v.address_list)
            (Appends->> _ _ _ _
              ((exportable_svc_address-Implements little).appends m.svc_addr_list v.svc_addr_list)
              (Appends->> _ _ _ _ (serialize_scalar-Appends little 1 m.options) (
                Appends-when _ _ _
                  (λ e. (tokens-Implements little).appends m.token_list (v.token_list e)))))))

  host_address-Reads :
      (old m : HostAddress)
      → IsHostAddress m
      → Reads
          (deserialize_host_address little old)
          (wire_host_address m)
          (received_host_address old m)
  unfolding deserialize_host_address wire_host_address received_host_address
  host_address-Reads old m v =
      Reads->>= _ _ _ _ _ _ (Reads-text_string little _ m.ip_address v.ip_address) (
        Reads->>= _ _ _ _ _ _ (Reads-text_string little _ m.host_name v.host_name) (
          Reads->>= _ _ _ _ _ _
            ((array-Implements little (address_item-Implements little)).reads _ m.address_list
              v.address_list)
            (Reads->>= _ _ _ _ _ _
              ((exportable_svc_address-Implements little).reads _ m.svc_addr_list v.svc_addr_list)
              (Reads->>= _ _ _ _ _ _ (Reads-scalar little 1 _ m.options v.options) (
                Reads-last _ _ _ _ (
                  Reads-when _ _ _ _ _
                    (λ e. (tokens-Implements little).reads _ m.token_list (v.token_list e))))))))

  host_address-Safe : (old : HostAddress) → Safe (deserialize_host_address little old)
  unfolding deserialize_host_address
  host_address-Safe old = Safe->>= _ _ (Safe-string little old.ip_address) (λ ip_address.
      Safe->>= _ _ (Safe-string little old.host_name) (λ host_name.
        Safe->>= _ _
          ((array-Implements little (address_item-Implements little)).safe old.address_list)
          (λ address_list.
            Safe->>= _ _ ((exportable_svc_address-Implements little).safe old.svc_addr_list)
              (λ svc_addr_list. Safe->>= _ _ (Safe-scalar little 1 _ (omega arith)) (λ options.
                Safe->>= _ _ (Safe-when _ _ _ ((tokens-Implements little).safe old.token_list))
                  (λ token_list. Safe-pure _))))))

  pub host_address-Implements : Implements (host_address little) host_address_format
  host_address-Implements = record {
    appends = host_address-Appends;
    reads = host_address-Reads;
    safe = host_address-Safe;
  }
