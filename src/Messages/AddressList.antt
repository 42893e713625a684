-- ===== src/Messages/AddressList.antt =====
-- FdbMsgAddressList (public/fdbus/CFdbIfNameServer.h).
use fdbus.Prelude.{ℕ, ◌%◌, ◌^◌, ◌<◌, ◌≡◌, Bool, true, List, [], ◌++◌, arith, length, if◌then◌else◌}
use fdbus.Prelude.Bits.{has_bit}
use fdbus.Bytes.{bytes}
use fdbus.Serializer.{Ser, ◌>>◌, put_when, serialize_scalar, put_string, put_bool}
use fdbus.Serializer.Growth.{Appends, Appends->>}
use fdbus.Serializer.Puts.{serialize_scalar-Appends, put_bool-Appends}
use fdbus.Deserializer.{Des, pure, ◌>>=◌, when, deserialize_scalar, get_string, get_bool}
use fdbus.Deserializer.Reading.{Reads, Reads-when, Reads->>=, Reads-scalar, Reads-bool}
use fdbus.Deserializer.Safety.{
  Safe, Safe-pure, Safe-when, Safe->>=, Safe-scalar, Safe-string, Safe-bool,
}
use fdbus.Parcelable.{Parcelable, put_array, get_array}
use fdbus.Parcelable.Arrays.{wire_each, received_each, IsArray, array-Implements}
use fdbus.Parcelable.Codec.{
  Format, Implements, IsText, wire_text, text_format, put_string-Appends_text, Reads-text_string,
  Reads-last, Appends-when,
}
use fdbus.Messages.Tokens.{tokens, tokens_format, tokens-Implements}
use fdbus.Messages.AddressItem.{
  AddressItem, new_address_item, address_item, address_item_format, address_item-Implements,
}

pub record AddressList : Type 0 where
  pub service_name : List ℕ
  pub host_name : List ℕ
  pub endpoint_name : List ℕ
  pub domain_name : List ℕ
  pub instance_id : ℕ
  pub is_local : Bool
  pub pid : ℕ
  pub address_list : List AddressItem
  pub options : ℕ
  pub token_list : List (List ℕ)

abbrev pub new_address_list : AddressList
new_address_list = record {
  service_name = [];
  host_name = [];
  endpoint_name = [];
  domain_name = [];
  instance_id = 0;
  is_local = true;
  pid = 0;
  address_list = [];
  options = 0;
  token_list = [];
}

module _ (little : Bool) where
  unfoldable pub serialize_address_list : AddressList → Ser
  serialize_address_list m = do
    put_string little m.service_name
    put_string little m.host_name
    put_string little m.endpoint_name
    put_string little m.domain_name
    serialize_scalar little 4 m.instance_id
    put_bool little m.is_local
    serialize_scalar little 4 (m.pid % 2 ^ 32)
    put_array little (address_item little) m.address_list
    serialize_scalar little 1 m.options
    put_when (has_bit 1 m.options) ((tokens little).serialize m.token_list)

  unfoldable pub deserialize_address_list : AddressList → Des AddressList
  deserialize_address_list old = do
    service_name ← get_string little old.service_name
    host_name ← get_string little old.host_name
    endpoint_name ← get_string little old.endpoint_name
    domain_name ← get_string little old.domain_name
    instance_id ← deserialize_scalar little 4 old.instance_id
    is_local ← get_bool little
    pid ← deserialize_scalar little 4 0
    address_list ← get_array little (address_item little) old.address_list
    options ← deserialize_scalar little 1 old.options
    token_list ←
        when (has_bit 1 options) ((tokens little).deserialize old.token_list) old.token_list
    pure (record {
      service_name = service_name;
      host_name = host_name;
      endpoint_name = endpoint_name;
      domain_name = domain_name;
      instance_id = instance_id;
      is_local = is_local;
      pid = pid;
      address_list = address_list;
      options = options;
      token_list = token_list;
    })

abbrev pub address_list : Bool → Parcelable AddressList
address_list little = record {
  fresh = new_address_list;
  serialize = serialize_address_list little;
  deserialize = deserialize_address_list little;
}

-- Every member that goes out fits its field.
pub record IsAddressList (m : AddressList) : Type 0 where
  pub service_name : IsText m.service_name
  pub host_name : IsText m.host_name
  pub endpoint_name : IsText m.endpoint_name
  pub domain_name : IsText m.domain_name
  pub instance_id : m.instance_id < 256 ^ 4
  pub pid : m.pid < 256 ^ 4
  pub address_list : IsArray address_item_format m.address_list
  pub options : m.options < 256 ^ 1
  pub token_list : has_bit 1 m.options ≡ true → IsArray text_format m.token_list

unfoldable pub wire_address_list : AddressList → List ℕ
wire_address_list m =
    wire_text m.service_name
    ++ (wire_text m.host_name
        ++ (wire_text m.endpoint_name
            ++ (wire_text m.domain_name
                ++ (bytes 4 m.instance_id
                    ++ (bytes 1 (if m.is_local then 1 else 0)
                        ++ (bytes 4 m.pid
                            ++ ((bytes 2 (length m.address_list)
                                  ++ wire_each address_item_format m.address_list)
                                ++ (bytes 1 m.options
                                    ++ ((if has_bit 1 m.options
                                        then tokens_format.wire m.token_list
                                        else []))))))))))

-- The object after reading `m` into `old`.
unfoldable pub received_address_list : AddressList → AddressList → AddressList
received_address_list old m = record m {
  address_list = received_each address_item_format new_address_item old.address_list m.address_list;
  token_list =
      if has_bit 1 m.options
      then tokens_format.received old.token_list m.token_list
      else old.token_list;
}

abbrev pub address_list_format : Format AddressList
address_list_format = record {
  IsSendable = IsAddressList;
  wire = wire_address_list;
  received = received_address_list;
}

module _ (little : Bool) where
  address_list-Appends :
      (m : AddressList)
      → IsAddressList m
      → Appends (serialize_address_list little m) (wire_address_list m)
  unfolding serialize_address_list wire_address_list
  address_list-Appends m v =
      let pid : m.pid % 2 ^ 32 ≡ m.pid = omega (arith, v.pid) in
      rw pid (
        Appends->> _ _ _ _ (put_string-Appends_text little m.service_name v.service_name) (
          Appends->> _ _ _ _ (put_string-Appends_text little m.host_name v.host_name) (
            Appends->> _ _ _ _ (put_string-Appends_text little m.endpoint_name v.endpoint_name) (
              Appends->> _ _ _ _ (put_string-Appends_text little m.domain_name v.domain_name) (
                Appends->> _ _ _ _ (serialize_scalar-Appends little 4 m.instance_id) (
                  Appends->> _ _ _ _ (put_bool-Appends little m.is_local) (
                    Appends->> _ _ _ _ (serialize_scalar-Appends little 4 m.pid) (
                      Appends->> _ _ _ _
                        ((array-Implements little (address_item-Implements little)).appends
                          m.address_list v.address_list)
                        (Appends->> _ _ _ _ (serialize_scalar-Appends little 1 m.options) (
                          Appends-when _ _ _ (λ e.
                            (tokens-Implements little).appends m.token_list
                              (v.token_list e))))))))))))

  address_list-Reads :
      (old m : AddressList)
      → IsAddressList m
      → Reads
          (deserialize_address_list little old)
          (wire_address_list m)
          (received_address_list old m)
  unfolding deserialize_address_list wire_address_list received_address_list
  address_list-Reads old m v =
      Reads->>= _ _ _ _ _ _ (Reads-text_string little _ m.service_name v.service_name) (
        Reads->>= _ _ _ _ _ _ (Reads-text_string little _ m.host_name v.host_name) (
          Reads->>= _ _ _ _ _ _ (Reads-text_string little _ m.endpoint_name v.endpoint_name) (
            Reads->>= _ _ _ _ _ _ (Reads-text_string little _ m.domain_name v.domain_name) (
              Reads->>= _ _ _ _ _ _ (Reads-scalar little 4 _ m.instance_id v.instance_id) (
                Reads->>= _ _ _ _ _ _ (Reads-bool little m.is_local) (
                  Reads->>= _ _ _ _ _ _ (Reads-scalar little 4 _ m.pid v.pid) (
                    Reads->>= _ _ _ _ _ _
                      ((array-Implements little (address_item-Implements little)).reads _
                        m.address_list v.address_list)
                      (Reads->>= _ _ _ _ _ _ (Reads-scalar little 1 _ m.options v.options) (
                        Reads-last _ _ _ _ (
                          Reads-when _ _ _ _ _ (λ e.
                            (tokens-Implements little).reads _ m.token_list
                              (v.token_list e))))))))))))

  address_list-Safe : (old : AddressList) → Safe (deserialize_address_list little old)
  unfolding deserialize_address_list
  address_list-Safe old = Safe->>= _ _ (Safe-string little old.service_name) (λ service_name.
      Safe->>= _ _ (Safe-string little old.host_name) (λ host_name.
        Safe->>= _ _ (Safe-string little old.endpoint_name) (λ endpoint_name.
          Safe->>= _ _ (Safe-string little old.domain_name) (λ domain_name.
            Safe->>= _ _ (Safe-scalar little 4 _ (omega arith)) (λ instance_id.
              Safe->>= _ _ (Safe-bool little) (λ is_local.
                Safe->>= _ _ (Safe-scalar little 4 _ (omega arith)) (λ pid.
                  Safe->>= _ _
                    ((array-Implements little (address_item-Implements little)).safe
                      old.address_list)
                    (λ address_list. Safe->>= _ _ (Safe-scalar little 1 _ (omega arith)) (λ options.
                      Safe->>= _ _
                        (Safe-when _ _ _ ((tokens-Implements little).safe old.token_list))
                        (λ token_list. Safe-pure _))))))))))

  pub address_list-Implements : Implements (address_list little) address_list_format
  address_list-Implements = record {
    appends = address_list-Appends;
    reads = address_list-Reads;
    safe = address_list-Safe;
  }
