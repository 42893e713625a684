-- ===== src/Messages/DomainAddress.antt =====
-- FdbMsgDomainAddress (public/fdbus/CFdbIfNameServer.h).
use fdbus.Prelude.{arith, ℕ, ◌^◌, ◌<◌, ◌≡◌, Bool, true, List, [], ◌++◌, if◌then◌else◌}
use fdbus.Prelude.Bits.{has_bit}
use fdbus.Bytes.{bytes}
use fdbus.Serializer.{Ser, ◌>>◌, put_when, serialize_scalar, put_string}
use fdbus.Serializer.Growth.{Appends, Appends->>}
use fdbus.Serializer.Puts.{serialize_scalar-Appends}
use fdbus.Deserializer.{Des, pure, ◌>>=◌, when, deserialize_scalar, get_string}
use fdbus.Deserializer.Reading.{Reads, Reads-when, Reads->>=, Reads-scalar}
use fdbus.Deserializer.Safety.{Safe, Safe-pure, Safe-when, Safe->>=, Safe-scalar, Safe-string}
use fdbus.Parcelable.{Parcelable}
use fdbus.Parcelable.Arrays.{IsArray}
use fdbus.Parcelable.Codec.{
  Format, Implements, IsText, wire_text, text_format, put_string-Appends_text, Reads-text_string,
  Reads-last, Appends-when,
}
use fdbus.Messages.Tokens.{tokens, tokens_format, tokens-Implements}
use fdbus.Messages.ExportableSvcAddress.{
  ExportableSvcAddress, new_exportable_svc_address, exportable_svc_address, IsExportableSvcAddress,
  wire_exportable_svc_address, received_exportable_svc_address, exportable_svc_address-Implements,
}

pub record DomainAddress : Type 0 where
  pub domain_name : List ℕ
  pub svc_addr_list : ExportableSvcAddress
  pub options : ℕ
  pub token_list : List (List ℕ)

abbrev pub new_domain_address : DomainAddress
new_domain_address = record {
  domain_name = [];
  svc_addr_list = new_exportable_svc_address;
  options = 0;
  token_list = [];
}

module _ (little : Bool) where
  unfoldable pub serialize_domain_address : DomainAddress → Ser
  serialize_domain_address m = do
    put_string little m.domain_name
    (exportable_svc_address little).serialize m.svc_addr_list
    serialize_scalar little 1 m.options
    put_when (has_bit 1 m.options) ((tokens little).serialize m.token_list)

  unfoldable pub deserialize_domain_address : DomainAddress → Des DomainAddress
  deserialize_domain_address old = do
    domain_name ← get_string little old.domain_name
    svc_addr_list ← (exportable_svc_address little).deserialize old.svc_addr_list
    options ← deserialize_scalar little 1 old.options
    token_list ←
        when (has_bit 1 options) ((tokens little).deserialize old.token_list) old.token_list
    pure (record {
      domain_name = domain_name;
      svc_addr_list = svc_addr_list;
      options = options;
      token_list = token_list;
    })

abbrev pub domain_address : Bool → Parcelable DomainAddress
domain_address little = record {
  fresh = new_domain_address;
  serialize = serialize_domain_address little;
  deserialize = deserialize_domain_address little;
}

-- Every member that goes out fits its field.
pub record IsDomainAddress (m : DomainAddress) : Type 0 where
  pub domain_name : IsText m.domain_name
  pub svc_addr_list : IsExportableSvcAddress m.svc_addr_list
  pub options : m.options < 256 ^ 1
  pub token_list : has_bit 1 m.options ≡ true → IsArray text_format m.token_list

unfoldable pub wire_domain_address : DomainAddress → List ℕ
wire_domain_address m =
    wire_text m.domain_name
    ++ (wire_exportable_svc_address m.svc_addr_list
        ++ (bytes 1 m.options
            ++ ((if has_bit 1 m.options then tokens_format.wire m.token_list else []))))

-- The object after reading `m` into `old`.
unfoldable pub received_domain_address : DomainAddress → DomainAddress → DomainAddress
received_domain_address old m = record m {
  svc_addr_list = received_exportable_svc_address old.svc_addr_list m.svc_addr_list;
  token_list =
      if has_bit 1 m.options
      then tokens_format.received old.token_list m.token_list
      else old.token_list;
}

abbrev pub domain_address_format : Format DomainAddress
domain_address_format = record {
  IsSendable = IsDomainAddress;
  wire = wire_domain_address;
  received = received_domain_address;
}

module _ (little : Bool) where
  domain_address-Appends :
      (m : DomainAddress)
      → IsDomainAddress m
      → Appends (serialize_domain_address little m) (wire_domain_address m)
  unfolding serialize_domain_address wire_domain_address
  domain_address-Appends m v =
      Appends->> _ _ _ _ (put_string-Appends_text little m.domain_name v.domain_name) (
        Appends->> _ _ _ _
          ((exportable_svc_address-Implements little).appends m.svc_addr_list v.svc_addr_list)
          (Appends->> _ _ _ _ (serialize_scalar-Appends little 1 m.options) (
            Appends-when _ _ _
              (λ e. (tokens-Implements little).appends m.token_list (v.token_list e)))))

  domain_address-Reads :
      (old m : DomainAddress)
      → IsDomainAddress m
      → Reads
          (deserialize_domain_address little old)
          (wire_domain_address m)
          (received_domain_address old m)
  unfolding deserialize_domain_address wire_domain_address received_domain_address
  domain_address-Reads old m v =
      Reads->>= _ _ _ _ _ _ (Reads-text_string little _ m.domain_name v.domain_name) (
        Reads->>= _ _ _ _ _ _
          ((exportable_svc_address-Implements little).reads _ m.svc_addr_list v.svc_addr_list)
          (Reads->>= _ _ _ _ _ _ (Reads-scalar little 1 _ m.options v.options) (
            Reads-last _ _ _ _ (
              Reads-when _ _ _ _ _
                (λ e. (tokens-Implements little).reads _ m.token_list (v.token_list e))))))

  domain_address-Safe : (old : DomainAddress) → Safe (deserialize_domain_address little old)
  unfolding deserialize_domain_address
  domain_address-Safe old = Safe->>= _ _ (Safe-string little old.domain_name) (λ domain_name.
      Safe->>= _ _ ((exportable_svc_address-Implements little).safe old.svc_addr_list)
        (λ svc_addr_list. Safe->>= _ _ (Safe-scalar little 1 _ (omega arith)) (λ options.
          Safe->>= _ _ (Safe-when _ _ _ ((tokens-Implements little).safe old.token_list))
            (λ token_list. Safe-pure _))))

  pub domain_address-Implements : Implements (domain_address little) domain_address_format
  domain_address-Implements = record {
    appends = domain_address-Appends;
    reads = domain_address-Reads;
    safe = domain_address-Safe;
  }
