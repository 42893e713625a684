-- ===== src/Messages/HostRegisterAck.antt =====
-- FdbMsgHostRegisterAck (public/fdbus/CFdbIfNameServer.h).
use fdbus.Prelude.{arith, ℕ, ◌^◌, ◌<◌, ◌≡◌, Bool, true, List, [], ◌++◌, if◌then◌else◌}
use fdbus.Prelude.Bits.{has_bit}
use fdbus.Bytes.{bytes}
use fdbus.Serializer.{Ser, ◌>>◌, put_when, serialize_scalar, put_string}
use fdbus.Serializer.Growth.{Appends, Appends->>}
use fdbus.Serializer.Puts.{serialize_scalar-Appends}
use fdbus.Deserializer.{Des, pure, ◌>>=◌, when, deserialize_scalar, get_string}
use fdbus.Deserializer.Reading.{Reads, Reads-when, Reads->>=, Reads-scalar}
use fdbus.Deserializer.Safety.{Safe, Safe-pure, Safe-when, Safe->>=, Safe-scalar, Safe-string}
use fdbus.Parcelable.{Parcelable}
use fdbus.Parcelable.Arrays.{IsArray}
use fdbus.Parcelable.Codec.{
  Format, Implements, IsText, wire_text, text_format, put_string-Appends_text, Reads-text_string,
  Reads-last, Appends-when,
}
use fdbus.Messages.Tokens.{tokens, tokens_format, tokens-Implements}

pub record HostRegisterAck : Type 0 where
  pub domain_name : List ℕ
  pub options : ℕ
  pub token_list : List (List ℕ)

abbrev pub new_host_register_ack : HostRegisterAck
new_host_register_ack = record { domain_name = []; options = 0; token_list = [] }

module _ (little : Bool) where
  unfoldable pub serialize_host_register_ack : HostRegisterAck → Ser
  serialize_host_register_ack m = do
    put_string little m.domain_name
    serialize_scalar little 1 m.options
    put_when (has_bit 1 m.options) ((tokens little).serialize m.token_list)

  unfoldable pub deserialize_host_register_ack : HostRegisterAck → Des HostRegisterAck
  deserialize_host_register_ack old = do
    domain_name ← get_string little old.domain_name
    options ← deserialize_scalar little 1 old.options
    token_list ←
        when (has_bit 1 options) ((tokens little).deserialize old.token_list) old.token_list
    pure (record { domain_name = domain_name; options = options; token_list = token_list })

abbrev pub host_register_ack : Bool → Parcelable HostRegisterAck
host_register_ack little = record {
  fresh = new_host_register_ack;
  serialize = serialize_host_register_ack little;
  deserialize = deserialize_host_register_ack little;
}

-- Every member that goes out fits its field.
pub record IsHostRegisterAck (m : HostRegisterAck) : Type 0 where
  pub domain_name : IsText m.domain_name
  pub options : m.options < 256 ^ 1
  pub token_list : has_bit 1 m.options ≡ true → IsArray text_format m.token_list

unfoldable pub wire_host_register_ack : HostRegisterAck → List ℕ
wire_host_register_ack m =
    wire_text m.domain_name
    ++ (bytes 1 m.options
        ++ ((if has_bit 1 m.options then tokens_format.wire m.token_list else [])))

-- The object after reading `m` into `old`.
unfoldable pub received_host_register_ack : HostRegisterAck → HostRegisterAck → HostRegisterAck
received_host_register_ack old m = record m {
  token_list =
      if has_bit 1 m.options
      then tokens_format.received old.token_list m.token_list
      else old.token_list;
}

abbrev pub host_register_ack_format : Format HostRegisterAck
host_register_ack_format = record {
  IsSendable = IsHostRegisterAck;
  wire = wire_host_register_ack;
  received = received_host_register_ack;
}

module _ (little : Bool) where
  host_register_ack-Appends :
      (m : HostRegisterAck)
      → IsHostRegisterAck m
      → Appends (serialize_host_register_ack little m) (wire_host_register_ack m)
  unfolding serialize_host_register_ack wire_host_register_ack
  host_register_ack-Appends m v =
      Appends->> _ _ _ _ (put_string-Appends_text little m.domain_name v.domain_name) (
        Appends->> _ _ _ _ (serialize_scalar-Appends little 1 m.options) (
          Appends-when _ _ _
            (λ e. (tokens-Implements little).appends m.token_list (v.token_list e))))

  host_register_ack-Reads :
      (old m : HostRegisterAck)
      → IsHostRegisterAck m
      → Reads
          (deserialize_host_register_ack little old)
          (wire_host_register_ack m)
          (received_host_register_ack old m)
  unfolding deserialize_host_register_ack wire_host_register_ack received_host_register_ack
  host_register_ack-Reads old m v =
      Reads->>= _ _ _ _ _ _ (Reads-text_string little _ m.domain_name v.domain_name) (
        Reads->>= _ _ _ _ _ _ (Reads-scalar little 1 _ m.options v.options) (
          Reads-last _ _ _ _ (
            Reads-when _ _ _ _ _
              (λ e. (tokens-Implements little).reads _ m.token_list (v.token_list e)))))

  host_register_ack-Safe : (old : HostRegisterAck) → Safe (deserialize_host_register_ack little old)
  unfolding deserialize_host_register_ack
  host_register_ack-Safe old = Safe->>= _ _ (Safe-string little old.domain_name) (λ domain_name.
      Safe->>= _ _ (Safe-scalar little 1 _ (omega arith)) (λ options.
        Safe->>= _ _ (Safe-when _ _ _ ((tokens-Implements little).safe old.token_list))
          (λ token_list. Safe-pure _)))

  pub host_register_ack-Implements : Implements (host_register_ack little) host_register_ack_format
  host_register_ack-Implements = record {
    appends = host_register_ack-Appends;
    reads = host_register_ack-Reads;
    safe = host_register_ack-Safe;
  }
