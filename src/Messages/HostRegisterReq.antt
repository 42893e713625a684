-- ===== src/Messages/HostRegisterReq.antt =====
-- FdbMsgHostRegisterReq (public/fdbus/CFdbIfNameServer.h).
use fdbus.Prelude.{ℕ, ◌^◌, ◌<◌, ◌≡◌, Bool, true, List, [], ◌++◌, if◌then◌else◌}
use fdbus.Prelude.Bits.{has_bit}
use fdbus.Bytes.{bytes}
use fdbus.Serializer.{Ser, ◌>>◌, put_when, serialize_scalar, put_string}
use fdbus.Serializer.Growth.{Appends, Appends->>}
use fdbus.Serializer.Puts.{serialize_scalar-Appends}
use fdbus.Deserializer.{Des, pure, ◌>>=◌, when, deserialize_scalar, get_string}
use fdbus.Deserializer.Reading.{Reads, Reads-when, Reads->>=, Reads-scalar}
use fdbus.Deserializer.Safety.{Safe, safe_gets}
use fdbus.Parcelable.{Parcelable}
use fdbus.Parcelable.Codec.{
  Format, Implements, IsText, wire_text, put_string-Appends_text, Reads-text_string, Reads-last,
  Appends-when,
}

pub record HostRegisterReq : Type 0 where
  pub ip_address : List ℕ
  pub host_name : List ℕ
  pub options : ℕ
  pub cred : List ℕ

abbrev pub new_host_register_req : HostRegisterReq
new_host_register_req = record { ip_address = []; host_name = []; options = 0; cred = [] }

module _ (little : Bool) where
  unfoldable pub serialize_host_register_req : HostRegisterReq → Ser
  serialize_host_register_req m = do
    put_string little m.ip_address
    put_string little m.host_name
    serialize_scalar little 1 m.options
    put_when (has_bit 1 m.options) (put_string little m.cred)

  unfoldable pub deserialize_host_register_req : HostRegisterReq → Des HostRegisterReq
  deserialize_host_register_req old = do
    ip_address ← get_string little old.ip_address
    host_name ← get_string little old.host_name
    options ← deserialize_scalar little 1 old.options
    cred ← when (has_bit 1 options) (get_string little old.cred) old.cred
    pure (record { ip_address = ip_address; host_name = host_name; options = options; cred = cred })

abbrev pub host_register_req : Bool → Parcelable HostRegisterReq
host_register_req little = record {
  fresh = new_host_register_req;
  serialize = serialize_host_register_req little;
  deserialize = deserialize_host_register_req little;
}

-- Every member that goes out fits its field.
pub record IsHostRegisterReq (m : HostRegisterReq) : Type 0 where
  pub ip_address : IsText m.ip_address
  pub host_name : IsText m.host_name
  pub options : m.options < 256 ^ 1
  pub cred : has_bit 1 m.options ≡ true → IsText m.cred

unfoldable pub wire_host_register_req : HostRegisterReq → List ℕ
wire_host_register_req m =
    wire_text m.ip_address
    ++ (wire_text m.host_name
        ++ (bytes 1 m.options ++ ((if has_bit 1 m.options then wire_text m.cred else []))))

-- The object after reading `m` into `old`.
unfoldable pub received_host_register_req : HostRegisterReq → HostRegisterReq → HostRegisterReq
received_host_register_req old m = record m {
  cred = if has_bit 1 m.options then m.cred else old.cred;
}

abbrev pub host_register_req_format : Format HostRegisterReq
host_register_req_format = record {
  IsSendable = IsHostRegisterReq;
  wire = wire_host_register_req;
  received = received_host_register_req;
}

module _ (little : Bool) where
  host_register_req-Appends :
      (m : HostRegisterReq)
      → IsHostRegisterReq m
      → Appends (serialize_host_register_req little m) (wire_host_register_req m)
  unfolding serialize_host_register_req wire_host_register_req
  host_register_req-Appends m v =
      Appends->> _ _ _ _ (put_string-Appends_text little m.ip_address v.ip_address) (
        Appends->> _ _ _ _ (put_string-Appends_text little m.host_name v.host_name) (
          Appends->> _ _ _ _ (serialize_scalar-Appends little 1 m.options)
            (Appends-when _ _ _ (λ e. put_string-Appends_text little m.cred (v.cred e)))))

  host_register_req-Reads :
      (old m : HostRegisterReq)
      → IsHostRegisterReq m
      → Reads
          (deserialize_host_register_req little old)
          (wire_host_register_req m)
          (received_host_register_req old m)
  unfolding deserialize_host_register_req wire_host_register_req received_host_register_req
  host_register_req-Reads old m v =
      Reads->>= _ _ _ _ _ _ (Reads-text_string little _ m.ip_address v.ip_address) (
        Reads->>= _ _ _ _ _ _ (Reads-text_string little _ m.host_name v.host_name) (
          Reads->>= _ _ _ _ _ _ (Reads-scalar little 1 _ m.options v.options) (
            Reads-last _ _ _ _
              (Reads-when _ _ _ _ _ (λ e. Reads-text_string little _ m.cred (v.cred e))))))

  host_register_req-Safe : (old : HostRegisterReq) → Safe (deserialize_host_register_req little old)
  unfolding deserialize_host_register_req
  host_register_req-Safe old = search safe_gets depth 40

  pub host_register_req-Implements : Implements (host_register_req little) host_register_req_format
  host_register_req-Implements = record {
    appends = host_register_req-Appends;
    reads = host_register_req-Reads;
    safe = host_register_req-Safe;
  }
